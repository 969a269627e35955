-- ===== src/Socks/Reply.antt =====
-- The reply to a request, in pipeWhenClose of socks/socks.go, and the methods of net.IP in it.
pub mod Shape
use go_util.Prelude.{
  ℕ, ◌/◌, ◌%◌, Bool, true, false, ◌&&◌, Option, none, some, List, [], ◌∷◌, ◌++◌, length, take, drop,
  replicate, ◌==◌, if◌then◌else◌,
}

-- The Zone of a net.TCPAddr: unset, one of the two texts that the proxy puts in, or another text.
pub data Zone : Type 0 where
  unset ip4 ip6 other : Zone

-- *net.TCPAddr
pub record TcpAddr : Type 0 where
  pub ip : List ℕ
  pub port : ℕ
  pub zone : Zone

-- The twelve bytes before the four of an IPv4 address in sixteen.
abbrev pub v4_prefix : List ℕ
v4_prefix = replicate 10 0 ++ (255 ∷ 255 ∷ [])

abbrev bytes_equal : List ℕ → List ℕ → Bool
bytes_equal [] [] = true
bytes_equal [] (y ∷ ys) = false
bytes_equal (x ∷ xs) [] = false
bytes_equal (x ∷ xs) (y ∷ ys) = x == y && bytes_equal xs ys

-- net.IP.To4; `none` is nil.
unfoldable pub to4 : List ℕ → Option (List ℕ)
to4 ip =
    if length ip == 4
    then some ip
    else if length ip == 16 && bytes_equal (take 12 ip) v4_prefix
    then some (drop 12 ip)
    else none

-- net.IP.To16
unfoldable pub to16 : List ℕ → Option (List ℕ)
to16 ip =
    if length ip == 4 then some (v4_prefix ++ ip) else if length ip == 16 then some ip else none

abbrev or_nil : Option (List ℕ) → List ℕ
or_nil none = []
or_nil (some ip) = ip

-- net.IP.Equal: an IPv4 address and its form in sixteen bytes are equal.
unfoldable pub ip_equal : List ℕ → List ℕ → Bool
ip_equal a b =
    if length a == length b
    then bytes_equal a b
    else if length a == 4 && length b == 16
    then bytes_equal (take 12 b) v4_prefix && bytes_equal a (drop 12 b)
    else if length a == 16 && length b == 4
    then bytes_equal (take 12 a) v4_prefix && bytes_equal (drop 12 a) b
    else false

abbrev zone_or : Zone → Bool → Zone
zone_or unset is_ip4 = if is_ip4 then ip4 else ip6
zone_or ip4 is_ip4 = ip4
zone_or ip6 is_ip4 = ip6
zone_or other is_ip4 = other

-- The zone, which an unset one is given from the address.
unfoldable pub zone_of : TcpAddr → Zone
zone_of addr = zone_or addr.zone (ip_equal addr.ip (or_nil (to4 addr.ip)))

unfoldable pub address_type : Zone → ℕ
address_type unset = 1
address_type ip4 = 1
address_type ip6 = 4
address_type other = 1

unfoldable pub address_bytes : Zone → List ℕ → List ℕ
address_bytes unset ip = or_nil (to4 ip)
address_bytes ip4 ip = or_nil (to4 ip)
address_bytes ip6 ip = or_nil (to16 ip)
address_bytes other ip = or_nil (to4 ip)

-- rep[0:pindex+2]
unfoldable pub reply : TcpAddr → List ℕ
reply addr =
    let zone = zone_of addr in
    (5 ∷ 0 ∷ 0 ∷ address_type zone ∷ [])
    ++ (address_bytes zone addr.ip ++ ((addr.port / 256 % 256) ∷ (addr.port % 256) ∷ []))

-- ===== src/Socks/Request.antt =====
-- handShake and parseTarget of socks/socks.go.
pub mod Reading
pub mod Greeting
pub mod Target
use Prim.Native.String.{String}
use go_util.Prelude.{
  ℕ, ◌+◌, ◌-◌, ◌%◌, Bool, not, ◌&&◌, ◌||◌, List, [], ◌∷◌, ◌++◌, length, get_elem?, ltb, ◌==◌,
  if◌then◌else◌, Outcome, ok, err, panic, or_panic,
}
use go_util.Wire.Slices.{reslice, full, be_uint16}
use go_util.Socks.Conn.{
  Run, Error, addr_type, version, auth_extra_data, req_extra_data, command, ◌>>=◌, lift, write,
  read_at_least, read_full, buffer,
}

abbrev pub socks_ver5 : ℕ
socks_ver5 = 5

abbrev pub socks_cmd_connect : ℕ
socks_cmd_connect = 1

abbrev pub type_ipv4 : ℕ
type_ipv4 = 1

abbrev pub type_dm : ℕ
type_dm = 3

abbrev pub type_ipv6 : ℕ
type_ipv6 = 4

-- The text that package net, and the conversion of bytes to a string, make of an address.
pub record Texts : Type 0 where
  -- net.IP.String
  pub ip_string : List ℕ → String
  -- string(bytes)
  pub string_of : List ℕ → String
  -- net.JoinHostPort(host, strconv.Itoa(port))
  pub join_host_port : String → ℕ → String

-- buf[i]
abbrev index : List ℕ → ℕ → Run ℕ
index buf i = lift (or_panic (get_elem? buf i))

-- buf[lo:hi], of a buffer that has no capacity past its end.
cut : List ℕ → ℕ → ℕ → Run (List ℕ)
cut buf lo hi = do s ← lift (or_panic (reslice (full buf) lo hi)); lift (ok s.content)

-- After a first read of `got`, the rest of a message of `size` bytes; more than that is `extra`.
unfoldable pub fill_up : Error → List ℕ → ℕ → Run (List ℕ)
fill_up extra got size =
    if length got == size
    then lift (ok got)
    else (if ltb (length got) size
        then (do more ← read_full (length got) size; lift (ok (got ++ more)))
        else lift (err extra))

unfoldable pub hand_shake : Run (Unit {0})
unfolding fill_up
hand_shake = do
  got ← read_at_least 2 258
  ver ← index (buffer 258 got) 0
  nmethod ← index (buffer 258 got) 1
  if not (ver == socks_ver5)
      then lift (err version)
      else (do _ ← fill_up auth_extra_data got (nmethod + 2); write (socks_ver5 ∷ 0 ∷ []))

-- reqLen, from the address type and buf[idDmLen].
requested_length : ℕ → ℕ → Outcome Error ℕ
requested_length atype len =
    if atype == type_ipv4
    then ok 10
    else if atype == type_ipv6
    then ok 22
    else if atype == type_dm
    then ok (len + 7)
    else err addr_type

-- The host's text. The upper bound of the domain name is computed in bytes.
host_text : Texts → List ℕ → ℕ → ℕ → Run String
unfolding cut
host_text texts buf atype len =
    if atype == type_ipv4
    then (do ip ← cut buf 4 8; lift (ok (texts.ip_string ip)))
    else if atype == type_ipv6
    then (do ip ← cut buf 4 20; lift (ok (texts.ip_string ip)))
    else (do name ← cut buf 5 ((5 + len) % 256); lift (ok (texts.string_of name)))

-- buf[reqLen-2:reqLen] as a big-endian number.
port_of : List ℕ → ℕ → Run ℕ
unfolding cut
port_of buf req_len = do two ← cut buf (req_len - 2) req_len; lift (or_panic (be_uint16 two))

-- The address in the buffer, once the whole request is there.
located : Texts → List ℕ → ℕ → ℕ → ℕ → Run String
unfolding host_text port_of
located texts buf atype len req_len = do
  host ← host_text texts buf atype len
  port ← port_of buf req_len
  lift (ok (texts.join_host_port host port))

-- The tests on the version and the command. The log line of a verbose proxy indexes a table of
-- three commands with cmd-1.
checked : Bool → ℕ → ℕ → Outcome Error (Unit {0})
checked verbose ver cmd =
    if not (ver == socks_ver5)
    then err version
    else if verbose && (cmd == 0 || ltb 3 cmd)
    then panic
    else if not (cmd == socks_cmd_connect)
    then err command
    else ok tt

-- The argument `verbose` is the package's variable.
unfoldable pub parse_target : Texts → Bool → Run String
unfolding fill_up requested_length located checked
parse_target texts verbose = do
  got ← read_at_least 5 263
  ver ← index (buffer 263 got) 0
  cmd ← index (buffer 263 got) 1
  _ ← lift (checked verbose ver cmd)
  atype ← index (buffer 263 got) 3
  len ← index (buffer 263 got) 4
  req_len ← lift (requested_length atype len)
  request ← fill_up req_extra_data got req_len
  located texts (buffer 263 request) atype len req_len

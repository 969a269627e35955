-- ===== src/Stun/Library.antt =====
-- What the client calls of Go's packages net, strconv and hash/crc32, as one parameter, and the
-- client's error values.
use Prim.Native.String.{String}
use go_util.Prelude.{ℕ, Bool, Option, List, Outcome}

-- *net.UDPAddr: a net.IP (its bytes) and a port.
pub record UdpAddr : Type 0 where
  pub ip : List ℕ
  pub port : ℕ

pub record Library : Type 0 where
  -- net.IP.String
  pub ip_string : List ℕ → String
  -- net.IP.To4, net.IP.Equal, net.IP.IsUnspecified
  pub to4 : List ℕ → Option (List ℕ)
  pub ip_equal : List ℕ → List ℕ → Bool
  pub is_unspecified : List ℕ → Bool
  -- net.ResolveUDPAddr("udp", s): `none` is an error
  pub resolve_udp_addr : String → Option UdpAddr
  -- net.JoinHostPort(host, strconv.Itoa(port))
  pub join_host_port : String → ℕ → String
  -- net.InterfaceAddrs, with net.ParseCIDR of each address: `none` is an error
  pub interface_addrs : Option (List (Option (List ℕ)))
  -- crc32.ChecksumIEEE
  pub checksum_ieee : List ℕ → ℕ

-- The error values that the client makes, and those that it passes on from a library call.
pub data Error : Type 0 where
  too_short format_mismatch sending server_addr no_changed_addr no_connection no_contact : Error
  library : ℕ → Error

abbrev pub Go {ℓ} : Type ℓ → Type ℓ
Go A = Outcome Error A

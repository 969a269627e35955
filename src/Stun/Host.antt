-- ===== src/Stun/Host.antt =====
-- p2p/go-stun/stun/host.go, and isLocalAddress of p2p/go-stun/stun/utils.go.
use Prim.Native.String.{String}
use go_util.Prelude.{ℕ, Bool, true, false, not, Option, none, some, List, [], ◌∷◌, if◌then◌else◌}
use go_util.Wire.Slices.{u16}
use go_util.Stun.Consts.{attribute_family_ipv4, attribute_family_ipv6}
use go_util.Stun.Library.{Library, UdpAddr}

pub record Host : Type 0 where
  pub family : ℕ
  pub ip : String
  pub port : ℕ

-- Whether an optional value is there (a pointer is not nil).
abbrev pub is_some {ℓ} : {A : Type ℓ} → Option A → Bool
is_some none = false
is_some (some a) = true

module _ (lib : Library) where
  host_of : UdpAddr → Host
  host_of addr = record {
    family = if is_some (lib.to4 addr.ip) then attribute_family_ipv4 else attribute_family_ipv6;
    ip = lib.ip_string addr.ip;
    port = u16 addr.port;
  }

  -- newHostFromStr: `none` is nil.
  unfoldable pub new_host_from_str : String → Option Host
  unfolding host_of
  new_host_from_str s = elim (lib.resolve_udp_addr s) [
    | none ↦ none
    | some addr ↦ some (host_of addr)
  ]

  -- Host.TransportAddr and Host.String.
  unfoldable pub transport_addr : Host → String
  transport_addr h = lib.join_host_port h.ip h.port

  -- The loop over the addresses of all interfaces.
  any_interface : List ℕ → List (Option (List ℕ)) → Bool
  any_interface remote [] = false
  any_interface remote (none ∷ addrs) = any_interface remote addrs
  any_interface remote (some ip ∷ addrs) =
      let later = any_interface remote addrs in if lib.ip_equal ip remote then true else later

  interface_fallback : List ℕ → Bool
  unfolding any_interface
  interface_fallback remote = elim lib.interface_addrs [
    | none ↦ false
    | some addrs ↦ any_interface remote addrs
  ]

  -- The address on the socket is compared if it is specified; `addr.IP != nil` is a non-empty IP.
  is_specified : List ℕ → Bool
  is_specified [] = false
  is_specified (b ∷ bs) = not (lib.is_unspecified (b ∷ bs))

  compare_local : Option UdpAddr → List ℕ → Bool
  unfolding interface_fallback is_specified
  compare_local none remote = interface_fallback remote
  compare_local (some addr) remote =
      if is_specified addr.ip then lib.ip_equal addr.ip remote else interface_fallback remote

  unfoldable pub is_local_address : String → String → Bool
  unfolding compare_local
  is_local_address local local_remote = elim (lib.resolve_udp_addr local_remote) [
    | none ↦ false
    | some remote ↦ compare_local (lib.resolve_udp_addr local) remote.ip
  ]

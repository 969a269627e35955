-- ===== src/Stun/Discover/Kinds.antt =====
-- `discover` of p2p/go-stun/stun/discover.go against each kind of NAT, as the figure above it and
-- RFC 3489 tell them apart: a server with two addresses and two ports, behind a NAT that lets some
-- of its answers through.
use Prim.Native.String.{String}
use text.Mathlib.Text.{◌==◌ as str_eq}
use text.Mathlib.TextEquality.{eq_iff}
use text.Mathlib.TextPositions.{eq_refl}
use go_util.Prelude.{
  ℕ, ◌≡◌, ◌≢◌, refl, sym, ◌==◌, ==_refl, Bool, true, false, not, ◌&&◌, ◌||◌, Option, none, some,
  if◌then◌else◌, ok, arith,
}
use go_util.Wire.Slices.{u16, IsU16}
use go_util.Stun.Consts.{
  NatType, nat_none, nat_blocked, nat_full, nat_symmetric, nat_restricted, nat_port_restricted,
  nat_symmetric_udp_firewall,
}
use go_util.Stun.Library.{Library, UdpAddr}
use go_util.Stun.Host.{Host, transport_addr}
use go_util.Stun.Response.{Response}
use go_util.Stun.Network.{Run}
use go_util.Stun.Discover.{found, discover}

-- The kinds, by what they are called in NATType.
pub data Kind : Type 0 where
  open_internet blocked full_cone symmetric restricted port_restricted udp_firewall : Kind

abbrev pub nat_of : Kind → NatType
nat_of open_internet = nat_none
nat_of blocked = nat_blocked
nat_of full_cone = nat_full
nat_of symmetric = nat_symmetric
nat_of restricted = nat_restricted
nat_of port_restricted = nat_port_restricted
nat_of udp_firewall = nat_symmetric_udp_firewall

-- Whether an answer gets through whose sender has another IP, or only another port, than the host
-- that the request went to.
abbrev passes : Kind → Bool → Bool → Bool
passes blocked change_ip change_port = false
passes open_internet change_ip change_port = true
passes full_cone change_ip change_port = true
passes restricted change_ip change_port = not change_ip
passes _ change_ip change_port = not (change_ip || change_port)

-- Whether the client's address is that of its own host.
abbrev untranslated : Kind → Bool
untranslated open_internet = true
untranslated udp_firewall = true
untranslated _ = false

-- The server's two hosts, and the client's addresses as they are seen from the two.
pub record World : Type 0 where
  pub server : UdpAddr
  pub other : UdpAddr
  pub client : Host
  pub client_of_other : Host

module _ (lib : Library) (w : World) where
  unfoldable pub host_at : UdpAddr → ℕ → Host
  host_at ip_of port = record { family = 1; ip = lib.ip_string ip_of.ip; port = u16 port }

  -- Only a symmetric NAT maps the client anew for another destination.
  mapped_to : Kind → Bool → Host
  mapped_to symmetric to_other = if to_other then w.client_of_other else w.client
  mapped_to _ to_other = w.client

  response : Kind → Bool → Bool → Bool → Response
  unfolding host_at mapped_to
  response kind to_other change_ip change_port = record {
    packet = none;
    server_addr = some (
        host_at
          (if to_other
            then (if change_ip then w.server else w.other)
            else (if change_ip then w.other else w.server))
          (if to_other
            then (if change_port then w.server.port else w.other.port)
            else (if change_port then w.other.port else w.server.port)));
    changed_addr = some (host_at w.other w.other.port);
    mapped_addr = some (mapped_to kind to_other);
    other_addr = none;
    identical = untranslated kind;
  }

  -- The answer to a request that went to the first or to the other host.
  answered : Kind → Bool → Bool → Bool → Option Response
  unfolding response
  answered kind to_other change_ip change_port =
      if passes kind change_ip change_port
      then some (response kind to_other change_ip change_port)
      else none

  -- A request goes to the other host if its address says so.
  pub request : Kind → Option UdpAddr → Bool → Bool → Run (Unit {0}) (Option Response)
  unfolding answered
  request kind none change_ip change_port s = (ok none, s)
  request kind (some addr) change_ip change_port s =
      (ok (answered kind (addr.port == w.other.port) change_ip change_port), s)

  abbrev pub host_found : Kind → Option Host
  host_found blocked = none
  host_found _ = some w.client

  -- What it takes to tell the two hosts and mappings apart.
  pub record IsWorld : Type 0 where
    pub ports_fit : IsU16 w.server.port × IsU16 w.other.port
    pub ports_differ : w.server.port ≢ w.other.port
    pub ips_differ : lib.ip_string w.server.ip ≢ lib.ip_string w.other.ip
    pub remapped : w.client.port ≢ w.client_of_other.port
    pub resolves :
        lib.resolve_udp_addr (transport_addr lib (host_at w.other w.other.port)) ≡ some w.other

  str_ne : (s t : String) → s ≢ t → str_eq s t ≡ false
  str_ne s t h = ground (arith, eq_iff s t)

  and_false : (b : Bool) → (b && false) ≡ false
  and_false true = refl
  and_false false = refl

  num_ne : (a b : ℕ) → a ≢ b → (a == b) ≡ false
  num_ne a b h = ground arith

  -- The tests that come up.
  record Tests : Type 0 where
    server_ip : str_eq (lib.ip_string w.server.ip) (lib.ip_string w.server.ip) ≡ true
    other_ip : str_eq (lib.ip_string w.other.ip) (lib.ip_string w.other.ip) ≡ true
    ips : str_eq (lib.ip_string w.other.ip) (lib.ip_string w.server.ip) ≡ false
    server_port : (u16 w.server.port == u16 w.server.port) ≡ true
    other_port : (u16 w.other.port == u16 w.other.port) ≡ true
    ports : (u16 w.other.port == u16 w.server.port) ≡ false
    ports' : (u16 w.server.port == u16 w.other.port) ≡ false
    to_server : (w.server.port == w.other.port) ≡ false
    to_other : (w.other.port == w.other.port) ≡ true
    client_ip : str_eq w.client.ip w.client.ip ≡ true
    client_port : (w.client.port == w.client.port) ≡ true
    remapped_port : (w.client.port == w.client_of_other.port) ≡ false

  tests_hold : IsWorld → Tests
  tests_hold h = record {
    server_ip = eq_refl _;
    other_ip = eq_refl _;
    ips = str_ne _ _ (λ e. h.ips_differ (sym e));
    server_port = ==_refl _;
    other_port = ==_refl _;
    ports = num_ne _ _ (λ e. h.ports_differ (omega arith));
    ports' = num_ne _ _ (λ e. h.ports_differ (omega arith));
    to_server = num_ne _ _ h.ports_differ;
    to_other = ==_refl _;
    client_ip = eq_refl _;
    client_port = ==_refl _;
    remapped_port = num_ne _ _ h.remapped;
  }

  -- `discover` finds every kind of NAT out, and reports the client's address as the server sees it.
  pub discover-kind :
      (kind : Kind)
      → IsWorld
      → discover lib (request kind) w.server tt ≡ (ok (found (nat_of kind) (host_found kind)), tt)
  unfolding discover request
  discover-kind blocked h = refl
  discover-kind open_internet h =
      let t : Tests = tests_hold h in simp (t.server_ip, t.to_server, t.server_port, t.ips, t.ports)
  discover-kind full_cone h =
      let t : Tests = tests_hold h in simp (t.server_ip, t.to_server, t.server_port, t.ips, t.ports)
  discover-kind symmetric h =
      let t : Tests = tests_hold h in
      simp (
        t.server_ip, t.to_server, t.server_port, h.resolves, t.to_other, t.other_ip, t.other_port,
        t.remapped_port, and_false,
      )
  discover-kind restricted h =
      let t : Tests = tests_hold h in
      simp (
        t.server_ip, t.to_server, t.server_port, h.resolves, t.to_other, t.other_ip, t.other_port,
        t.ports', t.client_ip, t.client_port,
      )
  discover-kind port_restricted h =
      let t : Tests = tests_hold h in
      simp (
        t.server_ip, t.to_server, t.server_port, h.resolves, t.to_other, t.other_ip, t.other_port,
        t.client_ip, t.client_port,
      )
  discover-kind udp_firewall h =
      let t : Tests = tests_hold h in simp (t.server_ip, t.to_server, t.server_port)

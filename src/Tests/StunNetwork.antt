-- ===== src/Tests/StunNetwork.antt =====
-- p2p/go-stun/stun: sending, and the discovery of the NAT's type.
use text.Mathlib.Text.{◌==◌ as str_eq}
use text.Mathlib.TextEquality.{eq_iff}
use go_util.Prelude.{
  ℕ, ◌≤◌, ◌≡◌, ◌≢◌, refl, ◌⊎◌, some, true, false, none, [], ◌∷◌, ◌++◌, map, length, take, replicate,
  ok, arith, if◌then◌else◌, ◌==◌,
}
use go_util.Wire.Slices.{full}
use go_util.Stun.Library.{Library, UdpAddr}
use go_util.Stun.Host.{transport_addr}
use go_util.Stun.Packet.{Packet, attributes_bytes, bytes, new_fingerprint_attribute}
use go_util.Stun.Packet.Shape.{IsPacket}
use go_util.Stun.Network.{Net, datagram, timed_out}
use go_util.Stun.Send.{binding_request, send}
use go_util.Stun.Send.Requests.{binding_request-IsPacket, binding_request_fingerprint}
use go_util.Stun.Send.Schedule.{send_schedule}
use go_util.Stun.Send.Answers.{IsAnswer, send-IsAnswer}
use go_util.Stun.Discover.{found, discover}
use go_util.Stun.Discover.Verdicts.{IsConsistent, discover-IsConsistent}
use go_util.Stun.Discover.Kinds.{
  Kind, World, IsWorld, host_at, request, host_found, nat_of, discover-kind,
}

abbrev server_at : UdpAddr
server_at = record { ip = 1 ∷ []; port = 3478 }

abbrev other_at : UdpAddr
other_at = record { ip = 2 ∷ []; port = 3479 }

-- A library that knows the server's two hosts.
abbrev lib : Library
lib = record {
  ip_string = λ ip. elim ip [ [] ↦ "" | b ∷ _ ↦ if b == 1 then "1.1.1.1" else "2.2.2.2" ];
  to4 = λ ip. some ip;
  ip_equal = λ a b. false;
  is_unspecified = λ ip. false;
  resolve_udp_addr = λ s. if str_eq s "2.2.2.2" then some other_at else none;
  join_host_port = λ host port. host;
  interface_addrs = none;
  checksum_ieee = length;
}

abbrev world : World
world = record {
  server = server_at;
  other = other_at;
  client = record { family = 1; ip = "5.5.5.5"; port = 1000 };
  client_of_other = record { family = 1; ip = "5.5.5.5"; port = 1001 };
}

world-IsWorld : IsWorld lib world
unfolding host_at transport_addr
world-IsWorld = record {
  ports_fit = omega arith;
  ports_differ = omega arith;
  ips_differ = ground (arith, eq_iff "1.1.1.1" "2.2.2.2");
  remapped = omega arith;
  resolves = refl;
}

discover-kind_example :
    discover lib (request lib world Kind.restricted) server_at tt
    ≡ (ok (found (nat_of Kind.restricted) (host_found lib world Kind.restricted)), tt)
discover-kind_example = discover-kind lib world Kind.restricted world-IsWorld

discover-IsConsistent_example :
    IsConsistent (discover lib (request lib world Kind.symmetric) server_at tt).0
discover-IsConsistent_example =
    discover-IsConsistent lib (request lib world Kind.symmetric) server_at tt

abbrev fresh : Packet
fresh = record { types = 0; size = 0; trans_id = replicate 16 7; attributes = [] }

fresh-IsPacket : IsPacket fresh
unfolding attributes_bytes
fresh-IsPacket = record {
  types_fit = omega arith;
  size_fits = omega arith;
  trans_id_full = refl;
  size_exact = refl;
  attributes_ok = tt;
}

binding_request-IsPacket_example : IsPacket (binding_request lib (1 ∷ 2 ∷ 3 ∷ []) true true fresh)
binding_request-IsPacket_example =
    binding_request-IsPacket lib (1 ∷ 2 ∷ 3 ∷ []) true true fresh fresh-IsPacket (omega arith)

binding_request_fingerprint_example :
    let r = binding_request lib (1 ∷ 2 ∷ 3 ∷ []) true true fresh in
    (covered : Packet) × (r.attributes
      ≡ covered.attributes ++ (new_fingerprint_attribute lib covered ∷ []))
    × (covered.types ≡ r.types)
    × (covered.trans_id ≡ r.trans_id)
    × (covered.size ≡ r.size)
binding_request_fingerprint_example =
    binding_request_fingerprint lib (1 ∷ 2 ∷ 3 ∷ []) true true fresh fresh-IsPacket (omega arith)

-- A connection that brings a datagram that is too short, and then nothing.
abbrev net : Net
net = record {
  local_addr = "5.5.5.5";
  randoms = [];
  writes = [];
  deadlines = [];
  reads = timed_out ∷ datagram (full (replicate 10 0)) "1.1.1.1" ∷ [];
  sent = [];
}

send_schedule_example :
    let r = send lib fresh (some server_at) net in
    (k : ℕ) × (k ≤ 9)
    × (r.1.sent
        ≡ []
          ++ map
              (λ t. record { content = bytes fresh; addr = some server_at; timeout = t })
              (take k (100 ∷ 200 ∷ 400 ∷ 800 ∷ 1600 ∷ 1600 ∷ 1600 ∷ 1600 ∷ 1600 ∷ [])))
    × ((k ≡ 9) ⊎ (r.0 ≢ ok none))
send_schedule_example = send_schedule lib fresh (some server_at) net

send-IsAnswer_example : IsAnswer (replicate 16 7) (send lib fresh (some server_at) net).0
send-IsAnswer_example = send-IsAnswer lib fresh (some server_at) net (omega arith)

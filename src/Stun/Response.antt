-- ===== src/Stun/Response.antt =====
-- newResponse of p2p/go-stun/stun/response.go.
pub mod Laws
use Prim.Native.String.{String}
use go_util.Prelude.{Bool, true, false, Option, none, some, ok, ◌>>=◌}
use go_util.Stun.Library.{Library, Go}
use go_util.Stun.Host.{Host, new_host_from_str, transport_addr, is_local_address}
use go_util.Stun.Packet.{
  Packet, get_xor_mapped_addr, get_mapped_addr, get_changed_addr, get_other_addr,
}

-- A nil pointer is `none`.
pub record Response : Type 0 where
  pub packet : Option Packet
  pub server_addr : Option Host
  pub changed_addr : Option Host
  pub mapped_addr : Option Host
  pub other_addr : Option Host
  pub identical : Bool

abbrev empty : Option Packet → Response
empty pkt = record {
  packet = pkt;
  server_addr = none;
  changed_addr = none;
  mapped_addr = none;
  other_addr = none;
  identical = false;
}

module _ (lib : Library) where
  -- The plain mapped address where there is no masked one.
  mapped_or : Option Host → Packet → Go (Option Host)
  mapped_or none pkt = get_mapped_addr lib pkt
  mapped_or (some addr) pkt = ok (some addr)

  is_identical : String → Option Host → Bool
  is_identical local none = false
  is_identical local (some addr) = is_local_address lib local (transport_addr lib addr)

  -- newHostFromStr(addr.String()), unless `addr` is nil.
  resolved : Option Host → Option Host
  resolved none = none
  resolved (some addr) = new_host_from_str lib (transport_addr lib addr)

  -- The connection is used for its local address only.
  unfoldable pub new_response : Option Packet → String → Go Response
  unfolding mapped_or is_identical resolved
  new_response none local = ok (empty none)
  new_response (some pkt) local = do
    xor_mapped ← get_xor_mapped_addr lib pkt
    mapped ← mapped_or xor_mapped pkt
    changed ← get_changed_addr lib pkt
    other ← get_other_addr lib pkt
    ok (record {
      packet = some pkt;
      server_addr = none;
      changed_addr = resolved changed;
      mapped_addr = mapped;
      other_addr = resolved other;
      identical = is_identical local mapped;
    })

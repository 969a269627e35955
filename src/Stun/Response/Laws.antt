-- ===== src/Stun/Response/Laws.antt =====
-- newResponse ends, and keeps the packet that it was given.
use Prim.Native.String.{String}
use go_util.Prelude.{◌≡◌, Option, none, some, ok, >>=-continues}
use go_util.Stun.Ends.{Ends, Ends-ok, Ends-bind}
use go_util.Stun.Library.{Library}
use go_util.Stun.Host.{Host}
use go_util.Stun.Packet.{
  Packet, get_xor_mapped_addr, get_mapped_addr, get_changed_addr, get_other_addr,
}
use go_util.Stun.Packet.Termination.{get_raw_addr-Ends, get_xor_mapped_addr-Ends}
use go_util.Stun.Response.{Response, mapped_or, new_response}

module _ (lib : Library) where
  mapped_or-Ends : (o : Option Host) (pkt : Packet) → Ends (mapped_or lib o pkt)
  unfolding mapped_or get_mapped_addr
  mapped_or-Ends none pkt = get_raw_addr-Ends lib pkt _
  mapped_or-Ends (some addr) pkt = Ends-ok _

  pub new_response-Ends : (pkt : Packet) (local : String) → Ends (new_response lib (some pkt) local)
  unfolding new_response get_changed_addr get_other_addr
  new_response-Ends pkt local =
      Ends-bind (get_xor_mapped_addr lib pkt) (get_xor_mapped_addr-Ends lib pkt) λ xor_mapped.
        Ends-bind (mapped_or lib xor_mapped pkt) (mapped_or-Ends xor_mapped pkt) λ mapped.
          Ends-bind (get_changed_addr lib pkt) (get_raw_addr-Ends lib pkt _) λ changed.
            Ends-bind (get_other_addr lib pkt) (get_raw_addr-Ends lib pkt _) λ other. Ends-ok _

  pub new_response-packet :
      (pkt : Packet) (local : String) (resp : Response)
      → new_response lib (some pkt) local ≡ ok resp
      → resp.packet ≡ some pkt
  unfolding new_response
  new_response-packet pkt local resp e =
      let (xor_mapped, e1) = >>=-continues _ _ (get_xor_mapped_addr lib pkt) e in
      let (mapped, e2) = >>=-continues _ _ (mapped_or lib xor_mapped pkt) e1 in
      let (changed, e3) = >>=-continues _ _ (get_changed_addr lib pkt) e2 in
      let (other, e4) = >>=-continues _ _ (get_other_addr lib pkt) e3 in cc e4

-- ===== src/Stun/Packet/RoundTrip.antt =====
-- Parsing what `bytes` wrote (p2p/go-stun/stun/packet.go).
use go_util.Prelude.{
  ℕ, ◌+◌, ◌≤◌, ◌≡◌, ap, ◌∙◌, List, [], ◌++◌, map, some, length, append_assoc, sym, ok, arith,
  le→ltb_false,
}
use go_util.Wire.Slices.{u16, Slice, array, put_uint16, reslice, reslice_at}
use go_util.Stun.Attribute.{uint16_at}
use go_util.Stun.Packet.{Packet, attributes_bytes, bytes}
use go_util.Stun.Packet.Parse.{parse_loop, new_packet_from_bytes}
use go_util.Stun.Packet.Shape.{IsPacket, length-bytes, length-le-attributes_bytes}
use go_util.Stun.Attribute.Cuts.{uint16_at_front}
use go_util.Stun.Packet.Loop.{wire, Finds, loop_reads}

-- Two packets that agree but for the length field.
pub record Reads (v q : Packet) : Type 0 where
  pub same_types : q.types ≡ v.types
  pub same_trans_id : q.trans_id ≡ v.trans_id
  pub same_attributes : map wire q.attributes ≡ map wire v.attributes

module _ (v : Packet) (spare : List ℕ) (h : IsPacket v) (some_attribute : 4 ≤ v.size) where
  datagram : Slice
  datagram = record { content = bytes v; spare = spare }

  header : Packet
  header = record { types = v.types; size = v.size; trans_id = v.trans_id; attributes = [] }

  front : List ℕ
  front = put_uint16 v.types ++ (put_uint16 v.size ++ v.trans_id)

  length-front : length front ≡ 20
  unfolding front
  length-front = omega (arith, h.trans_id_full)

  body : array datagram ≡ front ++ (attributes_bytes v.attributes ++ spare)
  unfolding datagram front bytes
  body = simp append_assoc

  types_read : uint16_at datagram 0 2 ≡ ok v.types
  unfolding datagram bytes
  types_read =
      uint16_at_front datagram 0 2 v.types []
        (put_uint16 v.size ++ (v.trans_id ++ (attributes_bytes v.attributes ++ spare)))
        (simp append_assoc) (omega arith) (omega arith) h.types_fit

  size_read : uint16_at datagram 2 4 ≡ ok v.size
  unfolding datagram bytes
  size_read =
      uint16_at_front datagram 2 4 v.size (put_uint16 v.types)
        (v.trans_id ++ (attributes_bytes v.attributes ++ spare)) (simp append_assoc) (omega arith)
        (omega arith) h.size_fits

  trans_id_read :
      reslice datagram 4 20
      ≡ some (record { content = v.trans_id; spare = attributes_bytes v.attributes ++ spare })
  unfolding datagram bytes
  trans_id_read =
      reslice_at datagram 4 20 (put_uint16 v.types ++ put_uint16 v.size) v.trans_id
        (attributes_bytes v.attributes ++ spare) (simp append_assoc) (omega arith)
        (omega (arith, h.trans_id_full))

  -- `newPacketFromBytes` reads back what `bytes` wrote, whatever lies behind it in the buffer: the
  -- same type, transaction id and attributes. The length field comes out doubled, since the header's
  -- value is kept and every attribute is added to it once more.
  pub new_packet_from_bytes-bytes :
      v.size ≤ 65512
      → (q : Packet) × (new_packet_from_bytes (record { content = bytes v; spare = spare }) ≡ ok q)
        × Reads v q
        × (q.size ≡ u16 (v.size + v.size))
  unfolding header datagram
  new_packet_from_bytes-bytes small = (
    found.result,
    whole,
    reads,
    found.size_sum ∙ ap (λ (t : ℕ). u16 (v.size + t)) (sym h.size_exact),
  )
    where
      total : length (bytes v) ≡ 20 + v.size
      total = length-bytes v h

      found : Finds (parse_loop (length (bytes v)) datagram 20 header) header v.attributes
      found = rw length-front at (
          loop_reads datagram spare (omega (arith, total)) v.attributes (length (bytes v)) front
            header h.attributes_ok body (omega (arith, total, length-front, h.size_exact))
            (omega (arith, length-le-attributes_bytes v.attributes, total, h.size_exact))
            h.size_fits)

      whole : new_packet_from_bytes datagram ≡ ok found.result
      whole =
          unfold new_packet_from_bytes in
          rw
            (
              le→ltb_false (length (bytes v)) 24 (omega (arith, total)),
              types_read,
              size_read,
              trans_id_read,
            )
            found.run

      reads : Reads v found.result
      reads = record {
        same_types = found.types_kept;
        same_trans_id = found.trans_id_kept;
        same_attributes = found.found;
      }

-- ===== src/Stun/Packet/Parse.antt =====
-- newPacketFromBytes of p2p/go-stun/stun/packet.go.
-- The argument is a slice of a larger buffer: indices are checked against the whole array. A value
-- is padded in place, over bytes that the loop skips, so the array is read as it was.
use go_util.Prelude.{
  ℕ, zero, suc, ◌+◌, ltb, [], length, if◌then◌else◌, ok, err, stuck, ◌>>=◌, or_panic,
}
use go_util.Wire.Slices.{u16, Slice, reslice}
use go_util.Stun.Library.{Go, too_short, format_mismatch}
use go_util.Stun.Align.{align}
use go_util.Stun.Attribute.{new_attribute, uint16_at}
use go_util.Stun.Packet.{Packet, add_attribute}

-- The loop: `pos` is a uint16, and so is every sum that it is part of.
unfoldable pub parse_loop : ℕ → Slice → ℕ → Packet → Go Packet
parse_loop zero packet_bytes pos pkt = stuck
parse_loop (suc fuel) packet_bytes pos pkt =
    let n = u16 (length packet_bytes.content) in
    let round : Go Packet = do
      types ← uint16_at packet_bytes pos (u16 (pos + 2))
      size ← uint16_at packet_bytes (u16 (pos + 2)) (u16 (pos + 4))
      let stop = u16 (pos + 4 + size)
      let next : Go Packet = do
        value ← or_panic (reslice packet_bytes (u16 (pos + 4)) stop)
        parse_loop fuel packet_bytes (u16 (pos + u16 (align size + 4)))
            (add_attribute pkt (new_attribute types value))
      if ltb n stop then err format_mismatch else next
    in if ltb pos n then round else ok pkt

-- A round takes four bytes at least, so a datagram of n bytes is read in n rounds.
unfoldable pub new_packet_from_bytes : Slice → Go Packet
unfolding parse_loop
new_packet_from_bytes packet_bytes =
    let parse : Go Packet = do
      types ← uint16_at packet_bytes 0 2
      size ← uint16_at packet_bytes 2 4
      trans_id ← or_panic (reslice packet_bytes 4 20)
      parse_loop (length packet_bytes.content) packet_bytes 20
          (record { types = types; size = size; trans_id = trans_id.content; attributes = [] })
    in if ltb (length packet_bytes.content) 24 then err too_short else parse

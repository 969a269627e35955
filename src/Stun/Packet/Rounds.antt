-- ===== src/Stun/Packet/Rounds.antt =====
-- One round of the loop of newPacketFromBytes.
use go_util.Prelude.{
  ℕ, suc, ◌+◌, ◌≤◌, ◌≡◌, some, List, ◌++◌, length, length-append, append_assoc, lt→ltb,
  le→ltb_false, ok, arith, ltb, true, false,
}
use go_util.Wire.Slices.{u16, IsU16, Slice, array, put_uint16, reslice, reslice_at}
use go_util.Stun.Align.{align}
use go_util.Stun.Attribute.{new_attribute, uint16_at}
use go_util.Stun.Attribute.Cuts.{uint16_at_front}
use go_util.Stun.Packet.{Packet, add_attribute}
use go_util.Stun.Packet.Parse.{parse_loop}

-- A round that meets an attribute with its value inside the datagram adds that attribute.
pub parse_round :
    (fuel : ℕ) (s : Slice) (front value back : List ℕ) (types size : ℕ) (pkt : Packet)
    → array s ≡ front ++ (put_uint16 types ++ (put_uint16 size ++ (value ++ back)))
    → IsU16 types
    → size ≡ length value
    → length front + 4 + size ≤ length s.content
    → length s.content ≤ 65532
    → parse_loop (suc fuel) s (length front) pkt
      ≡ parse_loop fuel s
          (u16 (length front + u16 (align size + 4)))
          (add_attribute pkt (new_attribute types (record { content = value; spare = back })))
unfolding parse_loop
parse_round fuel s front value back types size pkt e ht hs fits small =
    rw (inside, first, second, no_stop, third)
  where
    p : ℕ
    p = length front

    inside : ltb p (u16 (length s.content)) ≡ true
    inside = lt→ltb p _ (omega arith)

    first : uint16_at s p (u16 (p + 2)) ≡ ok types
    first = uint16_at_front s p _ types front _ e (omega arith) (omega arith) ht

    tail_at : array s ≡ (front ++ put_uint16 types) ++ (put_uint16 size ++ (value ++ back))
    tail_at = rw append_assoc e

    second : uint16_at s (u16 (p + 2)) (u16 (p + 4)) ≡ ok size
    second =
        uint16_at_front s _ _ size (front ++ put_uint16 types) (value ++ back) tail_at
          (omega (arith, length-append front (put_uint16 types))) (omega arith) (omega arith)

    no_stop : ltb (u16 (length s.content)) (u16 (p + 4 + size)) ≡ false
    no_stop = le→ltb_false (u16 (length s.content)) _ (omega arith)

    head : List ℕ
    head = front ++ (put_uint16 types ++ put_uint16 size)

    value_at : array s ≡ head ++ (value ++ back)
    value_at = rw (append_assoc, append_assoc) e

    third :
        reslice s (u16 (p + 4)) (u16 (p + 4 + size))
        ≡ some (record { content = value; spare = back })
    third =
        reslice_at s _ _ head value back value_at
          (omega (arith, length-append front (put_uint16 types ++ put_uint16 size))) (omega arith)

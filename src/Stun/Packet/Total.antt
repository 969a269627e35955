-- ===== src/Stun/Packet/Total.antt =====
-- newPacketFromBytes on any datagram, well formed or not (p2p/go-stun/stun/packet.go).
use go_util.Prelude.{
  ℕ, zero, suc, ◌+◌, ◌-◌, ◌%◌, ◌≤◌, ◌<◌, ◌≡◌, refl, All, All-append, [], ◌⊎◌, inl, inr, none, some,
  List, ok, err, panic, stuck, Option-cases, Bool-cases, ltb, lt→ltb, le→ltb_false, ◌++◌,
  append_assoc, length-append, ltb→lt, ltb_false→le, true, false, length, arith,
}
use go_util.Stun.Attribute.Cuts.{uint16_at_front}
use go_util.Wire.Slices.{
  u16, IsU16, Slice, array, put_uint16, reslice_backwards, reslice, length-reslice, be_uint16,
}
use go_util.Stun.Library.{Go, too_short, format_mismatch}
use go_util.Stun.Align.{align}
use go_util.Stun.Align.Laws.{align_arith, padding_aligned, length-padding}
use go_util.Stun.Attribute.{Attribute, new_attribute, uint16_at}
use go_util.Stun.Packet.{Packet, add_attribute}
use go_util.Stun.Packet.Parse.{parse_loop, new_packet_from_bytes}

uint16_at_cases :
    (s : Slice) (lo hi : ℕ) → ((n : ℕ) × (uint16_at s lo hi ≡ ok n)) ⊎ (uint16_at s lo hi ≡ panic)
unfolding uint16_at
uint16_at_cases s lo hi = elim (Option-cases (reslice s lo hi)) [
  | inl e ↦ inr (rw e)
  | inr (t, e) ↦ elim (Option-cases (be_uint16 t.content)) [
    | inl f ↦ inr (rw (e, f))
    | inr (n, f) ↦ inl (n, rw (e, f))
  ]
]

next_position :
    (n pos size : ℕ)
    → n ≤ 65532
    → pos < n
    → u16 (pos + 4 + size) ≤ n
    → u16 (pos + 4) ≤ u16 (pos + 4 + size)
    → (pos + 4 ≤ u16 (pos + u16 (align size + 4))) × (u16 (pos + u16 (align size + 4)) ≤ n + 3)
next_position n pos size hn hp stop start = omega (arith, align_arith size)

-- A property of all ways in which a round can end holds of the loop.
pub parse_loop_cases {ℓ} :
    (P : Go Packet → Type ℓ) (fuel : ℕ) (s : Slice) (pos : ℕ) (pkt : Packet)
    → P (ok pkt)
    → P panic
    → P (err format_mismatch)
    → ((types size : ℕ) (value : Slice)
        → pos < u16 (length s.content)
        → u16 (pos + 4 + size) ≤ u16 (length s.content)
        → reslice s (u16 (pos + 4)) (u16 (pos + 4 + size)) ≡ some value
        → P (
            parse_loop fuel s
              (u16 (pos + u16 (align size + 4)))
              (add_attribute pkt (new_attribute types value))))
    → P (parse_loop (suc fuel) s pos pkt)
unfolding parse_loop
parse_loop_cases P fuel s pos pkt finished panics refused more =
    elim (Bool-cases (ltb pos (u16 (length s.content)))) [
      | inr done ↦ rw done finished
      | inl inside ↦ rw inside (elim (uint16_at_cases s pos (u16 (pos + 2))) [
        | inr e ↦ rw e panics
        | inl (types, e) ↦ rw e (elim (uint16_at_cases s (u16 (pos + 2)) (u16 (pos + 4))) [
          | inr f ↦ rw f panics
          | inl (size, f) ↦
              rw f (elim (Bool-cases (ltb (u16 (length s.content)) (u16 (pos + 4 + size)))) [
                | inl over ↦ rw over refused
                | inr within ↦
                    rw within
                      (elim (Option-cases (reslice s (u16 (pos + 4)) (u16 (pos + 4 + size)))) [
                        | inl g ↦ rw g panics
                        | inr (value, g) ↦
                            rw g (
                              more types size value (ltb→lt _ _ inside) (ltb_false→le _ _ within) g)
                      ])
              ])
        ])
      ])
    ]

-- The same for the whole function.
pub new_packet_from_bytes_cases {ℓ} :
    (P : Go Packet → Type ℓ) (s : Slice)
    → P panic
    → (length s.content < 24 → P (err too_short))
    → ((types size : ℕ) (trans_id : Slice)
        → 24 ≤ length s.content
        → reslice s 4 20 ≡ some trans_id
        → P (
            parse_loop (length s.content) s 20 (record {
              types = types;
              size = size;
              trans_id = trans_id.content;
              attributes = [];
            })))
    → P (new_packet_from_bytes s)
unfolding new_packet_from_bytes
new_packet_from_bytes_cases P s panics refused more =
    elim (Bool-cases (ltb (length s.content) 24)) [
      | inl small ↦ rw small (refused (ltb→lt _ _ small))
      | inr large ↦ rw large (elim (uint16_at_cases s 0 2) [
        | inr e ↦ rw e panics
        | inl (types, e) ↦ rw e (elim (uint16_at_cases s 2 4) [
          | inr f ↦ rw f panics
          | inl (size, f) ↦ rw f (elim (Option-cases (reslice s 4 20)) [
            | inl g ↦ rw g panics
            | inr (t, g) ↦ rw g (more types size t (ltb_false→le _ _ large) g)
          ])
        ])
      ])
    ]

-- An attribute whose length field is that of its value, a multiple of 4.
pub record IsAligned (a : Attribute) : Type 0 where
  pub size_exact : length a.value.content ≡ a.size
  pub size_aligned : a.size % 4 ≡ 0

new_attribute-IsAligned :
    (types : ℕ) (value : Slice)
    → length value.content ≤ 65532
    → IsAligned (new_attribute types value)
unfolding new_attribute
new_attribute-IsAligned types value small = record {
  size_exact =
      omega (arith, length-padding value, (padding_aligned value).1, (padding_aligned value).3);
  size_aligned = omega (arith, length-padding value, (padding_aligned value).3);
}

-- What `newPacketFromBytes` may come to: a packet with a whole transaction id and padded
-- attributes, one of its two errors, or a panic; never an endless loop.
abbrev pub IsParsed : Go Packet → Type 0
IsParsed (ok q) = (length q.trans_id ≡ 16) × All IsAligned q.attributes
IsParsed (err e) = (e ≡ too_short) ⊎ (e ≡ format_mismatch)
IsParsed panic = Unit
IsParsed stuck = ⊥

parse_loop-IsParsed :
    (fuel : ℕ) (s : Slice) (pos : ℕ) (pkt : Packet)
    → length s.content ≤ 65532
    → length s.content - pos < fuel
    → length pkt.trans_id ≡ 16
    → All IsAligned pkt.attributes
    → IsParsed (parse_loop fuel s pos pkt)
parse_loop-IsParsed zero s pos pkt small enough id as' = absurd (omega arith)
parse_loop-IsParsed (suc fuel) s pos pkt small enough id as' =
    parse_loop_cases IsParsed fuel s pos pkt (id, as') tt (inr refl)
      λ types size value inside stop cut.
        parse_loop-IsParsed fuel s _ (add_attribute pkt (new_attribute types value)) small
          (omega (
            arith,
            next_position (length s.content) pos size small,
            length-reslice s value (u16 (pos + 4)) (u16 (pos + 4 + size)) cut,
          ))
          (unfold add_attribute in id)
          (unfold add_attribute in
            All-append IsAligned pkt.attributes _ as' (
              new_attribute-IsAligned types value (
                  omega (arith, length-reslice s value (u16 (pos + 4)) (u16 (pos + 4 + size)) cut)),
              tt,
            ))

-- On a datagram of at most 65532 bytes `newPacketFromBytes` ends, as `IsParsed` says.
pub new_packet_from_bytes-IsParsed :
    (s : Slice) → length s.content ≤ 65532 → IsParsed (new_packet_from_bytes s)
new_packet_from_bytes-IsParsed s small =
    new_packet_from_bytes_cases IsParsed s tt (λ short. inl refl)
      λ types size trans_id large cut.
        parse_loop-IsParsed _ s 20 _ small (omega arith)
          (omega (arith, length-reslice s trans_id 4 20 cut)) tt

parse_loop_wraps :
    (fuel : ℕ) (s : Slice) (header back : List ℕ) (types size : ℕ) (pkt : Packet)
    → array s ≡ header ++ (put_uint16 types ++ (put_uint16 size ++ back))
    → length header ≡ 20
    → 24 ≤ length s.content
    → length s.content ≤ 65532
    → IsU16 types
    → 65512 ≤ size
    → IsU16 size
    → parse_loop (suc fuel) s 20 pkt ≡ panic
unfolding parse_loop
parse_loop_wraps fuel s header back types size pkt e eh large small ht wraps hs =
    rw (inside, first, second, passes, backwards)
  where
    inside : ltb 20 (u16 (length s.content)) ≡ true
    inside = lt→ltb 20 _ (omega arith)

    first : uint16_at s 20 22 ≡ ok types
    first = uint16_at_front s 20 22 types header _ e (omega arith) (omega arith) ht

    second : uint16_at s 22 24 ≡ ok size
    second =
        uint16_at_front s 22 24 size (header ++ put_uint16 types) back (rw append_assoc e)
          (omega (arith, length-append header (put_uint16 types))) (omega arith) hs

    passes : ltb (u16 (length s.content)) (u16 (20 + 4 + size)) ≡ false
    passes = le→ltb_false _ _ (omega arith)

    backwards : reslice s 24 (u16 (20 + 4 + size)) ≡ none
    backwards = reslice_backwards s 24 _ (omega arith)

-- A datagram whose first attribute claims 65512 bytes or more makes the sum that is tested against
-- the length wrap, so it passes the test and the value is cut backwards: `newPacketFromBytes` panics.
pub new_packet_from_bytes_panics :
    (s : Slice) (header back : List ℕ) (types size : ℕ)
    → array s ≡ header ++ (put_uint16 types ++ (put_uint16 size ++ back))
    → length header ≡ 20
    → 24 ≤ length s.content
    → length s.content ≤ 65532
    → IsU16 types
    → 65512 ≤ size
    → IsU16 size
    → new_packet_from_bytes s ≡ panic
new_packet_from_bytes_panics s header back types size e eh large small ht wraps hs =
    new_packet_from_bytes_cases (λ r. r ≡ panic) s refl (λ short. absurd (omega arith))
      λ t l trans_id _ _. rw one_more (
        parse_loop_wraps (length s.content - 1) s header back types size _ e eh large small ht wraps
          hs)
  where
    one_more : length s.content ≡ suc (length s.content - 1)
    one_more = omega arith

-- ===== src/Stun/Packet/Loop.antt =====
-- The loop of newPacketFromBytes on the attributes that `bytes` wrote (p2p/go-stun/stun/packet.go).
use go_util.Prelude.{
  ℕ, zero, suc, ◌+◌, ◌≤◌, ◌<◌, ◌≡◌, refl, ap, ◌∙◌, List, [], ◌∷◌, ◌++◌, map, length, length-append,
  append_assoc, append-nil, sym, All, ok, arith, le→ltb_false,
}
use mathlib.Core.List.{map-append}
use go_util.Stun.Library.{Go}
use go_util.Wire.Slices.{u16, Slice, array, put_uint16}
use go_util.Stun.Align.{align}
use go_util.Stun.Align.Laws.{align-eq_self, padding_of_aligned}
use go_util.Stun.Attribute.{Attribute, new_attribute}
use go_util.Stun.Packet.{Packet, add_attribute, attribute_bytes, attributes_bytes}
use go_util.Stun.Packet.Parse.{parse_loop}
use go_util.Stun.Attribute.Shape.{IsAttribute}
use go_util.Stun.Packet.Shape.{length-attribute_bytes}
use go_util.Stun.Packet.Rounds.{parse_round}

-- What an attribute says on the wire: its type, its length and its value.
abbrev pub wire : Attribute → ℕ × ℕ × List ℕ
wire a = (a.types, a.size, a.value.content)

-- An attribute cut out of the datagram says what the one that was written did.
reread :
    (a : Attribute) (back : List ℕ)
    → IsAttribute a
    → wire (new_attribute a.types (record { content = a.value.content; spare = back })) ≡ wire a
unfolding new_attribute
reread a back h =
    rw
      (padding_of_aligned (record { content = a.value.content; spare = back }) (omega arith)
        (omega arith))
      (cc (exact))
  where
    exact : u16 (length a.value.content) ≡ a.size
    exact = omega arith

-- A run of the loop from `pkt` that finds the attributes `as'`.
pub record Finds (r : Go Packet) (pkt : Packet) (as' : List Attribute) : Type 0 where
  pub result : Packet
  pub run : r ≡ ok result
  pub types_kept : result.types ≡ pkt.types
  pub trans_id_kept : result.trans_id ≡ pkt.trans_id
  pub found : map wire result.attributes ≡ map wire pkt.attributes ++ map wire as'
  pub size_sum : result.size ≡ u16 (pkt.size + length (attributes_bytes as'))

Finds-cons :
    (r : Go Packet) (pkt : Packet) (a cut : Attribute) (as' : List Attribute)
    → IsAttribute a
    → wire cut ≡ wire a
    → Finds r (add_attribute pkt cut) as'
    → Finds r pkt (a ∷ as')
unfolding add_attribute attributes_bytes
Finds-cons r pkt a cut as' h e later = record {
  result = later.result;
  run = later.run;
  types_kept = later.types_kept;
  trans_id_kept = later.trans_id_kept;
  found = later.found ∙ simp (map-append, append_assoc, e);
  size_sum =
      later.size_sum
      ∙ omega (
        arith,
        ap (λ (t : ℕ × ℕ × List ℕ). t.1) e,
        ap align (ap (λ (t : ℕ × ℕ × List ℕ). t.1) e),
        align-eq_self a.size h.size_fits h.size_aligned,
        length-append (attribute_bytes a) (attributes_bytes as'),
        length-attribute_bytes a,
        h.size_exact,
      );
}

module _ (s : Slice) (back : List ℕ) (small : length s.content ≤ 65532) where
  -- The loop reads the attributes that stand from its position to the end of the datagram.
  pub loop_reads :
      (as' : List Attribute) (fuel : ℕ) (front : List ℕ) (pkt : Packet)
      → All IsAttribute as'
      → array s ≡ front ++ (attributes_bytes as' ++ back)
      → length s.content ≡ length front + length (attributes_bytes as')
      → length as' < fuel
      → pkt.size < 65536
      → Finds (parse_loop fuel s (length front) pkt) pkt as'
  unfolding attributes_bytes
  loop_reads as' zero front pkt h e n more fits = absurd (omega arith)
  loop_reads [] (suc fuel) front pkt h e n more fits = record {
    result = pkt;
    run =
        unfold parse_loop in
        rw (le→ltb_false (length front) (u16 (length s.content)) (omega arith));
    types_kept = refl;
    trans_id_kept = refl;
    found = rw append-nil;
    size_sum = omega arith;
  }
  loop_reads (a ∷ as') (suc fuel) front pkt (ha, has) e n more fits =
      rw
        (parse_round fuel s front a.value.content rest a.types a.size pkt layout ha.types_fit
          (sym ha.size_exact) room small)
        (Finds-cons _ pkt a cut as' ha (reread a rest ha) (
          rw position (
            loop_reads as' fuel next (add_attribute pkt cut) has next_layout next_length
              (omega arith) (unfold add_attribute in omega arith))))
    where
      rest : List ℕ
      rest = attributes_bytes as' ++ back

      next : List ℕ
      next = front ++ attribute_bytes a

      cut : Attribute
      cut = new_attribute a.types (record { content = a.value.content; spare = rest })

      layout :
          array s
          ≡ front ++ (put_uint16 a.types ++ (put_uint16 a.size ++ (a.value.content ++ rest)))
      layout = rw (e, append_assoc) (unfold attribute_bytes in simp append_assoc)

      next_layout : array s ≡ next ++ rest
      next_layout = rw e (simp append_assoc)

      next_length : length s.content ≡ length next + length (attributes_bytes as')
      next_length = omega (
        arith,
        n,
        length-append front (attribute_bytes a),
        length-append (attribute_bytes a) (attributes_bytes as'),
      )

      room : length front + 4 + a.size ≤ length s.content
      room = omega (
        arith,
        n,
        length-append (attribute_bytes a) (attributes_bytes as'),
        length-attribute_bytes a,
        ha.size_exact,
      )

      position : u16 (length front + u16 (align a.size + 4)) ≡ length next
      position = omega (
        arith,
        room,
        align-eq_self a.size ha.size_fits ha.size_aligned,
        length-append front (attribute_bytes a),
        length-attribute_bytes a,
        ha.size_exact,
      )

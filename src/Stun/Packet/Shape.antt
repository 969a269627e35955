-- ===== src/Stun/Packet/Shape.antt =====
-- The length fields of attributes and packets against the bytes that are written.
use go_util.Prelude.{
  ◌+◌, ◌≤◌, ◌<◌, ◌≡◌, refl, List, [], ◌∷◌, ◌++◌, length, length-append, All, All-append,
  append_assoc, arith,
}
use go_util.Wire.Slices.{IsU16}
use go_util.Stun.Align.Laws.{align-eq_self}
use go_util.Stun.Attribute.{Attribute}
use go_util.Stun.Attribute.Shape.{IsAttribute, new_attribute-IsAttribute, new_attribute_size_4}
use go_util.Stun.Packet.{
  Packet, add_attribute, attribute_bytes, attributes_bytes, bytes, new_fingerprint_attribute,
}
use go_util.Stun.Library.{Library}

-- The length field of a packet is that of its attributes on the wire.
pub record IsPacket (v : Packet) : Type 0 where
  pub types_fit : IsU16 v.types
  pub size_fits : IsU16 v.size
  pub trans_id_full : length v.trans_id ≡ 16
  pub size_exact : v.size ≡ length (attributes_bytes v.attributes)
  pub attributes_ok : All IsAttribute v.attributes

pub length-attribute_bytes :
    (a : Attribute) → length (attribute_bytes a) ≡ 4 + length a.value.content
unfolding attribute_bytes
length-attribute_bytes a = omega arith

attributes_bytes-append :
    (xs ys : List Attribute)
    → attributes_bytes (xs ++ ys) ≡ attributes_bytes xs ++ attributes_bytes ys
unfolding attributes_bytes
attributes_bytes-append [] ys = refl
attributes_bytes-append (x ∷ xs) ys = simp (attributes_bytes-append xs ys, append_assoc)

length-attributes_bytes_one :
    (a : Attribute) → length (attributes_bytes (a ∷ [])) ≡ 4 + length a.value.content
unfolding attributes_bytes
length-attributes_bytes_one a =
    omega (arith, length-append (attribute_bytes a) [], length-attribute_bytes a)

pub length-attributes_bytes-snoc :
    (xs : List Attribute) (a : Attribute)
    → length (attributes_bytes (xs ++ (a ∷ [])))
      ≡ length (attributes_bytes xs) + (4 + length a.value.content)
length-attributes_bytes-snoc xs a = rw (attributes_bytes-append xs (a ∷ [])) (
    omega (
      arith,
      length-append (attributes_bytes xs) (attributes_bytes (a ∷ [])),
      length-attributes_bytes_one a,
    ))

-- `addAttribute` keeps the packet's length field exact, as long as the sum fits a uint16.
pub add_attribute-IsPacket :
    (v : Packet) (a : Attribute)
    → IsPacket v
    → IsAttribute a
    → v.size + a.size + 4 < 65536
    → IsPacket (add_attribute v a)
unfolding add_attribute
add_attribute-IsPacket v a hv ha fits = record {
  types_fit = hv.types_fit;
  size_fits = omega arith;
  trans_id_full = hv.trans_id_full;
  size_exact = omega (
    arith,
    align-eq_self a.size ha.size_fits ha.size_aligned,
    length-attributes_bytes-snoc v.attributes a,
    hv.size_exact,
    ha.size_exact,
  );
  attributes_ok = All-append IsAttribute v.attributes (a ∷ []) hv.attributes_ok (ha, tt);
}

-- What `bytes` writes is the 20 bytes of the header and as many bytes as the length field says.
pub length-bytes : (v : Packet) → IsPacket v → length (bytes v) ≡ 20 + v.size
unfolding bytes
length-bytes v h =
    omega (
      arith,
      length-append v.trans_id (attributes_bytes v.attributes),
      h.size_exact,
      h.trans_id_full,
    )

-- An attribute takes four bytes at least.
pub length-le-attributes_bytes : (xs : List Attribute) → length xs ≤ length (attributes_bytes xs)
unfolding attributes_bytes
length-le-attributes_bytes [] = omega arith
length-le-attributes_bytes (x ∷ xs) = omega (
  arith,
  length-append (attribute_bytes x) (attributes_bytes xs),
  length-attribute_bytes x,
  length-le-attributes_bytes xs,
)

-- The fingerprint attribute has a value of four bytes.
pub new_fingerprint_attribute-IsAttribute :
    (lib : Library) (packet : Packet)
    → IsAttribute (new_fingerprint_attribute lib packet)
      × ((new_fingerprint_attribute lib packet).size ≡ 4)
unfolding new_fingerprint_attribute
new_fingerprint_attribute-IsAttribute lib packet =
    (new_attribute-IsAttribute _ _ (omega arith) (omega arith), new_attribute_size_4 _ _ refl)

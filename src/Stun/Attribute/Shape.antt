-- ===== src/Stun/Attribute/Shape.antt =====
-- The length field of the attributes that attribute.go makes.
use go_util.Prelude.{ℕ, ◌+◌, ◌%◌, ◌≤◌, ◌≡◌, refl, Bool, List, length, arith}
use go_util.Wire.Slices.{IsU16, Slice}
use go_util.Stun.Align.Laws.{padding_aligned, length-padding}
use go_util.Stun.Attribute.{
  Attribute, new_attribute, new_software_attribute, new_change_req_attribute,
}

-- The length field of an attribute is that of its padded value.
pub record IsAttribute (a : Attribute) : Type 0 where
  pub types_fit : IsU16 a.types
  pub size_fits : IsU16 a.size
  pub size_exact : length a.value.content ≡ a.size
  pub size_aligned : a.size % 4 ≡ 0

-- `newAttribute` makes an attribute whose length field is exact and a multiple of 4.
pub new_attribute-IsAttribute :
    (types : ℕ) (value : Slice)
    → IsU16 types
    → length value.content ≤ 65532
    → IsAttribute (new_attribute types value)
unfolding new_attribute
new_attribute-IsAttribute types value ht hl = record {
  types_fit = ht;
  size_fits = omega arith;
  size_exact =
      omega (arith, length-padding value, (padding_aligned value).1, (padding_aligned value).3);
  size_aligned = omega (arith, length-padding value, (padding_aligned value).3);
}

-- A value of four bytes is not padded.
pub new_attribute_size_4 :
    (types : ℕ) (value : Slice) → length value.content ≡ 4 → (new_attribute types value).size ≡ 4
unfolding new_attribute
new_attribute_size_4 types value four =
    omega (arith, length-padding value, (padding_aligned value).3)

pub new_software_attribute-IsAttribute :
    (name : List ℕ)
    → length name ≤ 65532
    → IsAttribute (new_software_attribute name)
      × ((new_software_attribute name).size ≤ length name + 3)
unfolding new_software_attribute new_attribute
new_software_attribute-IsAttribute name small =
    (new_attribute-IsAttribute _ _ (omega arith) small, omega (arith, length-padding _))

pub new_change_req_attribute-IsAttribute :
    (change_ip change_port : Bool)
    → IsAttribute (new_change_req_attribute change_ip change_port)
      × ((new_change_req_attribute change_ip change_port).size ≡ 4)
unfolding new_change_req_attribute
new_change_req_attribute-IsAttribute change_ip change_port =
    (new_attribute-IsAttribute _ _ (omega arith) (omega arith), new_attribute_size_4 _ _ refl)

-- ===== src/Stun/Attribute/Termination.antt =====
-- Reading an address from an attribute ends, with the address or in a panic.
use go_util.Prelude.{ℕ, List, ◌==◌, length, get_elem?, take, drop, replicate, or_panic}
use go_util.Stun.Consts.{attribute_family_ipv4}
use go_util.Wire.Slices.{Slice, reslice, be_uint16}
use go_util.Stun.Ends.{Ends, Ends-ok, Ends-or_panic, Ends-bind, Ends-if}
use go_util.Stun.Library.{Library}
use go_util.Stun.Attribute.{Attribute, uint16_at, truncate_ipv4, xor_into, raw_addr, xor_addr}

uint16_at-Ends : (s : Slice) (lo hi : ℕ) → Ends (uint16_at s lo hi)
unfolding uint16_at
uint16_at-Ends s lo hi =
    Ends-bind (or_panic (reslice s lo hi)) (Ends-or_panic _)
      (λ part. Ends-or_panic (be_uint16 part.content))

truncate_ipv4-Ends :
    (lib : Library) (family : ℕ) (value : Slice) → Ends (truncate_ipv4 lib family value)
unfolding truncate_ipv4
truncate_ipv4-Ends lib family value =
    Ends-if (family == attribute_family_ipv4) (Ends-or_panic (reslice value 0 8)) (Ends-ok value)

pub raw_addr-Ends : (lib : Library) (a : Attribute) → Ends (raw_addr lib a)
unfolding raw_addr
raw_addr-Ends lib a = Ends-bind (or_panic (get_elem? a.value.content 1)) (Ends-or_panic _) λ family.
    Ends-bind (uint16_at a.value 2 4) (uint16_at-Ends a.value 2 4) λ port.
      Ends-bind (truncate_ipv4 lib family a.value) (truncate_ipv4-Ends lib family a.value) λ value.
        Ends-bind (or_panic (reslice value 4 (length value.content))) (Ends-or_panic _)
          λ ip. Ends-ok _

pub xor_addr-Ends :
    (lib : Library) (a : Attribute) (trans_id : List ℕ) → Ends (xor_addr lib a trans_id)
unfolding xor_addr
xor_addr-Ends lib a trans_id =
    Ends-bind (or_panic (xor_into (drop 4 a.value.content) trans_id (replicate 16 0)))
      (Ends-or_panic _)
      λ xor_ip. Ends-bind (or_panic (get_elem? a.value.content 1)) (Ends-or_panic _) λ family.
        Ends-bind (uint16_at a.value 2 4) (uint16_at-Ends a.value 2 4) λ port.
          Ends-bind (or_panic (be_uint16 (take 2 trans_id))) (Ends-or_panic _) λ x. Ends-ok _

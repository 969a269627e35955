-- ===== src/Stun/Attribute.antt =====
-- p2p/go-stun/stun/attribute.go (newFingerprintAttribute is in Packet, which it prints).
pub mod Cuts
pub mod Shape
pub mod Addr
pub mod Termination
use Prim.Native.Nat.{bit_or, bit_xor}
use go_util.Prelude.{
  ℕ, ◌==◌, Bool, Option, none, some, List, [], ◌∷◌, length, take, drop, get_elem?, replicate,
  if◌then◌else◌, ok, ◌>>=◌, or_panic,
}
use go_util.Wire.Slices.{u16, Slice, full, reslice, be_uint16}
use go_util.Stun.Consts.{attribute_change_request, attribute_software, attribute_family_ipv4}
use go_util.Stun.Library.{Library, Go}
use go_util.Stun.Align.{padding}
use go_util.Stun.Host.{Host}

pub record Attribute : Type 0 where
  pub types : ℕ
  pub size : ℕ  -- the field `length`
  pub value : Slice

unfoldable pub new_attribute : ℕ → Slice → Attribute
new_attribute types value = record {
  types = types;
  value = padding value;
  size = u16 (length (padding value).content);
}

-- The name is given by its bytes.
pub new_software_attribute : List ℕ → Attribute
new_software_attribute name = new_attribute attribute_software (full name)

-- value[3], with one bit for each request.
change_flags : Bool → Bool → ℕ
change_flags change_ip change_port =
    let with_ip = if change_ip then bit_or 0 0x04 else 0 in
    if change_port then bit_or with_ip 0x02 else with_ip

pub new_change_req_attribute : Bool → Bool → Attribute
unfolding change_flags
new_change_req_attribute change_ip change_port =
    new_attribute attribute_change_request
      (full (0 ∷ 0 ∷ 0 ∷ change_flags change_ip change_port ∷ []))

-- The loop of xorAddr: the value from its fifth byte on, against the transaction id, into an array
-- of 16 zeros. Running over the end of one of the two is the run-time panic.
unfoldable pub xor_into : List ℕ → List ℕ → List ℕ → Option (List ℕ)
xor_into [] ts zs = some zs
xor_into (v ∷ vs) [] zs = none
xor_into (v ∷ vs) (t ∷ ts) [] = none
xor_into (v ∷ vs) (t ∷ ts) (z ∷ zs) = elim (xor_into vs ts zs) [
  | none ↦ none
  | some rest ↦ some (bit_xor v t ∷ rest)
]

-- binary.BigEndian.Uint16(s[lo:hi])
unfoldable pub uint16_at : Slice → ℕ → ℕ → Go ℕ
uint16_at s lo hi = do part ← or_panic (reslice s lo hi); or_panic (be_uint16 part.content)

module _ (lib : Library) where
  unfoldable pub xor_addr : Attribute → List ℕ → Go Host
  unfolding xor_into uint16_at
  xor_addr v trans_id = do
    xor_ip ← or_panic (xor_into (drop 4 v.value.content) trans_id (replicate 16 0))
    family ← or_panic (get_elem? v.value.content 1)
    port ← uint16_at v.value 2 4
    let shown = if family == attribute_family_ipv4 then take 4 xor_ip else xor_ip
    x ← or_panic (be_uint16 (take 2 trans_id))
    ok (record { family = family; ip = lib.ip_string shown; port = bit_xor port x })

  -- `v.value = v.value[:8]` for IPv4.
  truncate_ipv4 : ℕ → Slice → Go Slice
  truncate_ipv4 family value =
      if family == attribute_family_ipv4 then or_panic (reslice value 0 8) else ok value

  unfoldable pub raw_addr : Attribute → Go Host
  unfolding truncate_ipv4 uint16_at
  raw_addr v = do
    family ← or_panic (get_elem? v.value.content 1)
    port ← uint16_at v.value 2 4
    value ← truncate_ipv4 family v.value
    ip ← or_panic (reslice value 4 (length value.content))
    ok (record { family = family; ip = lib.ip_string ip.content; port = port })

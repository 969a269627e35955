-- ===== src/Stun/Packet.antt =====
-- p2p/go-stun/stun/packet.go, and newFingerprintAttribute of attribute.go.
pub mod Parse
pub mod Shape
pub mod Rounds
pub mod Loop
pub mod Total
pub mod Termination
pub mod RoundTrip
use Prim.Native.Nat.{bit_xor}
use go_util.Prelude.{
  ℕ, ◌+◌, ◌/◌, ◌%◌, ◌^◌, ◌==◌, Option, none, some, List, [], ◌∷◌, ◌++◌, if◌then◌else◌, ok, err,
  panic, stuck, ◌>>=◌,
}
use go_util.Wire.Slices.{u16, full, put_uint16}
use go_util.Stun.Consts.{
  magic_cookie, fingerprint, attribute_source_address, attribute_mapped_address,
  attribute_changed_address, attribute_other_address, attribute_xor_mapped_address,
  attribute_xor_mapped_address_exp, attribute_fingerprint,
}
use go_util.Stun.Library.{Library, Go}
use go_util.Stun.Align.{align}
use go_util.Stun.Host.{Host}
use go_util.Stun.Attribute.{Attribute, new_attribute, raw_addr, xor_addr}

pub record Packet : Type 0 where
  pub types : ℕ
  pub size : ℕ  -- the field `length`
  pub trans_id : List ℕ
  pub attributes : List Attribute

-- The argument is what rand.Read brings: twelve bytes or an error.
unfoldable pub new_packet : Go (List ℕ) → Go Packet
new_packet random = do
  bytes ← random
  ok (record { types = 0; size = 0; trans_id = magic_cookie ++ bytes; attributes = [] })

unfoldable pub add_attribute : Packet → Attribute → Packet
add_attribute v a = record v {
  size = u16 (v.size + u16 (align a.size + 4));
  attributes = v.attributes ++ (a ∷ []);
}

-- One round of the loop of `bytes`.
unfoldable pub attribute_bytes : Attribute → List ℕ
attribute_bytes a = put_uint16 a.types ++ (put_uint16 a.size ++ a.value.content)

unfoldable pub attributes_bytes : List Attribute → List ℕ
attributes_bytes [] = []
attributes_bytes (a ∷ as') = attribute_bytes a ++ attributes_bytes as'

unfoldable pub bytes : Packet → List ℕ
bytes v = put_uint16 v.types ++ (put_uint16 v.size ++ (v.trans_id ++ attributes_bytes v.attributes))

-- binary.BigEndian.PutUint32
abbrev put_uint32 : ℕ → List ℕ
put_uint32 n = (n / 2 ^ 24 % 256) ∷ (n / 2 ^ 16 % 256) ∷ (n / 2 ^ 8 % 256) ∷ (n % 256) ∷ []

module _ (lib : Library) where
  pub new_fingerprint_attribute : Packet → Attribute
  new_fingerprint_attribute packet =
      let crc = bit_xor (lib.checksum_ieee (bytes packet)) fingerprint in
      new_attribute attribute_fingerprint (full (put_uint32 crc))

  -- The loops of getRawAddr and getXorAddr: the first attribute of that type; `ok none` is nil.
  first_raw_addr : List Attribute → ℕ → Go (Option Host)
  first_raw_addr [] attribute = ok none
  first_raw_addr (a ∷ rest) attribute =
      let later = first_raw_addr rest attribute in
      if a.types == attribute then (do host ← raw_addr lib a; ok (some host)) else later

  first_xor_addr : List Attribute → List ℕ → ℕ → Go (Option Host)
  first_xor_addr [] trans_id attribute = ok none
  first_xor_addr (a ∷ rest) trans_id attribute =
      let later = first_xor_addr rest trans_id attribute in
      if a.types == attribute then (do host ← xor_addr lib a trans_id; ok (some host)) else later

  unfoldable pub get_raw_addr : Packet → ℕ → Go (Option Host)
  unfolding first_raw_addr
  get_raw_addr v attribute = first_raw_addr v.attributes attribute

  unfoldable pub get_xor_addr : Packet → ℕ → Go (Option Host)
  unfolding first_xor_addr
  get_xor_addr v attribute = first_xor_addr v.attributes v.trans_id attribute

  unfoldable pub get_source_addr : Packet → Go (Option Host)
  get_source_addr v = get_raw_addr v attribute_source_address

  unfoldable pub get_mapped_addr : Packet → Go (Option Host)
  get_mapped_addr v = get_raw_addr v attribute_mapped_address

  unfoldable pub get_changed_addr : Packet → Go (Option Host)
  get_changed_addr v = get_raw_addr v attribute_changed_address

  unfoldable pub get_other_addr : Packet → Go (Option Host)
  get_other_addr v = get_raw_addr v attribute_other_address

  or_else : Option Host → Go (Option Host) → Go (Option Host)
  or_else none second = second
  or_else (some host) second = ok (some host)

  unfoldable pub get_xor_mapped_addr : Packet → Go (Option Host)
  unfolding or_else
  get_xor_mapped_addr v = do
    addr ← get_xor_addr v attribute_xor_mapped_address
    or_else addr (get_xor_addr v attribute_xor_mapped_address_exp)

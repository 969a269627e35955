-- ===== src/Stun/Attribute/Addr.antt =====
-- The addresses of attribute.go against the layouts that its comments draw.
use Prim.Native.Nat.{bit_xor}
use go_util.Prelude.{
  ℕ, ◌+◌, ◌*◌, ◌≤◌, ◌≡◌, refl, ◌⊎◌, inl, inr, some, List, [], ◌∷◌, ◌++◌, length, take, drop,
  take-append, append-nil, replicate, ok, arith,
}
use go_util.Wire.Slices.{IsU16, Slice, put_uint16, reslice, reslice_at}
use go_util.Wire.Bits.{bit_xor_twice, bit_xor-lt}
use go_util.Stun.Consts.{attribute_family_ipv4, attribute_family_ipv6}
use go_util.Stun.Library.{Library}
use go_util.Stun.Attribute.Cuts.{uint16_at_front}
use go_util.Stun.Attribute.{uint16_at, xor_into, xor_addr, raw_addr}

-- The bytes of an address under the transaction id.
abbrev pub xor_with : List ℕ → List ℕ → List ℕ
xor_with [] ts = []
xor_with (b ∷ bs) [] = []
xor_with (b ∷ bs) (t ∷ ts) = bit_xor b t ∷ xor_with bs ts

-- The layout of figure 6: a byte, the family, X-Port, X-Address.
abbrev pub xor_layout : ℕ → ℕ → ℕ → List ℕ → List ℕ → List ℕ
xor_layout first family port ip trans_id =
    first ∷ family ∷ (put_uint16 port ++ xor_with ip trans_id)

-- The layout of figure 5: a byte, the family, the port, the address.
abbrev pub raw_layout : ℕ → ℕ → ℕ → List ℕ → List ℕ
raw_layout first family port ip = first ∷ family ∷ (put_uint16 port ++ ip)

-- An address is of 4 bytes with the family IPv4, or of 16 with the family IPv6.
abbrev pub IsAddress : ℕ → List ℕ → Type 0
IsAddress family ip =
    ((family ≡ attribute_family_ipv4) × (length ip ≡ 4))
    ⊎ ((family ≡ attribute_family_ipv6) × (length ip ≡ 16))

xor_into-xor_with :
    (ip ts zs : List ℕ)
    → length ip ≤ length ts
    → length ip ≤ length zs
    → xor_into (xor_with ip ts) ts zs ≡ some (ip ++ drop (length ip) zs)
unfolding xor_into
xor_into-xor_with [] ts zs p q = refl
xor_into-xor_with (b ∷ bs) [] zs p q = absurd (omega arith)
xor_into-xor_with (b ∷ bs) (t ∷ ts) [] p q = absurd (omega arith)
xor_into-xor_with (b ∷ bs) (t ∷ ts) (z ∷ zs) p q =
    rw (xor_into-xor_with bs ts zs (omega arith) (omega arith), bit_xor_twice)

module _ (lib : Library) (types size first family port : ℕ) (ip spare : List ℕ) where
  -- `rawAddr` reads the address that stands in the layout.
  raw_addr-layout :
      IsAddress family ip
      → IsU16 port
      → raw_addr lib (record {
        types = types;
        size = size;
        value = record { content = raw_layout first family port ip; spare = spare };
      })
        ≡ ok (record { family = family; ip = lib.ip_string ip; port = port })
  unfolding raw_addr
  raw_addr-layout h hp = elim h [
    | inl (f, n) ↦ rw (port_read, f, whole attribute_family_ipv4 n, address attribute_family_ipv4)
    | inr (f, n) ↦ rw (port_read, f, address attribute_family_ipv6)
  ]
    where
      value : ℕ → Slice
      value fam = record { content = raw_layout first fam port ip; spare = spare }

      port_read : uint16_at (value family) 2 4 ≡ ok port
      port_read =
          uint16_at_front (value family) 2 4 port (first ∷ family ∷ []) (ip ++ spare) refl
            (omega arith) (omega arith) hp

      whole : (fam : ℕ) → length ip ≡ 4 → reslice (value fam) 0 8 ≡ some (value fam)
      whole fam n =
          reslice_at (value fam) 0 8 [] (value fam).content spare refl (omega arith)
            (omega (arith, n))

      address :
          (fam : ℕ)
          → reslice (value fam) 4 (length (value fam).content)
            ≡ some (record { content = ip; spare = spare })
      address fam =
          reslice_at (value fam) 4 _ (first ∷ fam ∷ put_uint16 port) ip spare refl (omega arith)
            (omega arith)

  -- `xorAddr` gives back the address and the port that were masked with the transaction id and its
  -- first two bytes.
  pub xor_addr-layout :
      (a b : ℕ) (id : List ℕ)
      → IsAddress family ip
      → IsU16 port
      → IsU16 (a * 256 + b)
      → length id ≡ 14
      → xor_addr lib
          (record {
            types = types;
            size = size;
            value = record {
              content = xor_layout first family (bit_xor port (a * 256 + b)) ip (a ∷ b ∷ id);
              spare = spare;
            };
          })
          (a ∷ b ∷ id)
        ≡ ok (record { family = family; ip = lib.ip_string ip; port = port })
  unfolding xor_addr
  xor_addr-layout a b id h hp hx hid = elim h [
    | inl (f, n) ↦ rw (unmasked (omega arith), port_read, f, bit_xor_twice) (rw (take_exact 4 _ n))
    | inr (f, n) ↦ rw (unmasked (omega arith), port_read, f, bit_xor_twice) (rw (n, append-nil))
  ]
    where
      x : ℕ
      x = a * 256 + b

      value : Slice
      value = record {
        content = xor_layout first family (bit_xor port x) ip (a ∷ b ∷ id);
        spare = spare;
      }

      port_read : uint16_at value 2 4 ≡ ok (bit_xor port x)
      port_read =
          uint16_at_front value 2 4 (bit_xor port x) (first ∷ family ∷ [])
            (xor_with ip (a ∷ b ∷ id) ++ spare) refl (omega arith) (omega arith)
            (bit_xor-lt 16 port x hp hx)

      take_exact : (n : ℕ) (ys : List ℕ) → length ip ≡ n → take n (ip ++ ys) ≡ ip
      take_exact n ys e = rw (← e) (take-append ip ys)

      unmasked :
          length ip ≤ 16
          → xor_into (xor_with ip (a ∷ b ∷ id)) (a ∷ b ∷ id) (replicate 16 0)
            ≡ some (ip ++ drop (length ip) (replicate 16 0))
      unmasked n =
          xor_into-xor_with ip (a ∷ b ∷ id) (replicate 16 0) (omega (arith, hid)) (omega arith)

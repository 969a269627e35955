-- ===== src/Stun/Align/Laws.antt =====
-- What `align` and `padding` compute.
use go_util.Prelude.{
  ℕ, ◌+◌, ◌*◌, ◌/◌, ◌%◌, ◌≤◌, ◌<◌, ◌≡◌, List, ◌++◌, length, replicate, length-append,
  length-replicate, append-nil, arith,
}
use go_util.Wire.Slices.{u16, Slice, IsU16, append}
use go_util.Wire.Bits.{bit_and_0xfffc}
use go_util.Stun.Align.{align, pad_length, padding}

pub align_arith : (n : ℕ) → align n ≡ u16 (n + 3) / 4 * 4
unfolding align
align_arith n = bit_and_0xfffc (u16 (n + 3)) (omega arith)

-- For n up to 65532 `align n` is the least multiple of 4 that is at least n.
align_least : (n : ℕ) → n ≤ 65532 → (n ≤ align n) × (align n % 4 ≡ 0) × (align n < n + 4)
align_least n h = omega (arith, align_arith n)

-- Above, the addition of 3 wraps.
pub align_wraps : (n : ℕ) → 65532 < n → IsU16 n → align n ≡ 0
align_wraps n h u = omega (arith, align_arith n)

pub align-eq_self : (n : ℕ) → n < 65536 → n % 4 ≡ 0 → align n ≡ n
align-eq_self n h e = omega (arith, align_arith n)

pub pad_length_lem : (n : ℕ) → IsU16 n → (pad_length n < 4) × ((n + pad_length n) % 4 ≡ 0)
unfolding pad_length
pad_length_lem n h = omega (arith, align_arith n)

append_content : (s : Slice) (xs : List ℕ) → (append s xs).content ≡ s.content ++ xs
unfolding append
append_content s xs = ground arith

pub padding_content :
    (s : Slice)
    → (padding s).content ≡ s.content ++ replicate (pad_length (u16 (length s.content))) 0
unfolding padding
padding_content s = append_content s _

-- `padding` keeps the bytes and appends at most three zeros, and so reaches a multiple of 4, also
-- where the length does not fit a uint16.
pub padding_aligned :
    (s : Slice)
    → (k : ℕ) × (k < 4)
      × ((padding s).content ≡ s.content ++ replicate k 0)
      × (length (padding s).content % 4 ≡ 0)
padding_aligned s = (
  k,
  (pad_length_lem (u16 n) (omega arith)).0,
  padding_content s,
  rw (padding_content s) (
      omega (
        arith,
        length-append s.content (replicate k 0),
        length-replicate k (let z : ℕ = 0 in z),
        pad_length_lem (u16 n),
      )),
)
  where
    n : ℕ
    n = length s.content

    k : ℕ
    k = pad_length (u16 n)

pub length-padding :
    (s : Slice)
    → (length s.content ≤ length (padding s).content)
      × (length (padding s).content < length s.content + 4)
length-padding s =
    let (k, small, shape, aligned) = padding_aligned s in
    rw shape (
      omega
        (arith, length-append s.content (replicate k 0), length-replicate k (let z : ℕ = 0 in z)))

-- A value that fills its words is not padded.
pub padding_of_aligned :
    (s : Slice)
    → length s.content < 65536
    → length s.content % 4 ≡ 0
    → (padding s).content ≡ s.content
padding_of_aligned s small aligned = rw (padding_content s, none_missing) (append-nil s.content)
  where
    none_missing : pad_length (u16 (length s.content)) ≡ 0
    none_missing = omega (arith, pad_length_lem (u16 (length s.content)))

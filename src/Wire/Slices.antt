-- ===== src/Wire/Slices.antt =====
-- Go's slices of bytes, and big-endian 16-bit numbers (encoding/binary).
use go_util.Prelude.{
  ℕ, ◌+◌, ◌-◌, ◌*◌, ◌/◌, ◌%◌, ◌<◌, ◌≤◌, ◌≡◌, length-drop, length-take, ap, true, ◌&&◌, Option, none,
  some, List, [], ◌∷◌, ◌++◌, length, take, drop, take-append, drop-append, length-append, leb,
  if◌then◌else◌, arith,
}
use native.Mathlib.Nat.{zero-add, suc-add}

-- uint16(n): the value modulo 2 ^ 16.
abbrev pub u16 : ℕ → ℕ
u16 n = n % 65536

abbrev pub IsByte : ℕ → Type 0
IsByte b = b < 256

abbrev pub IsU16 : ℕ → Type 0
IsU16 n = n < 65536

-- The elements up to `len`, and those of the array behind them up to `cap`.
pub record Slice : Type 0 where
  pub content : List ℕ
  pub spare : List ℕ

abbrev pub array : Slice → List ℕ
array s = s.content ++ s.spare

-- A slice with no room behind it.
abbrev pub full : List ℕ → Slice
full xs = record { content = xs; spare = [] }

-- `s[lo:hi]`: the bounds are checked against `cap`, not `len`; `none` is the run-time panic.
unfoldable pub reslice : Slice → ℕ → ℕ → Option Slice
reslice s lo hi =
    if leb lo hi && leb hi (length (array s))
    then some (record { content = drop lo (take hi (array s)); spare = drop hi (array s) })
    else none

-- `append(s, xs...)`: in place while the array has room, else in a new array. (A new array's
-- capacity may be rounded up; its room holds nothing that was written.)
unfoldable pub append : Slice → List ℕ → Slice
append s xs =
    if leb (length xs) (length s.spare)
    then record { content = s.content ++ xs; spare = drop (length xs) s.spare }
    else full (s.content ++ xs)

-- binary.BigEndian.Uint16(b): it reads b[0] and b[1], and panics where they are missing.
abbrev pub be_uint16 : List ℕ → Option ℕ
be_uint16 [] = none
be_uint16 (a ∷ []) = none
be_uint16 (a ∷ b ∷ _) = some (a * 256 + b)

-- binary.BigEndian.PutUint16.
abbrev pub put_uint16 : ℕ → List ℕ
put_uint16 n = (n / 256 % 256) ∷ (n % 256) ∷ []

take-append_add {ℓ} :
    {A : Type ℓ} (xs ys : List A) (n : ℕ) → take (length xs + n) (xs ++ ys) ≡ xs ++ take n ys
take-append_add [] ys n = rw zero-add
take-append_add (x ∷ xs) ys n = rw suc-add (ap (λ t. x ∷ t) (take-append_add xs ys n))

drop-append_add {ℓ} :
    {A : Type ℓ} (xs ys : List A) (n : ℕ) → drop (length xs + n) (xs ++ ys) ≡ drop n ys
drop-append_add [] ys n = rw zero-add
drop-append_add (x ∷ xs) ys n = rw suc-add (drop-append_add xs ys n)

-- Cutting the middle out of an array written as three parts.
pub reslice_middle :
    (s : Slice) (front middle back : List ℕ)
    → array s ≡ front ++ (middle ++ back)
    → reslice s (length front) (length front + length middle)
      ≡ some (record { content = middle; spare = back })
unfolding reslice
reslice_middle s front middle back e = rw (e, fits, cut_take, cut_drop, drop-append)
  where
    fits :
        leb (length front) (length front + length middle)
          && leb (length front + length middle) (length (front ++ (middle ++ back)))
        ≡ true
    fits = ground (arith, length-append front (middle ++ back), length-append middle back)

    cut_take : take (length front + length middle) (front ++ (middle ++ back)) ≡ front ++ middle
    cut_take = rw (take-append_add, take-append)

    cut_drop : drop (length front + length middle) (front ++ (middle ++ back)) ≡ back
    cut_drop = rw (drop-append_add, drop-append)

-- The same, at positions that are equal to the lengths of the parts.
pub reslice_at :
    (s : Slice) (lo hi : ℕ) (front middle back : List ℕ)
    → array s ≡ front ++ (middle ++ back)
    → lo ≡ length front
    → hi ≡ lo + length middle
    → reslice s lo hi ≡ some (record { content = middle; spare = back })
reslice_at s lo hi front middle back e el eh = rw (eh, el) (reslice_middle s front middle back e)

-- A cut whose end lies before its start panics.
pub reslice_backwards : (s : Slice) (lo hi : ℕ) → hi < lo → reslice s lo hi ≡ none
unfolding reslice
reslice_backwards s lo hi h = ground arith

-- A cut that does not panic has its bounds in order and the length between them.
pub length-reslice :
    (s t : Slice) (lo hi : ℕ) → reslice s lo hi ≡ some t → (lo ≤ hi) × (length t.content ≡ hi - lo)
unfolding reslice
length-reslice s t lo hi e =
    ground (arith, length-drop lo (take hi (array s)), length-take hi (array s))

-- ===== src/Wire/Bits.antt =====
-- `&` and `^` on machine words as arithmetic, from the recursion on binary digits that they mean.
use Prim.Native.Nat.{digits, bitwise, differ, bit_and, bit_xor, bit_and-bitwise, bit_xor-bitwise}
use go_util.Prelude.{ℕ, zero, suc, ◌+◌, ◌*◌, ◌/◌, ◌%◌, ◌^◌, ◌<◌, ◌≤◌, ◌≡◌, refl, ap, arith, min}
use native.Mathlib.Nat.{pow-suc}

-- The fuel of the digit recursion does not show once it reaches the number.
module _ (z : ℕ → ℕ) (f : ℕ → ℕ → ℕ) where
  more_fuel : (n m a b : ℕ) → a ≤ n → a ≤ m → digits z f n a b ≡ digits z f m a b
  more_fuel zero zero a b p q = refl
  more_fuel zero (suc m) zero b p q = refl
  more_fuel zero (suc m) (suc a) b p q = absurd (omega arith)
  more_fuel (suc n) zero zero b p q = refl
  more_fuel (suc n) zero (suc a) b p q = absurd (omega arith)
  more_fuel (suc n) (suc m) zero b p q = refl
  more_fuel (suc n) (suc m) (suc a) b p q =
      omega (arith, more_fuel n m (suc a / 2) (b / 2) (omega arith) (omega arith))

  lowest_digit :
      (b a : ℕ)
      → f (suc a % 2) (b % 2) + 2 * bitwise z f (suc a / 2) (b / 2) ≡ bitwise z f (suc a) b
  lowest_digit b a =
      omega (arith, more_fuel a (suc a / 2) (suc a / 2) (b / 2) (omega arith) (omega arith))

pub bit_and_digit : (a b : ℕ) → bit_and a b ≡ bit_and (a / 2) (b / 2) * 2 + min (a % 2) (b % 2)
bit_and_digit zero b = simp bit_and-bitwise (omega arith)
bit_and_digit (suc a) b = omega (
  arith,
  lowest_digit (λ y. 0) min b a,
  bit_and-bitwise (suc a) b,
  bit_and-bitwise (suc a / 2) (b / 2),
)

pub bit_xor_digit : (a b : ℕ) → bit_xor a b ≡ bit_xor (a / 2) (b / 2) * 2 + differ (a % 2) (b % 2)
bit_xor_digit zero b = omega (arith, bit_xor-bitwise 0 b, bit_xor-bitwise 0 (b / 2))
bit_xor_digit (suc a) b = omega (
  arith,
  lowest_digit (λ y. y) differ b a,
  bit_xor-bitwise (suc a) b,
  bit_xor-bitwise (suc a / 2) (b / 2),
)

-- `k` ones.
abbrev ones : ℕ → ℕ
ones zero = 0
ones (suc k) = 2 * ones k + 1

no_common_digit : (bound a : ℕ) → a ≤ bound → bit_and a 0 ≡ 0
no_common_digit bound zero h = refl
no_common_digit zero (suc a) h = absurd (omega arith)
no_common_digit (suc bound) (suc a) h =
    omega (arith, no_common_digit bound (suc a / 2) (omega arith), bit_and_digit (suc a) 0)

bit_and_zero : (a : ℕ) → bit_and a 0 ≡ 0
bit_and_zero a = no_common_digit a a (omega arith)

bit_and-ones_field : (k q r : ℕ) → r < 2 ^ k → bit_and (q * 2 ^ k + r) (ones k) ≡ r
bit_and-ones_field zero q r h = rw bit_and_zero (omega arith)
bit_and-ones_field (suc k) q r h = ground (
  arith,
  bit_and_digit (q * 2 ^ suc k + r) (ones (suc k)),
  pow-suc 2 k,
  ap (λ (t : ℕ). q * t) (pow-suc 2 k),
  bit_and-ones_field k q (r / 2) (omega (arith, pow-suc 2 k)),
)

pub bit_and-ones_14 : (a : ℕ) → bit_and a 0x3fff ≡ a % 16384
bit_and-ones_14 a = rw split at (bit_and-ones_field 14 (a / 16384) (a % 16384) (omega arith))
  where
    split : a / 16384 * 2 ^ 14 + a % 16384 ≡ a
    split = omega arith

-- Clearing the two lowest bits of a 16-bit word.
pub bit_and_0xfffc : (a : ℕ) → a < 65536 → bit_and a 0xfffc ≡ a / 4 * 4
bit_and_0xfffc a h =
    omega (arith, bit_and_digit a 0xfffc, bit_and_digit (a / 2) 0x7ffe, bit_and-ones_14 (a / 2 / 2))

xor_twice_digit : (x y : ℕ) → x < 2 → y < 2 → differ (differ x y) y ≡ x
xor_twice_digit zero zero p q = refl
xor_twice_digit zero (suc zero) p q = refl
xor_twice_digit (suc zero) zero p q = refl
xor_twice_digit (suc zero) (suc zero) p q = refl
xor_twice_digit (suc (suc x)) y p q = absurd (omega arith)
xor_twice_digit zero (suc (suc y)) p q = absurd (omega arith)
xor_twice_digit (suc zero) (suc (suc y)) p q = absurd (omega arith)

differ-lt_two : (x y : ℕ) → x < 2 → y < 2 → differ x y < 2
differ-lt_two zero y p q = q
differ-lt_two (suc zero) zero p q = omega arith
differ-lt_two (suc zero) (suc zero) p q = omega arith
differ-lt_two (suc (suc x)) y p q = absurd (omega arith)
differ-lt_two (suc zero) (suc (suc y)) p q = absurd (omega arith)

bit_xor_zero : (b : ℕ) → bit_xor 0 b ≡ b
bit_xor_zero b = bit_xor-bitwise 0 b

-- What `x ^ y` is above and in its lowest digit.
xor_halves :
    (a b : ℕ)
    → (bit_xor a b / 2 ≡ bit_xor (a / 2) (b / 2)) × (bit_xor a b % 2 ≡ differ (a % 2) (b % 2))
xor_halves a b = (omega (arith, bit_xor_digit a b, digit), omega (arith, bit_xor_digit a b, digit))
  where
    digit : differ (a % 2) (b % 2) < 2
    digit = differ-lt_two (a % 2) (b % 2) (omega arith) (omega arith)

xor_self_bounded : (n b : ℕ) → b ≤ n → bit_xor b b ≡ 0
xor_self_bounded n zero h = refl
xor_self_bounded zero (suc b) h = absurd (omega arith)
xor_self_bounded (suc n) (suc b) h = omega (
  arith,
  bit_xor_digit (suc b) (suc b),
  xor_self_bounded n (suc b / 2) (omega arith),
  same (suc b % 2),
)
  where
    same : (d : ℕ) → differ d d ≡ 0
    same zero = refl
    same (suc d) = same d

xor_twice_bounded : (n a b : ℕ) → a ≤ n → bit_xor (bit_xor a b) b ≡ a
xor_twice_bounded n zero b h = rw bit_xor_zero (xor_self_bounded b b (omega arith))
xor_twice_bounded zero (suc a) b h = absurd (omega arith)
xor_twice_bounded (suc n) (suc a) b h = omega (
  arith,
  bit_xor_digit (bit_xor (suc a) b) b,
  high (xor_twice_bounded n (suc a / 2) (b / 2) (omega arith)),
  low,
)
  where
    high :
        bit_xor (bit_xor (suc a / 2) (b / 2)) (b / 2) ≡ suc a / 2
        → bit_xor (bit_xor (suc a) b / 2) (b / 2) ≡ suc a / 2
    high e = rw (xor_halves (suc a) b).0 e

    low : differ (bit_xor (suc a) b % 2) (b % 2) ≡ suc a % 2
    low =
        rw (xor_halves (suc a) b).1
          (xor_twice_digit (suc a % 2) (b % 2) (omega arith) (omega arith))

-- An exclusive or is undone by a second one.
pub bit_xor_twice : (a b : ℕ) → bit_xor (bit_xor a b) b ≡ a
bit_xor_twice a b = xor_twice_bounded a a b (omega arith)

-- An exclusive or of two numbers of `k` bits has `k` bits.
pub bit_xor-lt : (k a b : ℕ) → a < 2 ^ k → b < 2 ^ k → bit_xor a b < 2 ^ k
bit_xor-lt zero zero zero p q = omega arith
bit_xor-lt zero (suc a) b p q = absurd (omega arith)
bit_xor-lt zero zero (suc b) p q = absurd (omega arith)
bit_xor-lt (suc k) a b p q = omega (
  arith,
  pow-suc 2 k,
  bit_xor_digit a b,
  differ-lt_two (a % 2) (b % 2) (omega arith) (omega arith),
  bit_xor-lt k (a / 2) (b / 2) (omega (arith, pow-suc 2 k)) (omega (arith, pow-suc 2 k)),
)

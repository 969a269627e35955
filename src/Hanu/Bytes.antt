-- ===== src/Hanu/Bytes.antt =====
-- Texts as their bytes, with the functions of package strings that hanu calls.
use go_util.Prelude.{
  Option, none, some, ℕ, ◌-◌, ◌≡◌, refl, Bool, true, false, ◌&&◌, List, [], ◌∷◌, ◌++◌, length, drop,
  leb, ◌==◌, ==_refl, if◌then◌else◌,
}

-- A panic (`none`) ends what follows.
abbrev pub and_then {ℓ κ} : {A : Type ℓ} {B : Type κ} → Option A → (A → Option B) → Option B
and_then none f = none
and_then (some a) f = f a

-- strings.HasPrefix(text, prefix)
unfoldable pub has_prefix : List ℕ → List ℕ → Bool
has_prefix text [] = true
has_prefix [] (y ∷ ys) = false
has_prefix (x ∷ xs) (y ∷ ys) = x == y && has_prefix xs ys

-- ==
unfoldable pub equal : List ℕ → List ℕ → Bool
equal [] [] = true
equal [] (y ∷ ys) = false
equal (x ∷ xs) [] = false
equal (x ∷ xs) (y ∷ ys) = x == y && equal xs ys

-- strings.HasSuffix(text, suffix)
unfoldable pub has_suffix : List ℕ → List ℕ → Bool
has_suffix text suffix =
    leb (length suffix) (length text) && equal (drop (length text - length suffix) text) suffix

-- strings.Contains of one byte.
unfoldable pub contains : List ℕ → ℕ → Bool
contains [] b = false
contains (x ∷ xs) b = if x == b then true else contains xs b

-- The part of a text before the first of that byte, and the part after the first of it up to the
-- next: the first two of strings.Split by it.
unfoldable pub up_to : List ℕ → ℕ → List ℕ
up_to [] b = []
up_to (x ∷ xs) b = let later = up_to xs b in if x == b then [] else x ∷ later

unfoldable pub second_part : List ℕ → ℕ → List ℕ
second_part [] b = []
second_part (x ∷ xs) b = let later = second_part xs b in if x == b then up_to xs b else later

pub has_prefix-append : (prefix rest : List ℕ) → has_prefix (prefix ++ rest) prefix ≡ true
unfolding has_prefix
has_prefix-append [] rest = refl
has_prefix-append (x ∷ xs) rest = rw (==_refl x, has_prefix-append xs rest) refl

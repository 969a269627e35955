-- ===== src/Prelude/Dict.antt =====
-- Go's maps as association lists, for keys that can be compared.
use mathlib.Core.Path.{◌≡◌, refl, ap, sym, ◌∙◌}
use mathlib.Core.Logic.{inl, inr}
use mathlib.Core.Bool.{Bool, true, false, ◌&&◌}
use mathlib.Core.Option.{Option, none, some}
use mathlib.Core.List.{List, [], ◌∷◌}
use Prim.Native.Nat.{ℕ}
use go_util.Prelude.Tests.{◌==◌, ==→eq, ==_refl, if◌then◌else◌, Bool-cases}

pub record Key {ℓ} (K : Type ℓ) : Type ℓ where
  pub same : K → K → Bool
  pub same→eq : (a b : K) → same a b ≡ true → a ≡ b
  pub same_refl : (a : K) → same a a ≡ true

instance abbrev pub nat_key : Key ℕ
nat_key = record { same = ◌==◌; same→eq = ==→eq; same_refl = ==_refl }

unfoldable pub same_bytes : List ℕ → List ℕ → Bool
same_bytes [] [] = true
same_bytes [] (y ∷ ys) = false
same_bytes (x ∷ xs) [] = false
same_bytes (x ∷ xs) (y ∷ ys) = x == y && same_bytes xs ys

pub same_bytes→eq : (xs ys : List ℕ) → same_bytes xs ys ≡ true → xs ≡ ys
unfolding same_bytes
same_bytes→eq [] [] h = refl
same_bytes→eq [] (y ∷ ys) h = absurd (cc h)
same_bytes→eq (x ∷ xs) [] h = absurd (cc h)
same_bytes→eq (x ∷ xs) (y ∷ ys) h = elim (Bool-cases (x == y)) [
  | inl e ↦
      let head : x ≡ y = ==→eq x y e in
      let tail : xs ≡ ys = same_bytes→eq xs ys (rw e at h) in cc (head, tail)
  | inr e ↦ absurd (cc (rw e at h))
]

pub same_bytes_refl : (xs : List ℕ) → same_bytes xs xs ≡ true
unfolding same_bytes
same_bytes_refl [] = refl
same_bytes_refl (x ∷ xs) = rw (==_refl x, same_bytes_refl xs) refl

instance abbrev pub bytes_key : Key (List ℕ)
bytes_key = record { same = same_bytes; same→eq = same_bytes→eq; same_refl = same_bytes_refl }

abbrev pub Dict {ℓ κ} : Type ℓ → Type κ → Type (ℓ ⊔ κ)
Dict K V = List (K × V)

module _ {ℓ κ} {K : Type ℓ} {V : Type κ} ⦃k : Key K⦄ where
  -- m[key]
  unfoldable pub lookup : K → Dict K V → Option V
  lookup key [] = none
  lookup key (e ∷ rest) = let later = lookup key rest in if k.same e.0 key then some e.1 else later

  -- delete(m, key)
  unfoldable pub remove : K → Dict K V → Dict K V
  remove key [] = []
  remove key (e ∷ rest) = let later = remove key rest in if k.same e.0 key then later else e ∷ later

  -- m[key] = value; the order of a map does not matter.
  unfoldable pub assign : K → V → Dict K V → Dict K V
  assign key value d = (key, value) ∷ remove key d

  pub lookup-remove :
      (key gone : K) (d : Dict K V)
      → lookup key (remove gone d) ≡ (if k.same gone key then none else lookup key d)
  unfolding lookup remove
  lookup-remove key gone [] = elim (Bool-cases (k.same gone key)) [
    | inl h ↦ rw h refl
    | inr h ↦ rw h refl
  ]
  lookup-remove key gone (e ∷ rest) = elim (Bool-cases (k.same e.0 gone)) [
    | inl h ↦ elim (Bool-cases (k.same gone key)) [
      | inl g ↦ rw (h, g) (lookup-remove key gone rest ∙ taken g)
      | inr g ↦
          let other : k.same e.0 key ≡ false = ap (λ t. k.same t key) (k.same→eq e.0 gone h) ∙ g in
          rw (h, g, other) (lookup-remove key gone rest ∙ passed g)
    ]
    | inr h ↦ elim (Bool-cases (k.same gone key)) [
      | inl g ↦
          let other : k.same e.0 key ≡ false =
            ap (λ t. k.same e.0 t) (sym (k.same→eq gone key g)) ∙ h in
          rw (h, g, other) (lookup-remove key gone rest ∙ taken g)
      | inr g ↦
          rw (h, g)
            (ap (λ t. if k.same e.0 key then some e.1 else t)
              (lookup-remove key gone rest ∙ passed g))
    ]
  ]
    where
      taken : k.same gone key ≡ true → (if k.same gone key then none else lookup key rest) ≡ none
      taken g = rw g refl

      passed :
          k.same gone key ≡ false
          → (if k.same gone key then none else lookup key rest) ≡ lookup key rest
      passed g = rw g refl

  pub lookup-assign :
      (key at : K) (value : V) (d : Dict K V)
      → lookup key (assign at value d) ≡ (if k.same at key then some value else lookup key d)
  unfolding lookup assign
  lookup-assign key at value d = elim (Bool-cases (k.same at key)) [
    | inl h ↦ rw h refl
    | inr h ↦ rw h (rw h at (lookup-remove key at d))
  ]

  pub remove_absent : (key : K) (d : Dict K V) → lookup key d ≡ none → remove key d ≡ d
  unfolding lookup remove
  remove_absent key [] h = refl
  remove_absent key (e ∷ rest) h = elim (Bool-cases (k.same e.0 key)) [
    | inl s ↦ absurd (cc (rw s at h))
    | inr s ↦ rw s (ap (λ t. e ∷ t) (remove_absent key rest (rw s at h)))
  ]

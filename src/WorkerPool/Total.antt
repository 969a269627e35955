-- ===== src/WorkerPool/Total.antt =====
-- Sums of a weight over a list, and what changing one element does to them.
use go_util.Prelude.{
  ℕ, zero, suc, ◌+◌, ◌≤◌, ◌<◌, ◌≡◌, refl, ap, ◌⊎◌, inl, inr, some, List, [], ◌∷◌, ◌++◌, length,
  replicate, get_elem?, arith,
}
use go_util.WorkerPool.Step.{set_at, remove_at}

module _ {ℓ} {A : Type ℓ} where
  unfoldable pub total : (A → ℕ) → List A → ℕ
  total f [] = 0
  total f (x ∷ xs) = f x + total f xs

  pub total-append : (f : A → ℕ) (xs ys : List A) → total f (xs ++ ys) ≡ total f xs + total f ys
  unfolding total
  total-append f [] ys = omega arith
  total-append f (x ∷ xs) ys = omega (arith, total-append f xs ys)

  pub total-set_at :
      (f : A → ℕ) (xs : List A) (i : ℕ) (x y : A)
      → get_elem? xs i ≡ some x
      → total f (set_at i y xs) + f x ≡ total f xs + f y
  unfolding total set_at
  total-set_at f [] i x y h = absurd (cc h)
  total-set_at f (z ∷ zs) zero x y h = let same : f z ≡ f x = cc h in omega (arith, same)
  total-set_at f (z ∷ zs) (suc i) x y h = omega (arith, total-set_at f zs i x y h)

  pub total-remove_at :
      (f : A → ℕ) (xs : List A) (i : ℕ) (x : A)
      → get_elem? xs i ≡ some x
      → total f (remove_at i xs) + f x ≡ total f xs
  unfolding total remove_at
  total-remove_at f [] i x h = absurd (cc h)
  total-remove_at f (z ∷ zs) zero x h = let same : f z ≡ f x = cc h in omega (arith, same)
  total-remove_at f (z ∷ zs) (suc i) x h = omega (arith, total-remove_at f zs i x h)

  pub length-set_at : (xs : List A) (i : ℕ) (y : A) → length (set_at i y xs) ≡ length xs
  unfolding set_at
  length-set_at [] i y = refl
  length-set_at (x ∷ xs) zero y = refl
  length-set_at (x ∷ xs) (suc i) y = ap suc (length-set_at xs i y)

  pub length-remove_at :
      (xs : List A) (i : ℕ) (x : A)
      → get_elem? xs i ≡ some x
      → suc (length (remove_at i xs)) ≡ length xs
  unfolding remove_at
  length-remove_at [] i x h = absurd (cc h)
  length-remove_at (z ∷ zs) zero x h = refl
  length-remove_at (z ∷ zs) (suc i) x h = ap suc (length-remove_at zs i x h)

  pub total-replicate_zero : (f : A → ℕ) (n : ℕ) (x : A) → f x ≡ 0 → total f (replicate n x) ≡ 0
  unfolding total
  total-replicate_zero f zero x h = refl
  total-replicate_zero f (suc n) x h = omega (arith, h, total-replicate_zero f n x h)

  -- One element weighs at most as much as all.
  pub get_elem?-total :
      (f : A → ℕ) (xs : List A) (i : ℕ) (x : A) → get_elem? xs i ≡ some x → f x ≤ total f xs
  unfolding total
  get_elem?-total f [] i x h = absurd (cc h)
  get_elem?-total f (z ∷ zs) zero x h = let same : f z ≡ f x = cc h in omega (arith, same)
  get_elem?-total f (z ∷ zs) (suc i) x h = omega (arith, get_elem?-total f zs i x h)

  pub get_elem?_below : (xs : List A) (i : ℕ) (x : A) → get_elem? xs i ≡ some x → i < length xs
  get_elem?_below [] i x h = absurd (cc h)
  get_elem?_below (z ∷ zs) zero x h = omega arith
  get_elem?_below (z ∷ zs) (suc i) x h = omega (arith, get_elem?_below zs i x h)

  pub below_get_elem? : (xs : List A) (i : ℕ) → i < length xs → (x : A) × (get_elem? xs i ≡ some x)
  below_get_elem? [] i h = absurd (omega (arith, h))
  below_get_elem? (z ∷ zs) zero h = (z, refl)
  below_get_elem? (z ∷ zs) (suc i) h = below_get_elem? zs i (omega (arith, h))

  -- Either nothing weighs anything, or an element does.
  pub total-cases :
      (f : A → ℕ) (xs : List A)
      → (total f xs ≡ 0) ⊎ ((i : ℕ) × (x : A) × (get_elem? xs i ≡ some x) × (0 < f x))
  unfolding total
  total-cases f [] = inl refl
  total-cases f (z ∷ zs) = at_head (f z) refl (total-cases f zs)
    where
      at_head :
          (n : ℕ)
          → f z ≡ n
          → (total f zs ≡ 0) ⊎ ((i : ℕ) × (x : A) × (get_elem? zs i ≡ some x) × (0 < f x))
          → (f z + total f zs ≡ 0)
            ⊎ ((i : ℕ) × (x : A) × (get_elem? (z ∷ zs) i ≡ some x) × (0 < f x))
      at_head (suc n) e later = inr (0, z, refl, omega (arith, e))
      at_head zero e (inl none_later) = inl (omega (arith, e, none_later))
      at_head zero e (inr (i, x, h, lt)) = inr (suc i, x, h, lt)

  -- Where every element weighs in one of two sums, the sums reach the length.
  pub length-total :
      (f g : A → ℕ) (xs : List A) → ((x : A) → 1 ≤ f x + g x) → length xs ≤ total f xs + total g xs
  unfolding total
  length-total f g [] h = omega arith
  length-total f g (x ∷ xs) h = omega (arith, h x, length-total f g xs h)

  -- An element without weight leaves the sum of weights of at most one below the length.
  pub total_below :
      (f : A → ℕ) (xs : List A) (i : ℕ) (x : A)
      → ((z : A) → f z ≤ 1)
      → get_elem? xs i ≡ some x
      → f x ≡ 0
      → total f xs < length xs
  unfolding total
  total_below f [] i x small h e = absurd (cc h)
  total_below f (z ∷ zs) zero x small h e =
      let same : f z ≡ f x = cc h in omega (arith, same, e, total_small f zs small)
    where
      total_small : (f : A → ℕ) (xs : List A) → ((z : A) → f z ≤ 1) → total f xs ≤ length xs
      total_small f [] small = omega arith
      total_small f (x ∷ xs) small = omega (arith, small x, total_small f xs small)
  total_below f (z ∷ zs) (suc i) x small h e =
      omega (arith, small z, total_below f zs i x small h e)

  -- What has no weight of one kind and therefore none of another.
  pub total_zero :
      (f g : A → ℕ) (xs : List A) → ((x : A) → f x ≡ 0 → g x ≡ 0) → total f xs ≡ 0 → total g xs ≡ 0
  unfolding total
  total_zero f g [] h z = refl
  total_zero f g (x ∷ xs) h z =
      omega (arith, h x (omega (arith, z)), total_zero f g xs h (omega (arith, z)))

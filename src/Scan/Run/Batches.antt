-- ===== src/Scan/Run/Batches.antt =====
-- The batches of run of scan_ip_net/main.go are the lines in order.
use native.Mathlib.Nat.{div-mul-le_self, lt-div-mul-add, mul-le-mul_right}
use go_util.Prelude.{
  ℕ, zero, suc, ◌+◌, ◌-◌, ◌*◌, ◌/◌, ◌≤◌, ◌<◌, ◌≡◌, min, refl, sym, ap, ◌∙◌, inl, inr, true, Option,
  none, some, List, [], ◌∷◌, ◌++◌, length, take, drop, length-take, length-drop, append_assoc,
  append-nil, ltb, leb, Bool-cases, arith, ltb→lt, ltb_false→le,
}
use go_util.Scan.Cache.{GeoResponse}
use go_util.Scan.Run.{slice, batch_end}

module _ {ℓ} {A : Type ℓ} where
  unfoldable pub concat : List (List A) → List A
  concat [] = []
  concat (xs ∷ xss) = xs ++ concat xss

  pub concat-append :
      (xss : List (List A)) (ys : List A) → concat (xss ++ ys ∷ []) ≡ concat xss ++ ys
  unfolding concat
  concat-append [] ys = append-nil ys
  concat-append (xs ∷ xss) ys =
      ap (λ t. xs ++ t) (concat-append xss ys) ∙ sym (append_assoc xs (concat xss) ys)

  take-drop : (n : ℕ) (xs : List A) → take n xs ++ drop n xs ≡ xs
  take-drop zero xs = refl
  take-drop (suc n) [] = refl
  take-drop (suc n) (x ∷ xs) = ap (λ t. x ∷ t) (take-drop n xs)

  drop_nil : (n : ℕ) → drop {A = A} n [] ≡ []
  drop_nil zero = refl
  drop_nil (suc n) = refl

  drop-drop : (n m : ℕ) (xs : List A) → drop n (drop m xs) ≡ drop (m + n) xs
  drop-drop n zero xs = let same : n ≡ zero + n = omega arith in ap (λ k. drop k xs) same
  drop-drop n (suc m) [] = drop_nil n ∙ sym (drop_nil (suc m + n))
  drop-drop n (suc m) (x ∷ xs) =
      let same : suc (m + n) ≡ suc m + n = omega arith in
      drop-drop n m xs ∙ ap (λ k. drop k (x ∷ xs)) same

  pub drop_all : (n : ℕ) (xs : List A) → length xs ≤ n → drop n xs ≡ []
  drop_all zero [] h = refl
  drop_all (suc n) [] h = refl
  drop_all zero (x ∷ xs) h = absurd (omega (arith, h))
  drop_all (suc n) (x ∷ xs) h = drop_all n xs (omega (arith, h))

-- How many of the posts brought responses.
unfoldable pub answers : List (Option (List GeoResponse)) → ℕ
answers [] = 0
answers (none ∷ replies) = answers replies
answers (some res ∷ replies) = suc (answers replies)

-- A batch that may be posted.
unfoldable pub Fits : ℕ → List (List ℕ) → Type 0
Fits size batch = (0 < length batch) × (length batch ≤ size)

unfoldable pub loops : ℕ → List (List ℕ) → ℕ
loops size lines = (length lines + size - 1) / size

-- The rounds below `loops` start inside the lines, and those rounds cover them.
round_inside :
    (size : ℕ) (lines : List (List ℕ)) (i : ℕ)
    → 0 < size
    → i < loops size lines
    → i * size < length lines
unfolding loops
round_inside size lines i pos lt =
    let mono = mul-le-mul_right {m = suc i} {n = loops size lines} size (omega (arith, lt)) in
    let under = div-mul-le_self (length lines + size - 1) size in
    let succ : suc i * size ≡ i * size + size = omega arith in omega (arith, mono, under, succ, pos)

pub rounds_cover :
    (size : ℕ) (lines : List (List ℕ)) → 0 < size → length lines ≤ loops size lines * size
unfolding loops
rounds_cover size lines pos =
    let over = lt-div-mul-add {a = length lines + size - 1} {b = size} pos in
    omega (arith, over, pos)

-- The batch of a round is the part of the lines up to the next round's.
unfoldable pub Batch : ℕ → List (List ℕ) → ℕ → Type 0
Batch size lines i =
    (batch : List (List ℕ)) × (slice lines (i * size) (batch_end size lines i) ≡ some batch)
    × (batch ++ drop (suc i * size) lines ≡ drop (i * size) lines)
    × Fits size batch

batch_end-bounds :
    (size : ℕ) (lines : List (List ℕ)) (i : ℕ)
    → batch_end size lines i ≡ min (suc i * size) (length lines)
unfolding batch_end
batch_end-bounds size lines i = elim (Bool-cases (ltb (suc i * size) (length lines))) [
  | inl h ↦ rw h (omega (arith, ltb→lt _ _ h))
  | inr h ↦ rw h (omega (arith, ltb_false→le _ _ h))
]

slice_inside :
    (lines : List (List ℕ)) (start end : ℕ)
    → start ≤ end
    → end ≤ length lines
    → slice lines start end ≡ some (take (end - start) (drop start lines))
unfolding slice
slice_inside lines start end h g =
    let a : leb start end ≡ true = ground (arith, h) in
    let b : leb end (length lines) ≡ true = ground (arith, g) in rw (a, b) refl

pub round-Batch :
    (size : ℕ) (lines : List (List ℕ)) (i : ℕ)
    → 0 < size
    → i < loops size lines
    → Batch size lines i
unfolding Batch Fits
round-Batch size lines i pos lt =
    let start = i * size in
    let end = batch_end size lines i in
    let inside = round_inside size lines i pos lt in
    let bounds = batch_end-bounds size lines i in
    let succ : suc i * size ≡ i * size + size = omega arith in
    let up : start ≤ end = omega (arith, bounds, succ, inside) in
    let within : end ≤ length lines = omega (arith, bounds) in
    let len = length-take (end - start) (drop start lines) in
    let left = length-drop start lines in
    (
      take (end - start) (drop start lines),
      slice_inside lines start end up within,
      ap (λ t. take (end - start) (drop start lines) ++ t) (rest start end succ up bounds)
          ∙ take-drop (end - start) (drop start lines),
      (
        omega (arith, len, left, bounds, succ, inside, pos),
        omega (arith, len, left, bounds, succ, inside, pos),
      ),
    )
  where
    rest :
        (start end : ℕ)
        → suc i * size ≡ start + size
        → start ≤ end
        → end ≡ min (suc i * size) (length lines)
        → drop (suc i * size) lines ≡ drop (end - start) (drop start lines)
    rest start end succ up bounds = elim (Bool-cases (ltb (suc i * size) (length lines))) [
      | inl h ↦
          let lt = ltb→lt _ _ h in
          let at : suc i * size ≡ start + (end - start) = omega (arith, lt, bounds, up) in
          ap (λ k. drop k lines) at ∙ sym (drop-drop (end - start) start lines)
      | inr h ↦
          let ge = ltb_false→le _ _ h in
          drop_all (suc i * size) lines ge
          ∙ sym (
              drop-drop (end - start) start lines
              ∙ drop_all (start + (end - start)) lines (omega (arith, ge, bounds, up)))
    ]

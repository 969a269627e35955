-- ===== src/ReadFile/Counts.antt =====
-- main of multithreadReadfile/multiThreadRead.go: two readers send words to one channel, and a goroutine
-- counts them in a dictionary. The readers' goroutines
-- read the variable `current` of the loop that starts them.
use go_util.Prelude.{
  ℕ, zero, suc, ◌+◌, ◌≤◌, ◌≡◌, ap, ◌∙◌, inl, inr, Option, none, some, List, [], ◌∷◌, ◌++◌, length,
  if◌then◌else◌, Bool-cases, arith,
}
use go_util.Prelude.Dict.{Dict, bytes_key, same_bytes, same_bytes→eq, lookup, assign, lookup-assign}
use go_util.ReadFile.Words.{pieces, read}
use go_util.ReadFile.Words.Chunks.{all_words, gap, read-chunks}

abbrev pub Counts : Type 0
Counts = Dict (List ℕ) ℕ

-- dict[s], which is 0 where there is no entry.
unfoldable pub value : Option ℕ → ℕ
value none = 0
value (some n) = n

-- The loop over the channel: dict[s]++.
unfoldable pub tally : List (List ℕ) → Counts → Counts
tally [] dict = dict
tally (s ∷ words) dict = tally words (assign s (suc (value (lookup s dict))) dict)

-- The words of two senders in the order in which an unbuffered channel may bring them.
pub data Interleaving : List (List ℕ) → List (List ℕ) → List (List ℕ) → Type 0 where
  closed : Interleaving [] [] []
  from_first :
      {xs ys zs : List (List ℕ)} (x : List ℕ)
      → Interleaving xs ys zs
      → Interleaving (x ∷ xs) ys (x ∷ zs)
  from_second :
      {xs ys zs : List (List ℕ)} (y : List ℕ)
      → Interleaving xs ys zs
      → Interleaving xs (y ∷ ys) (y ∷ zs)

-- How often a word occurs.
unfoldable pub count : List ℕ → List (List ℕ) → ℕ
count key [] = 0
count key (s ∷ words) = (if same_bytes s key then 1 else 0) + count key words

count-append :
    (key : List ℕ) (xs ys : List (List ℕ)) → count key (xs ++ ys) ≡ count key xs + count key ys
unfolding count
count-append key [] ys = omega arith
count-append key (x ∷ xs) ys = omega (arith, count-append key xs ys)

count-Interleaving :
    (key : List ℕ) {xs ys zs : List (List ℕ)}
    → Interleaving xs ys zs
    → count key zs ≡ count key xs + count key ys
unfolding count
count-Interleaving key closed = omega arith
count-Interleaving key (from_first x i) = omega (arith, count-Interleaving key i)
count-Interleaving key (from_second y i) = omega (arith, count-Interleaving key i)

lookup-tally :
    (key : List ℕ) (words : List (List ℕ)) (dict : Counts)
    → value (lookup key (tally words dict)) ≡ value (lookup key dict) + count key words
unfolding tally count
lookup-tally key [] dict = omega arith
lookup-tally key (s ∷ words) dict =
    let after = lookup-assign key s (suc (value (lookup s dict))) dict in
    let rest = lookup-tally key words (assign s (suc (value (lookup s dict))) dict) in
    elim (Bool-cases (same_bytes s key)) [
      | inl e ↦
          let one : value (lookup key (assign s (suc (value (lookup s dict))) dict))
              ≡ suc (value (lookup s dict)) =
            unfold value in ap value (rw e at after) in
          let same : value (lookup s dict) ≡ value (lookup key dict) =
            ap (λ t. value (lookup t dict)) (same_bytes→eq s key e) in
          rw e (omega (arith, rest, one, same))
      | inr e ↦
          let kept : value (lookup key (assign s (suc (value (lookup s dict))) dict))
              ≡ value (lookup key dict) =
            ap value (rw e at after) in
          rw e (omega (arith, rest, kept))
    ]

-- `current` after so many rounds of main's loop.
unfoldable pub current : ℕ → ℕ → ℕ
current limit zero = 0
current limit (suc rounds) = current limit rounds + (limit + 1)

-- What a goroutine of main sends, which reads `current` when so many rounds are done. It starts in its
-- own round, but nothing makes it read `current` before the loop goes on.
unfoldable pub sent_by : (List ℕ → List ℕ) → ℕ → List ℕ → ℕ → List (List ℕ)
sent_by trim_space limit file rounds = read trim_space (current limit rounds) limit file

-- Where each of the two goroutines reads `current` in its own round, which the code does not make sure
-- of, then in whatever order their words come through the channel, the dictionary counts each word as
-- often as it stands before a space in a file of at most twice the limit and one byte, but for a word
-- that starts right where the second reader does, behind a space: that one is not counted.
pub counts-file :
    (trim_space : List ℕ → List ℕ) (limit : ℕ) (file key : List ℕ) {received : List (List ℕ)}
    (first_rounds second_rounds : ℕ)
    → first_rounds ≡ 0
    → second_rounds ≡ 1
    → length file ≤ suc limit + limit
    → Interleaving
        (sent_by trim_space limit file first_rounds)
        (sent_by trim_space limit file second_rounds)
        received
    → value (lookup key (tally received [])) + count key (gap trim_space limit file)
      ≡ count key (all_words trim_space (pieces file))
unfolding lookup value sent_by current
counts-file trim_space limit file key {received} first_rounds second_rounds one two fits order =
    let all = ap (count key) (read-chunks trim_space limit limit file fits) in
    let first = read trim_space 0 limit file in
    let second = read trim_space (suc limit) limit file in
    let at_first : sent_by trim_space limit file first_rounds ≡ first =
      ap (sent_by trim_space limit file) one in
    let offset : current limit 1 ≡ suc limit = omega arith in
    let at_second : sent_by trim_space limit file second_rounds ≡ second =
      ap (sent_by trim_space limit file) two ∙ ap (λ o. read trim_space o limit file) offset in
    let sums = count-Interleaving key order in
    let sum1 = ap (count key) at_first in
    let sum2 = ap (count key) at_second in
    let split = count-append key first (gap trim_space limit file ++ second) in
    let split2 = count-append key (gap trim_space limit file) second in
    omega (arith, all, split, split2, sums, sum1, sum2, lookup-tally key received [])

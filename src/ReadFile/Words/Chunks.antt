-- ===== src/ReadFile/Words/Chunks.antt =====
-- What two readers of multithreadReadfile/multiThreadRead.go read together.
use go_util.Prelude.{
  ℕ, zero, suc, ◌+◌, ◌-◌, ◌≤◌, ◌<◌, ◌≡◌, refl, sym, ap, ◌∙◌, ◌⊎◌, inl, inr, true, false, Bool,
  Option, none, some, List, [], ◌∷◌, ◌++◌, length, length-append, drop, get_elem?, append_assoc,
  ◌==◌, if◌then◌else◌, ltb, All, arith, lt→ltb, le→ltb_false, ltb→lt, ==→eq, Bool-cases,
  get_elem?-append, get_elem?-seam,
}
use go_util.ReadFile.Words.{pieces, send_word, read_loop, after_skip, read}
use go_util.ReadFile.Words.Spelling.{
  NoSpace, IsPiece, spell, Spelled, pieces-cons, pieces-tail, pieces-spell, pieces-Spelled,
}

-- Cutting and looking up on either side of a seam.
drop-left : (n : ℕ) (xs ys : List ℕ) → n ≤ length xs → drop n (xs ++ ys) ≡ drop n xs ++ ys
drop-left zero xs ys h = refl
drop-left (suc n) [] ys h = absurd (omega (arith, h))
drop-left (suc n) (x ∷ xs) ys h = drop-left n xs ys (omega (arith, h))

drop-right : (m n : ℕ) (xs ys : List ℕ) → m ≡ length xs + n → drop m (xs ++ ys) ≡ drop n ys
drop-right m n [] ys h = let same : m ≡ n = omega (arith, h) in ap (λ k. drop k ys) same
drop-right zero n (x ∷ xs) ys h = absurd (omega (arith, h))
drop-right (suc m) n (x ∷ xs) ys h = drop-right m n xs ys (omega (arith, h))

get_elem?-right :
    (m n : ℕ) (xs ys : List ℕ) → m ≡ length xs + n → get_elem? (xs ++ ys) m ≡ get_elem? ys n
get_elem?-right m n [] ys h = let same : m ≡ n = omega (arith, h) in ap (get_elem? ys) same
get_elem?-right zero n (x ∷ xs) ys h = absurd (omega (arith, h))
get_elem?-right (suc m) n (x ∷ xs) ys h = get_elem?-right m n xs ys (omega (arith, h))

drop-NoSpace : (n : ℕ) (bytes : List ℕ) → NoSpace bytes → NoSpace (drop n bytes)
drop-NoSpace zero bytes h = h
drop-NoSpace (suc n) [] h = tt
drop-NoSpace (suc n) (c ∷ bytes) h = drop-NoSpace n bytes h.1

unfoldable pub is_space : Option ℕ → Bool
is_space none = false
is_space (some c) = c == 32

NoSpace-is_space : (bytes : List ℕ) (n : ℕ) → NoSpace bytes → is_space (get_elem? bytes n) ≡ false
unfolding is_space
NoSpace-is_space [] n h = refl
NoSpace-is_space (c ∷ bytes) zero h = h.0
NoSpace-is_space (c ∷ bytes) (suc n) h = NoSpace-is_space bytes n h.1

-- Inside of a piece there is no space, and what is cut from its inside is a piece.
inside-IsPiece :
    (b rest : List ℕ) (n : ℕ)
    → IsPiece b
    → suc n < length b
    → (is_space (get_elem? (b ++ rest) n) ≡ false) × IsPiece (drop (suc n) b)
unfolding IsPiece is_space
inside-IsPiece b rest n (w, e, h) lt =
    let len : length b ≡ length w + 1 = ap length e ∙ length-append w (32 ∷ []) in
    let at : get_elem? (b ++ rest) n ≡ get_elem? w n =
      ap (λ t. get_elem? (t ++ rest) n) e
      ∙ ap (λ t. get_elem? t n) (append_assoc w (32 ∷ []) rest)
      ∙ get_elem?-append w (32 ∷ rest) n (omega (arith, len, lt)) in
    (
      ap is_space at ∙ NoSpace-is_space w n h,
      (
        drop (suc n) w,
        ap (drop (suc n)) e ∙ drop-left (suc n) w (32 ∷ []) (omega (arith, len, lt)),
        drop-NoSpace (suc n) w h,
      ),
    )

end_of_piece :
    (b rest : List ℕ) (n : ℕ)
    → IsPiece b
    → suc n ≡ length b
    → is_space (get_elem? (b ++ rest) n) ≡ true
unfolding IsPiece is_space
end_of_piece b rest n (w, e, h) eq =
    let len : length b ≡ length w + 1 = ap length e ∙ length-append w (32 ∷ []) in
    let last : n ≡ length w = omega (arith, len, eq) in
    ap (λ t. is_space (get_elem? (t ++ rest) n)) e
    ∙ ap (λ t. is_space (get_elem? t n)) (append_assoc w (32 ∷ []) rest)
    ∙ ap (λ k. is_space (get_elem? (w ++ 32 ∷ rest) k)) last
    ∙ ap is_space (get_elem?-seam w 32 rest)

trichotomy : (x y : ℕ) → (x < y) ⊎ (x ≡ y) ⊎ (y < x)
trichotomy x y = elim (Bool-cases (ltb x y)) [
  | inl h ↦ inl (ltb→lt x y h)
  | inr h ↦ elim (Bool-cases (x == y)) [
    | inl e ↦ inr (inl (==→eq x y e))
    | inr e ↦ inr (inr (ground (arith, h, e)))
  ]
]

module _ (trim_space : List ℕ → List ℕ) where
  -- The words of all pieces, and of the first.
  unfoldable pub all_words : List (List ℕ) → List (List ℕ)
  all_words [] = []
  all_words (b ∷ bs) = send_word trim_space b ++ all_words bs

  unfoldable pub first_word : List (List ℕ) → List (List ℕ)
  first_word [] = []
  first_word (b ∷ bs) = send_word trim_space b

  -- The word that starts right behind a chunk, where the byte at its limit is a space.
  unfoldable pub gap : ℕ → List ℕ → List (List ℕ)
  gap limit file =
      if is_space (get_elem? file limit) then first_word (pieces (drop (suc limit) file)) else []

  read_loop_over :
      (limit size : ℕ) (bs : List (List ℕ)) → limit < size → read_loop trim_space limit size bs ≡ []
  unfolding read_loop
  read_loop_over limit size [] h = refl
  read_loop_over limit size (b ∷ bs) h = rw (lt→ltb limit size h) refl

  read_loop_all :
      (limit size : ℕ) (bs : List (List ℕ)) (tail : List ℕ)
      → size + length (spell bs tail) ≤ limit
      → read_loop trim_space limit size bs ≡ all_words bs
  unfolding read_loop all_words spell
  read_loop_all limit size [] tail h = refl
  read_loop_all limit size (b ∷ bs) tail h =
      let len = length-append b (spell bs tail) in
      let on = le→ltb_false limit size (omega (arith, h, len)) in
      rw on (
        ap (λ t. send_word trim_space b ++ t)
          (read_loop_all limit (size + length b) bs tail (omega (arith, h, len))))

  first-after_skip :
      (limit : ℕ) (bs : List (List ℕ)) (tail : List ℕ)
      → length (spell bs tail) ≤ limit
      → first_word bs ++ after_skip trim_space limit bs ≡ all_words bs
  unfolding first_word after_skip all_words spell
  first-after_skip limit [] tail h = refl
  first-after_skip limit (b ∷ bs) tail h =
      let len = length-append b (spell bs tail) in
      ap (λ t. send_word trim_space b ++ t) (read_loop_all limit 0 bs tail (omega (arith, h, len)))

  -- Behind n + 1 bytes of a file: the gap, and what a reader from there reads.
  second : ℕ → ℕ → List ℕ → List (List ℕ)
  second limit n file = gap n file ++ after_skip trim_space limit (pieces (drop (suc n) file))

  -- The limit lies inside of a piece.
  second_inside :
      (limit n : ℕ) (b : List ℕ) (bs : List (List ℕ)) (tail : List ℕ)
      → All IsPiece (b ∷ bs)
      → NoSpace tail
      → suc n < length b
      → length (spell bs tail) ≤ limit
      → second limit n (b ++ spell bs tail) ≡ all_words bs
  unfolding second gap after_skip
  second_inside limit n b bs tail h ht lt fits =
      let (no_space, piece) = inside-IsPiece b (spell bs tail) n h.0 lt in
      let cut : pieces (drop (suc n) (b ++ spell bs tail)) ≡ drop (suc n) b ∷ bs =
        ap pieces (drop-left (suc n) b (spell bs tail) (omega (arith, lt)))
        ∙ pieces-cons (drop (suc n) b) (spell bs tail) piece
        ∙ ap (λ t. drop (suc n) b ∷ t) (pieces-spell bs tail h.1 ht) in
      rw (no_space, cut) (read_loop_all limit 0 bs tail (omega (arith, fits)))

  -- The limit is the end of a piece.
  second_at_end :
      (limit n : ℕ) (b : List ℕ) (bs : List (List ℕ)) (tail : List ℕ)
      → All IsPiece (b ∷ bs)
      → NoSpace tail
      → suc n ≡ length b
      → length (spell bs tail) ≤ limit
      → second limit n (b ++ spell bs tail) ≡ all_words bs
  unfolding second gap
  second_at_end limit n b bs tail h ht eq fits =
      let space = end_of_piece b (spell bs tail) n h.0 eq in
      let cut : pieces (drop (suc n) (b ++ spell bs tail)) ≡ bs =
        ap pieces (drop-right (suc n) 0 b (spell bs tail) (omega (arith, eq)))
        ∙ pieces-spell bs tail h.1 ht in
      rw (space, cut) (first-after_skip limit bs tail fits)

  -- The limit lies behind a piece.
  second_behind :
      (limit n m : ℕ) (b rest : List ℕ)
      → n ≡ length b + m
      → second limit n (b ++ rest) ≡ second limit m rest
  unfolding second gap
  second_behind limit n m b rest eq =
      rw (get_elem?-right n m b rest eq, drop-right (suc n) (suc m) b rest (omega (arith, eq))) refl

  -- From a piece that starts at `size`, at most the limit, which is n bytes further.
  rejoin :
      (limit limit2 size n : ℕ) (bs : List (List ℕ)) (tail : List ℕ)
      → size + n ≡ limit
      → length (spell bs tail) ≤ suc n + limit2
      → All IsPiece bs
      → NoSpace tail
      → read_loop trim_space limit size bs ++ second limit2 n (spell bs tail) ≡ all_words bs
  unfolding read_loop all_words spell
  rejoin limit limit2 size n [] tail at fits h ht =
      unfold second gap after_skip first_word in
      let none_left = pieces-tail (drop (suc n) tail) (drop-NoSpace (suc n) tail ht) in
      simp (NoSpace-is_space tail n ht, none_left) refl
  rejoin limit limit2 size n (b ∷ bs) tail at fits h ht =
      let on = le→ltb_false limit size (omega (arith, at)) in
      let len = length-append b (spell bs tail) in
      let over = read_loop_over limit (size + length b) bs in
      rw on (
        append_assoc (send_word trim_space b) (read_loop trim_space limit (size + length b) bs) _
        ∙ ap (λ t. send_word trim_space b ++ t)
            (elim (trichotomy (suc n) (length b)) [
              | inl lt ↦
                  rw (over (omega (arith, at, lt)))
                    (second_inside limit2 n b bs tail h ht lt (omega (arith, fits, len, lt)))
              | inr (inl eq) ↦
                  rw (over (omega (arith, at, eq)))
                    (second_at_end limit2 n b bs tail h ht eq (omega (arith, fits, len, eq)))
              | inr (inr gt) ↦
                  let split : n ≡ length b + (n - length b) = omega (arith, gt) in
                  ap (λ t. read_loop trim_space limit (size + length b) bs ++ t)
                    (second_behind limit2 n (n - length b) b (spell bs tail) split)
                  ∙ rejoin limit limit2 (size + length b) (n - length b) bs tail
                      (omega (arith, at, gt)) (omega (arith, fits, len, gt)) h.1 ht
            ]))

  read-later :
      (limit limit2 : ℕ) (file : List ℕ)
      → read trim_space (suc limit) limit2 file
        ≡ after_skip trim_space limit2 (pieces (drop (suc limit) file))
  unfolding read
  read-later limit limit2 file =
      let later : (suc limit == 0) ≡ false = ground arith in rw (later) refl

  -- Two readers, the second from the byte behind the first one's limit, with a limit that reaches
  -- the end of the file: what they read is every word of the file that a space follows, but for
  -- the word that starts at the second one's first byte, if one does.
  pub read-chunks :
      (limit limit2 : ℕ) (file : List ℕ)
      → length file ≤ suc limit + limit2
      → read trim_space 0 limit file ++ (gap limit file ++ read trim_space (suc limit) limit2 file)
        ≡ all_words (pieces file)
  unfolding read second Spelled
  read-chunks limit limit2 file fits =
      let (bs, tail, same, h, ht) = pieces-Spelled file in
      let whole : pieces file ≡ bs = ap pieces same ∙ pieces-spell bs tail h ht in
      let all = rejoin limit limit2 0 limit bs tail (omega arith) (rw same at fits) h ht in
      rw (whole, read-later limit limit2 file) (rw (sym same) at all)

-- ===== src/ReadFile/Words/Spelling.antt =====
-- A file is its pieces and what follows the last space.
use go_util.Prelude.{
  ℕ, ◌≡◌, refl, sym, ap, ◌∙◌, inl, inr, false, List, [], ◌∷◌, ◌++◌, append_assoc, append-nil, ◌==◌,
  All, All-append, Bool-cases, ==→eq,
}
use go_util.ReadFile.Words.{pieces_from, pieces}

abbrev pub NoSpace : List ℕ → Type 0
NoSpace bytes = All (λ c. (c == 32) ≡ false) bytes

unfoldable pub IsPiece : List ℕ → Type 0
IsPiece b = (w : List ℕ) × (b ≡ w ++ 32 ∷ []) × NoSpace w

unfoldable pub spell : List (List ℕ) → List ℕ → List ℕ
spell [] tail = tail
spell (b ∷ bs) tail = b ++ spell bs tail

pieces_from-word :
    (current w rest : List ℕ)
    → NoSpace w
    → pieces_from current (w ++ 32 ∷ rest) ≡ (current ++ (w ++ 32 ∷ [])) ∷ pieces_from [] rest
unfolding pieces_from
pieces_from-word current [] rest h = refl
pieces_from-word current (c ∷ w) rest h = rw h.0 (
    pieces_from-word (current ++ c ∷ []) w rest h.1
    ∙ ap (λ t. t ∷ pieces_from [] rest) (append_assoc current (c ∷ []) (w ++ 32 ∷ [])))

pub pieces-cons : (b rest : List ℕ) → IsPiece b → pieces (b ++ rest) ≡ b ∷ pieces rest
unfolding pieces IsPiece
pieces-cons b rest (w, e, h) =
    ap (λ t. pieces_from [] (t ++ rest)) e
    ∙ ap (pieces_from []) (append_assoc w (32 ∷ []) rest)
    ∙ pieces_from-word [] w rest h
    ∙ ap (λ t. t ∷ pieces_from [] rest) (sym e)

pieces_from-tail : (current tail : List ℕ) → NoSpace tail → pieces_from current tail ≡ []
unfolding pieces_from
pieces_from-tail current [] h = refl
pieces_from-tail current (c ∷ tail) h = rw h.0 (pieces_from-tail (current ++ c ∷ []) tail h.1)

pub pieces-tail : (tail : List ℕ) → NoSpace tail → pieces tail ≡ []
unfolding pieces
pieces-tail tail h = pieces_from-tail [] tail h

pub pieces-spell :
    (bs : List (List ℕ)) (tail : List ℕ)
    → All IsPiece bs
    → NoSpace tail
    → pieces (spell bs tail) ≡ bs
unfolding spell
pieces-spell [] tail h ht = pieces-tail tail ht
pieces-spell (b ∷ bs) tail h ht =
    pieces-cons b (spell bs tail) h.0 ∙ ap (λ t. b ∷ t) (pieces-spell bs tail h.1 ht)

unfoldable pub Spelled : List ℕ → Type 0
Spelled file =
    (bs : List (List ℕ)) × (tail : List ℕ) × (file ≡ spell bs tail) × All IsPiece bs × NoSpace tail

pieces_from-Spelled : (current file : List ℕ) → NoSpace current → Spelled (current ++ file)
unfolding Spelled spell IsPiece
pieces_from-Spelled current [] h = ([], current, append-nil current, tt, h)
pieces_from-Spelled current (c ∷ file) h = elim (Bool-cases (c == 32)) [
  | inl e ↦
      let (bs, tail, same, hb, ht) = pieces_from-Spelled [] file tt in
      let is : c ≡ 32 = ==→eq c 32 e in
      (
        (current ++ c ∷ []) ∷ bs,
        tail,
        sym (append_assoc current (c ∷ []) file) ∙ ap (λ t. (current ++ c ∷ []) ++ t) same,
        ((current, ap (λ t. current ++ t ∷ []) is, h), hb),
        ht,
      )
  | inr e ↦
      let all = All-append (λ x. (x == 32) ≡ false) current (c ∷ []) h (e, tt) in
      let (bs, tail, same, hb, ht) = pieces_from-Spelled (current ++ c ∷ []) file all in
      (bs, tail, sym (append_assoc current (c ∷ []) file) ∙ same, hb, ht)
]

pub pieces-Spelled : (file : List ℕ) → Spelled file
pieces-Spelled file = pieces_from-Spelled [] file tt

-- ===== src/Socks/Request/Reading.antt =====
-- A message that arrives in pieces, as io.ReadAtLeast and fillUp put it together again.
use go_util.Prelude.{
  ℕ, ◌+◌, ◌-◌, ◌≤◌, ◌<◌, ◌≡◌, refl, sym, ap, ◌∙◌, arith, inl, inr, true, false, List, [], ◌∷◌, ◌++◌,
  map, append_assoc, append-nil, length, length-append, get_elem?, get_elem?-append, replicate, leb,
  ◌==◌, Bool-cases, lt→ltb, Outcome, ok,
}
use go_util.Socks.Conn.{
  Arrival, arrived, ended, Conn, Error, gather, read_at_least, read_full, buffer, before,
}
use go_util.Socks.Request.{fill_up}

abbrev pub concat : List (List ℕ) → List ℕ
concat [] = []
concat (xs ∷ rest) = xs ++ concat rest

-- A connection that these pieces arrive on, before all that arrives on `c`.
abbrev pub pieces : List (List ℕ) → Conn → Conn
pieces chunks c = record c { reads = map arrived chunks ++ c.reads }

-- With nothing wanted, nothing is read.
gather_nothing : (room : ℕ) (reads : List Arrival) → gather 0 room reads ≡ (ok [], reads)
unfolding gather
gather_nothing room [] = refl
gather_nothing room (arrived xs ∷ rest) = refl
gather_nothing room (ended eof xs ∷ rest) = refl

record Gathered (tail : List Arrival) (least : ℕ) (chunks : List (List ℕ))
    (r : Outcome Error (List ℕ) × List Arrival) : Type 0 where
  got : List ℕ
  left : List (List ℕ)
  result : r ≡ (ok got, map arrived left ++ tail)
  same : got ++ concat left ≡ concat chunks
  enough : least ≤ length got

-- A piece that is read whole comes before what is gathered after it.
gather-arrived :
    (tail : List Arrival) (least room : ℕ) (xs : List ℕ) (rest : List (List ℕ))
    → leb least 0 ≡ false
    → length xs ≤ room
    → Gathered tail
        (least - length xs)
        rest
        (gather (least - length xs) (room - length xs) (map arrived rest ++ tail))
    → Gathered tail least (xs ∷ rest) (gather least room (map arrived (xs ∷ rest) ++ tail))
unfolding gather
gather-arrived tail least room xs rest e h later = record {
  got = xs ++ later.got;
  left = later.left;
  result = rw (gather, e, fits) (ap (before xs) later.result);
  same = rw (append_assoc xs later.got (concat later.left)) (ap (λ t. xs ++ t) later.same);
  enough = omega (arith, length-append xs later.got, later.enough);
}
  where
    fits : leb (length xs) room ≡ true
    fits = ground arith

gather-Gathered :
    (tail : List Arrival) (least room : ℕ) (chunks : List (List ℕ))
    → least ≤ length (concat chunks)
    → length (concat chunks) ≤ room
    → Gathered tail least chunks (gather least room (map arrived chunks ++ tail))
unfolding gather
gather-Gathered tail least room [] h1 h2 = record {
  got = [];
  left = [];
  result = rw nothing (gather_nothing room tail);
  same = refl;
  enough = h1;
}
  where
    nothing : least ≡ 0
    nothing = omega arith
gather-Gathered tail least room (xs ∷ rest) h1 h2 = elim (Bool-cases (leb least 0)) [
  | inl e ↦ record {
    got = [];
    left = xs ∷ rest;
    result = rw (gather, e) refl;
    same = refl;
    enough = ground arith;
  }
  | inr e ↦
      gather-arrived tail least room xs rest e (omega (arith, length-append xs (concat rest))) (
        gather-Gathered tail (least - length xs) (room - length xs) rest
          (omega (arith, length-append xs (concat rest)))
          (omega (arith, length-append xs (concat rest))))
]

-- What a call on the connection leaves of a message: nothing.
pub record Whole {A : Type 0} (a : A) (c : Conn) (r : Outcome Error A × Conn) : Type 0 where
  pub left : List (List ℕ)
  pub result : r ≡ (ok a, pieces left c)
  pub nothing_left : concat left ≡ []

empty_of_length : {A : Type 0} (xs : List A) → length xs ≤ 0 → xs ≡ []
empty_of_length [] h = refl
empty_of_length (x ∷ xs) h = absurd (omega arith)

-- The first read of a message.
pub record Begun (least : ℕ) (msg : List ℕ) (c : Conn) (r : Outcome Error (List ℕ) × Conn)
    : Type 0 where
  pub got : List ℕ
  pub left : List (List ℕ)
  pub result : r ≡ (ok got, pieces left c)
  pub same : got ++ concat left ≡ msg
  pub enough : least ≤ length got

pub read_at_least-Begun :
    (least room : ℕ) (msg : List ℕ) (chunks : List (List ℕ)) (c : Conn)
    → concat chunks ≡ msg
    → least ≤ length msg
    → length msg ≤ room
    → Begun least msg c (read_at_least least room (pieces chunks c))
unfolding read_at_least
read_at_least-Begun least room msg chunks c e h1 h2 =
    let g = gather-Gathered c.reads least room chunks (rw e h1) (rw e h2) in
    record {
      got = g.got;
      left = g.left;
      result = rw g.result refl;
      same = g.same ∙ e;
      enough = g.enough;
    }

-- The rest of it.
read_full-Begun :
    (n m : ℕ) (chunks : List (List ℕ)) (c : Conn)
    → n + length (concat chunks) ≡ m
    → Begun (m - n) (concat chunks) c (read_full n m (pieces chunks c))
unfolding read_full
read_full-Begun n m chunks c e =
    read_at_least-Begun (m - n) (m - n) (concat chunks) chunks c refl (omega arith) (omega arith)

pub fill_up-Whole :
    (extra : Error) (got msg : List ℕ) (size : ℕ) (left : List (List ℕ)) (c : Conn)
    → got ++ concat left ≡ msg
    → size ≡ length msg
    → Whole msg c (fill_up extra got size (pieces left c))
unfolding fill_up
fill_up-Whole extra got msg size left c e es = elim (Bool-cases (length got == size)) [
  | inl h ↦
      let none_left = empty_of_length (concat left) (ground (arith, lengths)) in
      record {
        left = left;
        result = rw h (ap (λ t. (ok t, pieces left c)) (seam left e none_left));
        nothing_left = none_left;
      }
  | inr h ↦
      let b = read_full-Begun (length got) size left c lengths in
      let none_left =
        empty_of_length (concat b.left) (
          omega
            (arith, lengths, b.enough, ap length b.same, length-append b.got (concat b.left))) in
      record {
        left = b.left;
        result =
            rw (h, lt→ltb (length got) size (ground (arith, lengths)), b.result)
              (ap (λ t. (ok t, pieces b.left c))
                (ap (λ t. got ++ t) (seam b.left b.same none_left) ∙ e));
        nothing_left = none_left;
      }
]
  where
    lengths : length got + length (concat left) ≡ size
    lengths = omega (arith, length-append got (concat left), ap length e, es)

    seam :
        {xs ys : List ℕ} (rest : List (List ℕ))
        → xs ++ concat rest ≡ ys
        → concat rest ≡ []
        → xs ≡ ys
    seam {xs} rest p q = sym (append-nil xs) ∙ ap (λ t. xs ++ t) (sym q) ∙ p

-- Below what was read, the buffer holds the message.
pub get_elem?-buffer :
    (size i : ℕ) (got left msg : List ℕ)
    → got ++ left ≡ msg
    → i < length got
    → get_elem? (buffer size got) i ≡ get_elem? msg i
get_elem?-buffer size i got left msg e h =
    get_elem?-append got (replicate (size - length got) 0) i h
    ∙ sym (get_elem?-append got left i h)
    ∙ ap (λ t. get_elem? t i) e

-- ===== src/Logs/Disk/Names.antt =====
-- A number that the search finds is free, one is found where one is free, and only old files are removed.
use go_util.Prelude.{
  ℕ, ◌+◌, ◌≤◌, ◌<◌, ◌≡◌, refl, ap, sym, ◌∙◌, arith, zero, suc, Bool, true, false, ◌&&◌, Option,
  none, some, inl, inr, List, [], ◌∷◌, ◌++◌, append_assoc, append-nil, Bool-cases, ltb, ltb→lt,
  ltb_false→le, All,
}
use go_util.Logs.Disk.{
  Rotated, is_there, has_name, seconds, is_old, remove_old, taken, put, find_free, contents_of,
}

pub find_free-free :
    (more date num : ℕ) (files : List Rotated) (n : ℕ)
    → find_free more date num files ≡ some n
    → taken date n files ≡ false
unfolding find_free
find_free-free zero date num files n e = absurd (cc e)
find_free-free (suc more) date num files n e = elim (Bool-cases (taken date num files)) [
  | inl h ↦ find_free-free more date (suc num) files n (rw h at e)
  | inr h ↦ cc (h, rw h at e)
]

-- A file with a free name comes after the others.
pub contents_of-put :
    (new : Rotated) (files : List Rotated)
    → taken new.date new.num files ≡ false
    → contents_of (put new files) ≡ contents_of files ++ new.content
unfolding contents_of put taken
contents_of-put new [] h = append-nil new.content
contents_of-put new (f ∷ rest) h = elim (Bool-cases (has_name new.date new.num f)) [
  | inl e ↦ absurd (cc (h, e))
  | inr e ↦ rw e (
      ap (λ t. f.content ++ t) (contents_of-put new rest (rw e at h))
      ∙ sym (append_assoc f.content (contents_of rest) new.content))
]

-- Among the numbers that it tries, the search finds one where one is free.
pub find_free-some :
    (more date num n : ℕ) (files : List Rotated)
    → num ≤ n
    → n < num + more
    → taken date n files ≡ false
    → (k : ℕ) × (find_free more date num files ≡ some k)
unfolding find_free
find_free-some zero date num n files h1 h2 h = absurd (omega arith)
find_free-some (suc more) date num n files h1 h2 h = elim (Bool-cases (taken date num files)) [
  | inr e ↦ (num, rw e refl)
  | inl e ↦
      let (k, p) = find_free-some more date (suc num) n files (different e) (omega arith) h in
      (k, rw e p)
]
  where
    different : taken date num files ≡ true → suc num ≤ n
    different e = elim (Bool-cases (ltb num n)) [
      | inl lt ↦ ltb→lt num n lt
      | inr ge ↦
          let same : num ≡ n = omega (arith, ltb_false→le num n ge) in absurd (cc (e, h, same))
    ]

-- What holds of every file, and of a new one, still does when it is there.
pub All-put :
    (P : Rotated → Type 0) (new : Rotated) (files : List Rotated)
    → P new
    → All P files
    → All P (put new files)
unfolding put
All-put P new [] h all = (h, tt)
All-put P new (f ∷ rest) h all = elim (Bool-cases (has_name new.date new.num f)) [
  | inl e ↦ rw e (All-put P new rest h all.1)
  | inr e ↦ rw e (all.0, All-put P new rest h all.1)
]

pub contents_of-remove_old :
    (now days : ℕ) (files : List Rotated)
    → contents_of (remove_old now days files) ≡ contents_of files
unfolding contents_of remove_old
contents_of-remove_old now days [] = refl
contents_of-remove_old now days (f ∷ rest) =
    let later = ap (λ t. f.content ++ t) (contents_of-remove_old now days rest) in
    elim (Bool-cases (is_old now days f)) [ inl e ↦ rw e later | inr e ↦ rw e later ]

-- A removed file was last changed more than so many days before.
unfoldable pub WasOld : ℕ → ℕ → Option ℕ → Type 0
WasOld days modified none = Unit
WasOld days modified (some time) = modified + seconds days < time

pub remove_old-WasOld :
    (now days : ℕ) (files : List Rotated)
    → All (λ f. WasOld days f.modified f.deleted_at) files
    → All (λ f. WasOld days f.modified f.deleted_at) (remove_old now days files)
unfolding remove_old WasOld
remove_old-WasOld now days [] all = tt
remove_old-WasOld now days (f ∷ rest) all = elim (Bool-cases (is_old now days f)) [
  | inl e ↦ rw e (old e, remove_old-WasOld now days rest all.1)
  | inr e ↦ rw e (all.0, remove_old-WasOld now days rest all.1)
]
  where
    last : (b c : Bool) → (b && c) ≡ true → c ≡ true
    last true c h = h
    last false c h = absurd (cc h)

    old : is_old now days f ≡ true → f.modified + seconds days < now
    old e = ltb→lt _ now (last (is_there f.deleted_at) _ e)

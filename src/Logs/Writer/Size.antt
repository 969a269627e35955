-- ===== src/Logs/Writer/Size.antt =====
-- Rotation bounds the size of every file.
use go_util.Prelude.{
  ℕ, ◌+◌, ◌≤◌, ◌<◌, ◌≡◌, refl, ap, arith, Bool, true, false, none, some, inl, inr, List, [], ◌∷◌,
  ◌++◌, length, length-append, Bool-cases, All, ltb, leb, not, ◌&&◌, ◌||◌, ◌==◌,
}
use go_util.Logs.Disk.{taken}
use go_util.Logs.Disk.Names.{find_free-some, All-put}
use go_util.Logs.Writer.{
  Env, LogWriter, Done, content_of, opened, init_fd, start_logger, moved, rotate_to, rotate_file,
  cleaning, do_rotate, is_due, counted, docheck, line_of, landed, print, write_msg, ends_in_newline,
}

-- Every call of the system succeeds, and the stamp is the usual one of 20 bytes or shorter.
pub record IsKind (env : Env) : Type 0 where
  pub renames : env.rename_ok ≡ true
  pub opens : env.open_ok ≡ true
  pub stats : env.stat_ok ≡ true
  pub writes : env.wrote ≡ none
  pub stamp_short : length env.stamp ≤ 20

-- The count is not below the log's size, and no file reaches the limit.
pub record IsSized (limit : ℕ) (w : LogWriter) : Type 0 where
  pub counted_all : length (content_of w.log) ≤ w.cur_size
  pub log_small : w.cur_size < limit
  pub rotated_small : All (λ f. length f.content < limit) w.rotated

length-line_of :
    (env : Env) (msg : List ℕ) → IsKind env → length (line_of env msg) < 24 + length msg
unfolding line_of
length-line_of env msg kind = elim (Bool-cases (ends_in_newline msg)) [
  | inl e ↦
      rw e
        (omega (arith, kind.stamp_short, length-append env.stamp (msg ++ []), length-append msg []))
  | inr e ↦ rw e (
      omega (
        arith,
        kind.stamp_short,
        length-append env.stamp (msg ++ (10 ∷ [])),
        length-append msg (10 ∷ []),
      ))
]

-- A rotation that succeeds leaves an empty log.
record IsFresh (limit : ℕ) (d : Done) : Type 0 where
  no_error : d.0 ≡ none
  log_empty : d.1.log ≡ some []
  count_empty : d.1.cur_size ≡ 0
  rotated_small : All (λ f. length f.content < limit) d.1.rotated

start_logger-IsFresh :
    (env : Env) (num limit : ℕ) (w : LogWriter)
    → IsKind env
    → IsSized limit w
    → IsFresh limit (cleaning (start_logger env (moved env num w)))
unfolding start_logger moved init_fd opened cleaning
start_logger-IsFresh env num limit w kind h =
    simp (kind.opens, kind.stats)
      (record {
        no_error = refl;
        log_empty = refl;
        count_empty = refl;
        rotated_small =
            All-put (λ f. length f.content < limit) _ w.rotated
              (omega (arith, h.counted_all, h.log_small)) h.rotated_small;
      })

print-IsSized :
    (env : Env) (msg : List ℕ) (limit : ℕ) (w : LogWriter)
    → IsKind env
    → length (content_of w.log) + 24 + length msg ≤ w.cur_size
    → w.cur_size < limit
    → All (λ f. length f.content < limit) w.rotated
    → IsSized limit (print env msg w)
unfolding print landed
print-IsSized env msg limit w kind h small all = elim (Bool-cases w.is_open) [
  | inl e ↦
      simp (e, kind.writes)
        (record {
          counted_all = omega (
            arith,
            h,
            length-append (content_of w.log) (line_of env msg),
            length-line_of env msg kind,
          );
          log_small = small;
          rotated_small = all;
        })
  | inr e ↦
      simp e (record { counted_all = omega (arith, h); log_small = small; rotated_small = all })
]

do_rotate-IsFresh :
    (env : Env) (n limit : ℕ) (c : List ℕ) (w : LogWriter)
    → IsKind env
    → IsSized limit w
    → w.log ≡ some c
    → 1 ≤ n
    → n < 1000
    → taken env.date n w.rotated ≡ false
    → IsFresh limit (do_rotate env w)
unfolding do_rotate rotate_file rotate_to
do_rotate-IsFresh env n limit c w kind h present least most free =
    let (k, found) = find_free-some 999 env.date 1 n w.rotated least (omega (arith, most)) free in
    simp (present, found, kind.renames) (start_logger-IsFresh env k limit w kind h)

-- Once a message is counted, the log has room for it.
record HasRoom (size limit : ℕ) (w : LogWriter) : Type 0 where
  room : length (content_of w.log) + size ≤ w.cur_size
  log_small : w.cur_size < limit
  rotated_small : All (λ f. length f.content < limit) w.rotated

counted-HasRoom :
    (size limit : ℕ) (d : Done)
    → size < limit
    → IsFresh limit d
    → HasRoom size limit (counted size d)
unfolding counted
counted-HasRoom size limit (none, w) h fresh = record {
  room = omega (arith, fresh.count_empty, ap (λ t. length (content_of t)) fresh.log_empty);
  log_small = omega (arith, fresh.count_empty, h);
  rotated_small = fresh.rotated_small;
}
counted-HasRoom size limit (some e, w) h fresh = absurd (cc fresh.no_error)

size_not_due :
    (rotate lines day : Bool) (most size : ℕ)
    → rotate ≡ true
    → 0 < most
    → (rotate && (lines || ((ltb 0 most && leb most size) || day))) ≡ false
    → size < most
size_not_due false lines day most size on positive e = absurd (cc on)
size_not_due true true day most size on positive e = absurd (cc e)
size_not_due true false true most size on positive e = ground arith
size_not_due true false false most size on positive e = ground arith

not_due :
    (env : Env) (w : LogWriter)
    → w.rotate ≡ true
    → 0 < w.max_size
    → is_due env w ≡ false
    → w.cur_size < w.max_size
unfolding is_due
not_due env w on positive e =
    size_not_due w.rotate (ltb 0 w.max_lines && leb w.max_lines w.cur_lines)
      (w.daily && not (env.day == w.open_date)) w.max_size w.cur_size on positive e

docheck-HasRoom :
    (env : Env) (size n limit : ℕ) (c : List ℕ) (w : LogWriter)
    → IsKind env
    → w.max_size + size ≤ limit
    → w.rotate ≡ true
    → 0 < w.max_size
    → w.log ≡ some c
    → 1 ≤ n
    → n < 1000
    → taken env.date n w.rotated ≡ false
    → IsSized limit w
    → HasRoom size limit (docheck env size w)
unfolding docheck counted
docheck-HasRoom env size n limit c w kind fits on positive present least most free h =
    elim (Bool-cases (is_due env w)) [
      | inl due ↦ simp due (
          counted-HasRoom size limit (do_rotate env w) (omega (arith, fits, positive))
            (do_rotate-IsFresh env n limit c w kind h present least most free))
      | inr due ↦ simp due (counted-plain (not_due env w on positive due))
    ]
  where
    counted-plain : w.cur_size < w.max_size → HasRoom size limit (counted size (none, w))
    counted-plain below = record {
      room = omega (arith, h.counted_all);
      log_small = omega (arith, fits, below);
      rotated_small = h.rotated_small;
    }

-- With rotation on, a size limit, a free number for today's date and no call that fails, WriteMsg of
-- a message of at most `longest` bytes keeps every file below the limit and 24 bytes and `longest`
-- more, and the count not below the log's size.
pub write_msg-IsSized :
    (env : Env) (msg : List ℕ) (msg_level longest n : ℕ) (c : List ℕ) (w : LogWriter)
    → IsKind env
    → length msg ≤ longest
    → w.rotate ≡ true
    → 0 < w.max_size
    → w.log ≡ some c
    → 1 ≤ n
    → n < 1000
    → taken env.date n w.rotated ≡ false
    → IsSized (w.max_size + 24 + longest) w
    → IsSized (w.max_size + 24 + longest) (write_msg env msg msg_level w)
unfolding write_msg
write_msg-IsSized env msg msg_level longest n c w kind short on positive present least most free h =
    elim (Bool-cases (ltb w.level msg_level)) [
      | inl e ↦ simp e h
      | inr e ↦
          let r =
            docheck-HasRoom env (24 + length msg) n (w.max_size + 24 + longest) c w kind
              (omega (arith, short)) on positive present least most free h in
          simp e (
            print-IsSized env msg (w.max_size + 24 + longest) (docheck env (24 + length msg) w) kind
              (omega (arith, r.room)) r.log_small r.rotated_small)
    ]

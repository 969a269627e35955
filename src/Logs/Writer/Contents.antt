-- ===== src/Logs/Writer/Contents.antt =====
-- Rotation loses nothing but old files.
use go_util.Prelude.{
  ℕ, zero, suc, ◌+◌, ◌≤◌, le→ltb_false, ◌≡◌, refl, ap, sym, ◌∙◌, true, false, Option, none, some,
  inl, inr, List, [], ◌∷◌, ◌++◌, append_assoc, append-nil, length, ltb, if◌then◌else◌, Bool-cases,
  ◌==◌, All,
}
use go_util.Logs.Disk.{taken, seconds, find_free, contents_of}
use go_util.Logs.Disk.Names.{
  find_free-free, contents_of-put, contents_of-remove_old, All-put, WasOld, remove_old-WasOld,
}
use go_util.Logs.Writer.{
  Env, LogWriter, Done, content_of, opened, init_fd, start_logger, moved, rotate_to, rotate_file,
  cleaning, do_rotate, is_due, counted, docheck, line_of, landed, print, write_msg, log_removed,
  delete_old_log,
}

-- All that the files hold, and those that were removed held, in the order of the rotations, the log
-- last.
unfoldable pub contents : LogWriter → List ℕ
contents w = contents_of w.rotated ++ content_of w.log

-- The system's calls that open, rename and write succeed.
pub record IsWilling (env : Env) : Type 0 where
  pub renames : env.rename_ok ≡ true
  pub opens : env.open_ok ≡ true
  pub writes : env.wrote ≡ none

-- The files that were removed had been left alone for more than Maxdays days.
unfoldable pub OnlyOldRemoved : LogWriter → Type 0
OnlyOldRemoved w = All (λ f. WasOld w.max_days f.modified f.deleted_at) w.rotated

-- The writer is open; its files, with the old ones that were removed, hold these bytes.
pub record Holds (bytes : List ℕ) (level : ℕ) (w : LogWriter) : Type 0 where
  pub is_open : w.is_open ≡ true
  pub held : contents w ≡ bytes
  pub same_level : w.level ≡ level
  pub only_old : OnlyOldRemoved w

-- Counters do not matter.
init_fd-Holds :
    (env : Env) (bytes : List ℕ) (level : ℕ) (w : LogWriter)
    → Holds bytes level w
    → Holds bytes level (init_fd env w).1
unfolding init_fd contents OnlyOldRemoved
init_fd-Holds env bytes level w h = elim (Bool-cases env.stat_ok) [
  | inr e ↦ rw e h
  | inl e ↦ rw e (elim (Bool-cases (length (content_of w.log) == 0)) [
    | inl ez ↦ rw ez (record {
      is_open = h.is_open;
      held = h.held;
      same_level = h.same_level;
      only_old = h.only_old;
    })
    | inr ez ↦ rw ez (elim (Bool-cases env.read_ok) [
      | inl er ↦ rw er (record {
        is_open = h.is_open;
        held = h.held;
        same_level = h.same_level;
        only_old = h.only_old;
      })
      | inr er ↦ rw er (record {
        is_open = h.is_open;
        held = h.held;
        same_level = h.same_level;
        only_old = h.only_old;
      })
    ])
  ])
]

start_logger-Holds :
    (env : Env) (bytes : List ℕ) (level : ℕ) (w : LogWriter)
    → IsWilling env
    → contents w ≡ bytes
    → w.level ≡ level
    → OnlyOldRemoved w
    → Holds bytes level (start_logger env w).1
unfolding start_logger opened contents OnlyOldRemoved
start_logger-Holds env bytes level w willing held same old = simp willing.opens (
    init_fd-Holds env bytes level (opened env w)
      (record { is_open = refl; held = held; same_level = same; only_old = old }))

contents-moved :
    (env : Env) (num : ℕ) (w : LogWriter)
    → taken env.date num w.rotated ≡ false
    → contents (moved env num w) ≡ contents w
unfolding contents moved
contents-moved env num w h =
    append-nil (contents_of (moved env num w).rotated) ∙ contents_of-put _ w.rotated h

cleaning-Holds :
    (bytes : List ℕ) (level : ℕ) (d : Done)
    → Holds bytes level d.1
    → Holds bytes level (cleaning d).1
unfolding cleaning contents OnlyOldRemoved
cleaning-Holds bytes level (none, w) h = record {
  is_open = h.is_open;
  held = h.held;
  same_level = h.same_level;
  only_old = h.only_old;
}
cleaning-Holds bytes level (some e, w) h = h

rotate_to-Holds :
    (env : Env) (bytes : List ℕ) (level : ℕ) (w : LogWriter) (num : Option ℕ)
    → find_free 999 env.date 1 w.rotated ≡ num
    → IsWilling env
    → Holds bytes level w
    → Holds bytes level (rotate_to env w num).1
unfolding rotate_to moved OnlyOldRemoved WasOld
rotate_to-Holds env bytes level w none e willing h = h
rotate_to-Holds env bytes level w (some num) e willing h = simp willing.renames (
    cleaning-Holds bytes level (start_logger env (moved env num w)) (
      start_logger-Holds env bytes level (moved env num w) willing
        (contents-moved env num w (find_free-free 999 env.date 1 w.rotated num e) ∙ h.held)
        h.same_level
        (All-put (λ f. WasOld w.max_days f.modified f.deleted_at) _ w.rotated tt h.only_old)))

rotate_file-Holds :
    (env : Env) (bytes : List ℕ) (level : ℕ) (w : LogWriter) (log : Option (List ℕ))
    → IsWilling env
    → Holds bytes level w
    → Holds bytes level (rotate_file env w log).1
unfolding rotate_file
rotate_file-Holds env bytes level w none willing h = h
rotate_file-Holds env bytes level w (some c) willing h =
    rotate_to-Holds env bytes level w (find_free 999 env.date 1 w.rotated) refl willing h

counted-Holds :
    (size : ℕ) (bytes : List ℕ) (level : ℕ) (d : Done)
    → Holds bytes level d.1
    → Holds bytes level (counted size d)
unfolding counted contents OnlyOldRemoved
counted-Holds size bytes level (none, w) h = record {
  is_open = h.is_open;
  held = h.held;
  same_level = h.same_level;
  only_old = h.only_old;
}
counted-Holds size bytes level (some e, w) h = h

docheck-Holds :
    (env : Env) (size : ℕ) (bytes : List ℕ) (level : ℕ) (w : LogWriter)
    → IsWilling env
    → Holds bytes level w
    → Holds bytes level (docheck env size w)
unfolding docheck do_rotate
docheck-Holds env size bytes level w willing h = elim (Bool-cases (is_due env w)) [
  | inl e ↦ rw e (
      counted-Holds size bytes level (do_rotate env w)
        (rotate_file-Holds env bytes level w w.log willing h))
  | inr e ↦ rw e (counted-Holds size bytes level (none, w) h)
]

-- What a message adds: its line, unless its level is over the writer's.
unfoldable pub logged : Env → List ℕ → ℕ → ℕ → List ℕ
logged env msg level limit = if ltb limit level then [] else line_of env msg

print-Holds :
    (env : Env) (msg bytes : List ℕ) (level : ℕ) (w : LogWriter)
    → IsWilling env
    → Holds bytes level w
    → Holds (bytes ++ line_of env msg) level (print env msg w)
unfolding print contents landed OnlyOldRemoved
print-Holds env msg bytes level w willing h =
    simp (h.is_open, willing.writes)
      (record {
        is_open = refl;
        held =
            sym (append_assoc (contents_of w.rotated) (content_of w.log) (line_of env msg))
            ∙ ap (λ t. t ++ line_of env msg) h.held;
        same_level = h.same_level;
        only_old = h.only_old;
      })

pub write_msg-Holds :
    (env : Env) (msg bytes : List ℕ) (msg_level level : ℕ) (w : LogWriter)
    → IsWilling env
    → Holds bytes level w
    → Holds (bytes ++ logged env msg msg_level level) level (write_msg env msg msg_level w)
unfolding write_msg logged
write_msg-Holds env msg bytes msg_level level w willing h =
    elim (Bool-cases (ltb level msg_level)) [
      | inl e ↦ simp (h.same_level, e, append-nil) h
      | inr e ↦
          simp (h.same_level, e)
            (print-Holds env msg bytes level (docheck env (24 + length msg) w) willing
              (docheck-Holds env (24 + length msg) bytes level w willing h))
    ]

-- A goroutine of deleteOldLog that runs within Maxdays days of the last line.
unfoldable pub IsTimely : Env → LogWriter → Type 0
IsTimely env w = env.now ≤ w.modified + seconds w.max_days

pub delete_old_log-Holds :
    (env : Env) (left : ℕ) (bytes : List ℕ) (level : ℕ) (w : LogWriter)
    → IsTimely env w
    → Holds bytes level w
    → Holds bytes level (delete_old_log env left w)
unfolding delete_old_log log_removed contents OnlyOldRemoved IsTimely
delete_old_log-Holds env zero bytes level w timely h = h
delete_old_log-Holds env (suc left) bytes level w timely h =
    let stays = le→ltb_false (w.modified + seconds w.max_days) env.now timely in
    rw stays (record {
      is_open = h.is_open;
      held =
          ap (λ t. t ++ content_of w.log) (contents_of-remove_old env.now w.max_days w.rotated)
          ∙ h.held;
      same_level = h.same_level;
      only_old = remove_old-WasOld env.now w.max_days w.rotated h.only_old;
    })

-- A call of WriteMsg, with what the system brings, the message and its level; or a goroutine of
-- deleteOldLog that runs.
pub data Call : Type 0 where
  writing : Env → List ℕ → ℕ → Call
  deleting : Env → Call

unfoldable pub write_one : Call → LogWriter → LogWriter
write_one (writing env msg msg_level) w = write_msg env msg msg_level w
write_one (deleting env) w = delete_old_log env w.cleanups w

unfoldable pub write_all : List Call → LogWriter → LogWriter
write_all [] w = w
write_all (call ∷ rest) w = write_all rest (write_one call w)

unfoldable pub line_in : ℕ → Call → List ℕ
line_in level (writing env msg msg_level) = logged env msg msg_level level
line_in level (deleting env) = []

unfoldable pub lines : ℕ → List Call → List ℕ
lines level [] = []
lines level (call ∷ rest) = line_in level call ++ lines level rest

unfoldable pub Suits : Call → LogWriter → Type 0
Suits (writing env msg msg_level) w = IsWilling env
Suits (deleting env) w = IsTimely env w

-- Each in the state in which it comes.
unfoldable pub AllSuit : List Call → LogWriter → Type 0
AllSuit [] w = Unit
AllSuit (call ∷ rest) w = Suits call w × AllSuit rest (write_one call w)

write_one-Holds :
    (call : Call) (bytes : List ℕ) (level : ℕ) (w : LogWriter)
    → Suits call w
    → Holds bytes level w
    → Holds (bytes ++ line_in level call) level (write_one call w)
unfolding write_one line_in Suits
write_one-Holds (writing env msg msg_level) bytes level w suits h =
    write_msg-Holds env msg bytes msg_level level w suits h
write_one-Holds (deleting env) bytes level w suits h =
    rw append-nil (delete_old_log-Holds env w.cleanups bytes level w suits h)

-- While opening, renaming and writing succeed, however often the writer rotates, whenever deleteOldLog
-- runs within Maxdays days of the last line, and also where a rotation finds no free number or cannot
-- read a file's size: its files, with those that deleteOldLog has removed, hold what they held and
-- then the line of every message whose level is logged, in order, none twice and none lost; and a file
-- that was removed had not been changed for more than Maxdays days.
pub write_all-Holds :
    (calls : List Call) (bytes : List ℕ) (level : ℕ) (w : LogWriter)
    → AllSuit calls w
    → Holds bytes level w
    → Holds (bytes ++ lines level calls) level (write_all calls w)
unfolding write_all lines AllSuit
write_all-Holds [] bytes level w suits h = rw append-nil h
write_all-Holds (call ∷ rest) bytes level w suits h =
    rw⁻¹ (append_assoc bytes (line_in level call) (lines level rest)) (
      write_all-Holds rest (bytes ++ line_in level call) level (write_one call w) suits.1
        (write_one-Holds call bytes level w suits.0 h))

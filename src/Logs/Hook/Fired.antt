-- ===== src/Logs/Hook/Fired.antt =====
-- From the entries of a logger to the bytes of its files.
use go_util.Prelude.{
  ℕ, zero, suc, ◌≤◌, ◌≡◌, refl, ap, ◌∙◌, true, false, List, [], ◌∷◌, ◌++◌, append-nil, append_assoc,
  All, length, length-append, drop, arith,
}
use go_util.Logs.Writer.{Env, LogWriter, line_of, delete_old_log}
use go_util.Logs.Writer.Contents.{
  IsWilling, Holds, logged, write_msg-Holds, IsTimely, delete_old_log-Holds,
}
use go_util.Logs.Hook.{
  Library, Frame, has_any, caller_from, get_caller, second_or, shortened, data_text, Level,
  panic_level, fatal_level, error_level, warn_level, info_level, debug_level, trace_level, LogEntry,
  get_message, write_at, fire,
}

-- The text that a level's messages start with.
unfoldable pub labels : Level → List (List ℕ)
labels panic_level = (91 ∷ 69 ∷ 82 ∷ 82 ∷ 79 ∷ 82 ∷ 93 ∷ 32 ∷ []) ∷ []
labels fatal_level = (91 ∷ 69 ∷ 82 ∷ 82 ∷ 79 ∷ 82 ∷ 93 ∷ 32 ∷ []) ∷ []
labels error_level = (91 ∷ 69 ∷ 82 ∷ 82 ∷ 79 ∷ 82 ∷ 93 ∷ 32 ∷ []) ∷ []
labels warn_level = (91 ∷ 87 ∷ 65 ∷ 82 ∷ 78 ∷ 93 ∷ 32 ∷ []) ∷ []
labels info_level = (91 ∷ 73 ∷ 78 ∷ 70 ∷ 79 ∷ 93 ∷ 32 ∷ []) ∷ []
labels debug_level = (91 ∷ 68 ∷ 69 ∷ 66 ∷ 85 ∷ 71 ∷ 93 ∷ 32 ∷ []) ∷ []
labels trace_level = []

unfoldable pub labelled : List (List ℕ) → Env → List ℕ → List ℕ
labelled [] env m = []
labelled (label ∷ rest) env m = line_of env (label ++ m)

write_at-Holds :
    (level : Level) (m bytes : List ℕ) (env : Env) (w : LogWriter)
    → IsWilling env
    → Holds bytes 3 w
    → Holds (bytes ++ labelled (labels level) env m) 3 (write_at level m env w)
unfolding write_at labels labelled logged
write_at-Holds panic_level m bytes env w ok h = write_msg-Holds env _ bytes 0 3 w ok h
write_at-Holds fatal_level m bytes env w ok h = write_msg-Holds env _ bytes 0 3 w ok h
write_at-Holds error_level m bytes env w ok h = write_msg-Holds env _ bytes 0 3 w ok h
write_at-Holds warn_level m bytes env w ok h = write_msg-Holds env _ bytes 1 3 w ok h
write_at-Holds info_level m bytes env w ok h = write_msg-Holds env _ bytes 2 3 w ok h
write_at-Holds debug_level m bytes env w ok h = write_msg-Holds env _ bytes 3 3 w ok h
write_at-Holds trace_level m bytes env w ok h = rw append-nil h

-- An entry whose frames are known: the four of this package and of the call of the hook, those of the
-- logger, and the caller's, in a file under GOPATH, with what stands below it.
pub record Told : Type 0 where
  pub level : Level
  pub message : List ℕ
  pub data_texts : List (List ℕ × List ℕ)
  pub own : List Frame
  pub loggers : List Frame
  pub short : List ℕ
  pub line : ℕ
  pub below : List Frame

-- "/src/" behind GOPATH
abbrev pub source_root : Library → List ℕ
source_root lib = lib.gopath ++ 47 ∷ 115 ∷ 114 ∷ 99 ∷ 47 ∷ []

-- A call of Fire, or a goroutine of deleteOldLog that runs.
pub data HookCall : Type 0 where
  firing : Env → Told → HookCall
  deleting : Env → HookCall

module _ (lib : Library) (ignored : List (List ℕ)) where
  abbrev pub file_of : Told → List ℕ
  file_of t = source_root lib ++ t.short

  abbrev pub entry_of : Told → LogEntry
  entry_of t = record {
    level = t.level;
    message = t.message;
    data_texts = t.data_texts;
    stack = t.own ++ (t.loggers ++ ((file_of t, t.line) ∷ t.below));
  }

  -- The names that are ignored are those of the logger's files, and strings.Split cuts the root off.
  pub record IsTold (t : Told) : Type 0 where
    pub four : length t.own ≡ 4
    pub loggers_ignored : All (λ f. has_any f.0 ignored ≡ true) t.loggers
    pub caller_kept : has_any (file_of t) ignored ≡ false
    pub cut : lib.split (file_of t) (source_root lib) ≡ [] ∷ t.short ∷ []

  -- Where the entry was made and what it says.
  unfoldable pub message_of : Told → List ℕ
  message_of t =
      (t.short ++ 58 ∷ lib.decimal t.line ++ 32 ∷ [])
      ++ (t.message ++ 32 ∷ [])
      ++ data_text t.data_texts

  drop_own : (n : ℕ) (own rest : List Frame) → length own ≡ n → drop n (own ++ rest) ≡ rest
  drop_own zero [] rest h = refl
  drop_own zero (f ∷ own) rest h = absurd (omega (arith, h))
  drop_own (suc n) [] rest h = absurd (omega (arith, h))
  drop_own (suc n) (f ∷ own) rest h = drop_own n own rest (omega (arith, h))

  caller_from-loggers :
      (loggers : List Frame) (frame : Frame) (below : List Frame)
      → All (λ f. has_any f.0 ignored ≡ true) loggers
      → has_any frame.0 ignored ≡ false
      → caller_from (loggers ++ (frame ∷ below)) ignored ≡ frame
  unfolding caller_from
  caller_from-loggers [] frame below all kept = rw kept refl
  caller_from-loggers (f ∷ loggers) frame below all kept =
      rw (all.0) (caller_from-loggers loggers frame below all.1 kept)

  shortened-cut :
      (file short : List ℕ)
      → 1 ≤ length file
      → lib.split file (source_root lib) ≡ [] ∷ short ∷ []
      → shortened lib ignored file ≡ short
  unfolding shortened second_or
  shortened-cut [] short some_text h = absurd (omega (arith, some_text))
  shortened-cut (c ∷ file) short some_text h = rw h refl

  get_message-message_of :
      (t : Told) → IsTold t → get_message lib ignored (entry_of t) ≡ message_of t
  unfolding get_message get_caller message_of
  get_message-message_of t told =
      let frame : Frame = (file_of t, t.line) in
      let below_own = drop_own 4 t.own (t.loggers ++ (frame ∷ t.below)) told.four in
      let found =
        ap (λ s. caller_from s ignored) below_own
        ∙ caller_from-loggers t.loggers frame t.below told.loggers_ignored told.caller_kept in
      let long = length-append (source_root lib) t.short in
      let long2 = length-append lib.gopath (47 ∷ 115 ∷ 114 ∷ 99 ∷ 47 ∷ []) in
      let name = shortened-cut (file_of t) t.short (omega (arith, long, long2)) told.cut in
      let text : Frame → List ℕ = λ f.
        (shortened lib ignored f.0 ++ 58 ∷ lib.decimal f.1 ++ 32 ∷ [])
        ++ (t.message ++ 32 ∷ [])
        ++ data_text t.data_texts in
      ap text found
      ∙ ap
          (λ n.
            (n ++ 58 ∷ lib.decimal t.line ++ 32 ∷ [])
            ++ (t.message ++ 32 ∷ [])
            ++ data_text t.data_texts)
          name

  unfoldable pub fire_one : HookCall → LogWriter → LogWriter
  fire_one (firing env t) w = fire lib ignored env (entry_of t) w
  fire_one (deleting env) w = delete_old_log env w.cleanups w

  unfoldable pub fire_all : List HookCall → LogWriter → LogWriter
  fire_all [] w = w
  fire_all (call ∷ rest) w = fire_all rest (fire_one call w)

  -- The lines of the entries, but for those of the level that the hook does not know.
  unfoldable pub entry_line : HookCall → List ℕ
  entry_line (firing env t) = labelled (labels t.level) env (message_of t)
  entry_line (deleting env) = []

  unfoldable pub entry_lines : List HookCall → List ℕ
  entry_lines [] = []
  entry_lines (call ∷ rest) = entry_line call ++ entry_lines rest

  unfoldable pub Suited : HookCall → LogWriter → Type 0
  Suited (firing env t) w = IsWilling env × IsTold t
  Suited (deleting env) w = IsTimely env w

  unfoldable pub AllSuited : List HookCall → LogWriter → Type 0
  AllSuited [] w = Unit
  AllSuited (call ∷ rest) w = Suited call w × AllSuited rest (fire_one call w)

  fire_one-Holds :
      (call : HookCall) (bytes : List ℕ) (w : LogWriter)
      → Suited call w
      → Holds bytes 3 w
      → Holds (bytes ++ entry_line call) 3 (fire_one call w)
  unfolding fire_one entry_line Suited fire
  fire_one-Holds (firing env t) bytes w suited h =
      rw⁻¹ (get_message-message_of t suited.1)
        (write_at-Holds t.level (get_message lib ignored (entry_of t)) bytes env w suited.0 h)
  fire_one-Holds (deleting env) bytes w suited h =
      rw append-nil (delete_old_log-Holds env w.cleanups bytes 3 w suited h)

  -- While opening, renaming and writing succeed, and deleteOldLog runs within Maxdays days of the last
  -- line, the files of a hook's writer at its level for debugging, with the old ones that were removed,
  -- hold what they held and then the line of every entry, in order: the label of its level, the caller's
  -- file below GOPATH and line, the message and the data. Entries at the level for tracing are dropped.
  pub fire_all-Holds :
      (calls : List HookCall) (bytes : List ℕ) (w : LogWriter)
      → AllSuited calls w
      → Holds bytes 3 w
      → Holds (bytes ++ entry_lines calls) 3 (fire_all calls w)
  unfolding fire_all entry_lines AllSuited
  fire_all-Holds [] bytes w suited h = rw append-nil h
  fire_all-Holds (call ∷ rest) bytes w suited h =
      rw⁻¹ (append_assoc bytes (entry_line call) (entry_lines rest)) (
        fire_all-Holds rest (bytes ++ entry_line call) (fire_one call w) suited.1
          (fire_one-Holds call bytes w suited.0 h))

-- ===== src/Tests/Hook.antt =====
-- hook.go and caller.go of log/logrus/hook/logs: two entries, one of them for tracing.
use go_util.Prelude.{◌+◌, ◌++◌, List, [], ◌∷◌, refl, true, none, some, ◌≡◌, ℕ}
use go_util.Hanu.Bytes.{has_suffix, equal}
use go_util.Logs.Disk.{contents_of}
use go_util.Logs.Writer.{Env, LogWriter, new_file_writer, line_of}
use go_util.Logs.Writer.Contents.{IsWilling, Holds, OnlyOldRemoved, contents}
use go_util.Logs.Hook.{Library, Frame, has_any, Level, data_text, warn_level, trace_level}
use go_util.Logs.Hook.Fired.{
  Told, HookCall, firing, IsTold, message_of, labels, labelled, entry_line, entry_lines, fire_all,
  Suited, AllSuited, fire_all-Holds,
}

abbrev env : Env
env = record {
  date = 20200101;
  day = 1;
  now = 1577836800;
  stamp = [];
  rename_ok = true;
  open_ok = true;
  stat_ok = true;
  read_ok = true;
  wrote = none;
}

abbrev writer : LogWriter
writer = record new_file_writer {
  open_date = 1;
  has_filename = true;
  log = some [];
  is_open = true;
}

-- The files of the caller and of a logger, both under /g/src/.
abbrev lib : Library
lib = record {
  split = λ text by. [] ∷ (97 ∷ []) ∷ [];
  decimal = λ n. (48 + n) ∷ [];
  gopath = 47 ∷ 103 ∷ [];
}

abbrev ignored : List (List ℕ)
ignored = (108 ∷ []) ∷ []

abbrev frame_in : List ℕ → ℕ → Frame
frame_in file line = (file, line)

abbrev told : Level → Told
told level = record {
  level = level;
  message = 65 ∷ [];
  data_texts = ((107 ∷ []), (118 ∷ [])) ∷ [];
  own = frame_in [] 1 ∷ frame_in [] 2 ∷ frame_in [] 3 ∷ frame_in [] 4 ∷ [];
  loggers = frame_in (47 ∷ 108 ∷ []) 5 ∷ [];
  short = 97 ∷ [];
  line = 6;
  below = [];
}

told-IsTold : (level : Level) → IsTold lib ignored (told level)
unfolding has_any has_suffix equal
told-IsTold level = record {
  four = refl;
  loggers_ignored = (refl, tt);
  caller_kept = refl;
  cut = refl;
}

abbrev calls : List HookCall
calls = firing env (told warn_level) ∷ firing env (told trace_level) ∷ []

willing : IsWilling env
willing = record { renames = refl; opens = refl; writes = refl }

calls-AllSuited : AllSuited lib ignored calls writer
unfolding AllSuited Suited
calls-AllSuited = ((willing, told-IsTold warn_level), ((willing, told-IsTold trace_level), tt))

writer-Holds : Holds [] 3 writer
unfolding contents contents_of OnlyOldRemoved
writer-Holds = record { is_open = refl; held = refl; same_level = refl; only_old = tt }

-- "[WARN] a:6 A k:v "
says :
    entry_lines lib ignored calls
    ≡ 91 ∷ 87 ∷ 65 ∷ 82 ∷ 78 ∷ 93 ∷ 32 ∷ 97 ∷ 58 ∷ 54 ∷ 32 ∷ 65 ∷ 32 ∷ 107 ∷ 58 ∷ 118 ∷ 32 ∷ 10 ∷ []
unfolding entry_lines entry_line labelled labels message_of data_text line_of
says = refl

fire_all-Holds_example :
    Holds ([] ++ entry_lines lib ignored calls) 3 (fire_all lib ignored calls writer)
fire_all-Holds_example = fire_all-Holds lib ignored calls [] writer calls-AllSuited writer-Holds

-- ===== src/Logs/Hook.antt =====
-- hook.go and caller.go of log/logrus/hook/logs. The frames of the stack, strings.Split, the text of a
-- number and GOPATH are arguments.
pub mod Fired
use go_util.Prelude.{ℕ, ◌+◌, Bool, false, ◌||◌, List, [], ◌∷◌, ◌++◌, drop, if◌then◌else◌}
use go_util.Hanu.Bytes.{has_suffix}
use go_util.Logs.Writer.{
  Env, LogWriter, level_error, level_warn, level_info, level_debug, write_msg,
}

pub record Library : Type 0 where
  pub split : List ℕ → List ℕ → List (List ℕ)
  pub decimal : ℕ → List ℕ
  pub gopath : List ℕ

-- A file and a line of it.
abbrev pub Frame : Type 0
Frame = List ℕ × ℕ

unfoldable pub has_any : List ℕ → List (List ℕ) → Bool
has_any file [] = false
has_any file (s ∷ rest) = has_suffix file s || has_any file rest

-- The loop from the frame at callDepth on; past the last one runtime.Caller fails.
unfoldable pub caller_from : List Frame → List (List ℕ) → Frame
caller_from [] ignored = (63 ∷ 63 ∷ 63 ∷ [], 0)
caller_from (frame ∷ rest) ignored =
    let later = caller_from rest ignored in if has_any frame.0 ignored then later else frame

unfoldable pub get_caller : ℕ → List (List ℕ) → List Frame → Frame
get_caller depth ignored stack = caller_from (drop (depth + 1) stack) ignored

-- The second of the parts, if there are two.
unfoldable pub second_or : List ℕ → List (List ℕ) → List ℕ
second_or file (first ∷ second ∷ rest) = second
second_or file parts = file

-- The levels of logrus.
pub data Level : Type 0 where
  panic_level fatal_level error_level warn_level info_level debug_level trace_level : Level

-- An entry, with its data in the order of the loop and the stack of the call.
pub record LogEntry : Type 0 where
  pub level : Level
  pub message : List ℕ
  pub data_texts : List (List ℕ × List ℕ)
  pub stack : List Frame

unfoldable pub data_text : List (List ℕ × List ℕ) → List ℕ
data_text [] = []
data_text ((k, v) ∷ rest) = (k ++ 58 ∷ v ++ 32 ∷ []) ++ data_text rest

-- "[ERROR] ", "[WARN] ", "[INFO] " and "[DEBUG] "
unfoldable pub write_at : Level → List ℕ → Env → LogWriter → LogWriter
write_at panic_level m env w =
    write_msg env (91 ∷ 69 ∷ 82 ∷ 82 ∷ 79 ∷ 82 ∷ 93 ∷ 32 ∷ m) level_error w
write_at fatal_level m env w =
    write_msg env (91 ∷ 69 ∷ 82 ∷ 82 ∷ 79 ∷ 82 ∷ 93 ∷ 32 ∷ m) level_error w
write_at error_level m env w =
    write_msg env (91 ∷ 69 ∷ 82 ∷ 82 ∷ 79 ∷ 82 ∷ 93 ∷ 32 ∷ m) level_error w
write_at warn_level m env w = write_msg env (91 ∷ 87 ∷ 65 ∷ 82 ∷ 78 ∷ 93 ∷ 32 ∷ m) level_warn w
write_at info_level m env w = write_msg env (91 ∷ 73 ∷ 78 ∷ 70 ∷ 79 ∷ 93 ∷ 32 ∷ m) level_info w
write_at debug_level m env w =
    write_msg env (91 ∷ 68 ∷ 69 ∷ 66 ∷ 85 ∷ 71 ∷ 93 ∷ 32 ∷ m) level_debug w
write_at trace_level m env w = w

module _ (lib : Library) (ignored : List (List ℕ)) where
  -- "/src/" behind GOPATH is cut off, with what stands before it.
  unfoldable pub shortened : List ℕ → List ℕ
  shortened [] = []
  shortened (c ∷ file) =
      second_or (c ∷ file) (lib.split (c ∷ file) (lib.gopath ++ 47 ∷ 115 ∷ 114 ∷ 99 ∷ 47 ∷ []))

  -- GetCallerIgnoringLogMulti(2), with the names that it ignores.
  unfoldable pub get_message : LogEntry → List ℕ
  get_message e =
      let caller = get_caller 3 ignored e.stack in
      (shortened caller.0 ++ 58 ∷ lib.decimal caller.1 ++ 32 ∷ [])
      ++ (e.message ++ 32 ∷ [])
      ++ data_text e.data_texts

  unfoldable pub fire : Env → LogEntry → LogWriter → LogWriter
  fire env e w = write_at e.level (get_message e) env w

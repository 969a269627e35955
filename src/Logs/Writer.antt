-- ===== src/Logs/Writer.antt =====
-- LogWriter of log/logrus/hook/logs/file.go.
pub mod Contents
pub mod Size
use go_util.Prelude.{
  ℕ, zero, suc, ◌+◌, ◌*◌, ◌^◌, take, Bool, true, false, not, ◌&&◌, ◌||◌, Option, none, some, List,
  [], ◌∷◌, ◌++◌, length, leb, ltb, ◌==◌, if◌then◌else◌,
}
use go_util.Logs.Disk.{Rotated, seconds, remove_old, find_free, put}

abbrev pub level_error : ℕ
level_error = 0

abbrev pub level_warn : ℕ
level_warn = 1

abbrev pub level_info : ℕ
level_info = 2

abbrev pub level_debug : ℕ
level_debug = 3

-- What the calls of the system bring at a time: the date, the day of the month and the Unix time, the
-- stamp that log.Logger puts before a message, which calls succeed, and how many bytes of a line a
-- write takes, where it fails.
pub record Env : Type 0 where
  pub date : ℕ
  pub day : ℕ
  pub stamp : List ℕ
  pub now : ℕ
  pub rename_ok : Bool
  pub open_ok : Bool
  pub stat_ok : Bool
  pub read_ok : Bool
  pub wrote : Option ℕ

-- The writer and its files. A limit of 0 or less in the source is 0 here; `log` is the file at
-- Filename, `none` where there is none, `modified` the time of its last change, and `is_open` says that
-- the descriptor is open and that file's. `cleanups` are the goroutines of deleteOldLog that are to run.
pub record LogWriter : Type 0 where
  pub max_lines : ℕ
  pub cur_lines : ℕ
  pub max_size : ℕ
  pub max_days : ℕ
  pub cur_size : ℕ
  pub daily : Bool
  pub open_date : ℕ
  pub rotate : Bool
  pub level : ℕ
  pub has_filename : Bool
  pub log : Option (List ℕ)
  pub is_open : Bool
  pub rotated : List Rotated
  pub modified : ℕ
  pub cleanups : ℕ

pub data Failure : Type 0 where
  bad_config no_filename open_failed stat_failed read_failed no_free_number rename_failed : Failure

-- An error, or `none` for nil, and the writer that is left.
abbrev pub Done : Type 0
Done = Option Failure × LogWriter

-- NewFileWriter.
abbrev pub new_file_writer : LogWriter
new_file_writer = record {
  max_lines = 1000000;
  cur_lines = 0;
  max_size = 2 ^ 28;
  max_days = 7;
  cur_size = 0;
  daily = true;
  open_date = 0;
  rotate = true;
  level = level_debug;
  has_filename = false;
  log = none;
  is_open = false;
  rotated = [];
  modified = 0;
  cleanups = 0;
}

abbrev pub content_of : Option (List ℕ) → List ℕ
content_of none = []
content_of (some bytes) = bytes

abbrev pub newlines : List ℕ → ℕ
newlines [] = 0
newlines (b ∷ bs) = (if b == 10 then 1 else 0) + newlines bs

-- os.O_APPEND|os.O_CREATE, and SetFd.
abbrev pub created_at : Env → Option (List ℕ) → ℕ → ℕ
created_at env none modified = env.now
created_at env (some bytes) modified = modified

unfoldable pub opened : Env → LogWriter → LogWriter
opened env w = record w {
  log = some (content_of w.log);
  is_open = true;
  modified = created_at env w.log w.modified;
}

-- The size and the day are set before the file is read for its lines.
unfoldable pub init_fd : Env → LogWriter → Done
init_fd env w =
    let size = length (content_of w.log) in
    let sized = record w { cur_size = size; open_date = env.day } in
    if not env.stat_ok
    then (some stat_failed, w)
    else if size == 0
    then (none, record sized { cur_lines = 0 })
    else if env.read_ok
    then (none, record sized { cur_lines = newlines (content_of w.log) + 1 })
    else (some read_failed, sized)

unfoldable pub start_logger : Env → LogWriter → Done
start_logger env w = if env.open_ok then init_fd env (opened env w) else (some open_failed, w)

-- Init; the argument is the writer with what json.Unmarshal put in, `none` where it failed.
unfoldable pub init : Env → LogWriter → Option LogWriter → Done
init env w none = (some bad_config, w)
init env w (some config) =
    if config.has_filename then start_logger env config else (some no_filename, config)

-- The log under its new name, and no file at Filename.
unfoldable pub moved : Env → ℕ → LogWriter → LogWriter
moved env num w = record w {
  log = none;
  is_open = false;
  rotated =
      put
        (record {
          date = env.date;
          num = num;
          content = content_of w.log;
          modified = w.modified;
          deleted_at = none;
        })
        w.rotated;
}

-- go w.deleteOldLog(), where the logger was started again.
unfoldable pub cleaning : Done → Done
cleaning (none, w) = (none, record w { cleanups = suc w.cleanups })
cleaning (some e, w) = (some e, w)

-- With a free number the descriptor is closed, the file renamed and a new one opened.
unfoldable pub rotate_to : Env → LogWriter → Option ℕ → Done
rotate_to env w none = (some no_free_number, w)
rotate_to env w (some num) =
    if env.rename_ok
    then cleaning (start_logger env (moved env num w))
    else (some rename_failed, record w { is_open = false })

unfoldable pub rotate_file : Env → LogWriter → Option (List ℕ) → Done
rotate_file env w none = (none, w)
rotate_file env w (some _) = rotate_to env w (find_free 999 env.date 1 w.rotated)

unfoldable pub do_rotate : Env → LogWriter → Done
do_rotate env w = rotate_file env w w.log

-- The condition of docheck.
unfoldable pub is_due : Env → LogWriter → Bool
is_due env w =
    w.rotate
    && ((ltb 0 w.max_lines && leb w.max_lines w.cur_lines)
        || ((ltb 0 w.max_size && leb w.max_size w.cur_size)
            || (w.daily && not (env.day == w.open_date))))

-- After a rotation that failed nothing is counted.
unfoldable pub counted : ℕ → Done → LogWriter
counted size (none, w) = record w { cur_lines = w.cur_lines + 1; cur_size = w.cur_size + size }
counted size (some e, w) = w

unfoldable pub docheck : Env → ℕ → LogWriter → LogWriter
docheck env size w = counted size (if is_due env w then do_rotate env w else (none, w))

-- log.Logger.Print: the stamp, the message, and a newline where the message has none at its end.
abbrev pub ends_in_newline : List ℕ → Bool
ends_in_newline [] = false
ends_in_newline (b ∷ []) = b == 10
ends_in_newline (b ∷ c ∷ rest) = ends_in_newline (c ∷ rest)

unfoldable pub line_of : Env → List ℕ → List ℕ
line_of env msg = env.stamp ++ (msg ++ (if ends_in_newline msg then [] else 10 ∷ []))

-- What a write takes of a line; its error is not looked at.
unfoldable pub landed : Option ℕ → List ℕ → List ℕ
landed none line = line
landed (some n) line = take n line

abbrev pub changed_at : Option ℕ → ℕ → ℕ → ℕ
changed_at none now modified = now
changed_at (some zero) now modified = modified
changed_at (some (suc n)) now modified = now

-- A closed descriptor takes nothing, and what goes to a removed file is gone.
unfoldable pub print : Env → List ℕ → LogWriter → LogWriter
print env msg w =
    if w.is_open
    then record w {
      log = some (content_of w.log ++ landed env.wrote (line_of env msg));
      modified = changed_at env.wrote env.now w.modified;
    }
    else w

unfoldable pub write_msg : Env → List ℕ → ℕ → LogWriter → LogWriter
write_msg env msg level w =
    if ltb w.level level then w else print env msg (docheck env (24 + length msg) w)

-- The log has the prefix too.
unfoldable pub log_removed : Env → LogWriter → LogWriter
log_removed env w =
    if ltb (w.modified + seconds w.max_days) env.now
    then record w { log = none; is_open = false }
    else w

-- A run of deleteOldLog, whenever its goroutine comes to it.
unfoldable pub delete_old_log : Env → ℕ → LogWriter → LogWriter
delete_old_log env zero w = w
delete_old_log env (suc left) w =
    log_removed env
      (record w { cleanups = left; rotated = remove_old env.now w.max_days w.rotated })

unfoldable pub destroy : LogWriter → LogWriter
destroy w = record w { is_open = false }

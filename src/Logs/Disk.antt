-- ===== src/Logs/Disk.antt =====
-- The files of log/logrus/hook/logs/file.go: the log itself and those it was renamed to.
pub mod Names
use go_util.Prelude.{
  ℕ, ◌+◌, ◌*◌, zero, suc, Bool, true, false, not, ◌&&◌, ◌||◌, Option, none, some, List, [], ◌∷◌,
  ◌++◌, ◌==◌, ltb, if◌then◌else◌,
}

-- A file whose name is the log's, a date and a number, with the time of its last change, and, where it
-- was removed, when that was: a removed file is kept here as history.
pub record Rotated : Type 0 where
  pub date : ℕ
  pub num : ℕ
  pub content : List ℕ
  pub modified : ℕ
  pub deleted_at : Option ℕ

abbrev pub is_there : Option ℕ → Bool
is_there none = true
is_there (some time) = false

abbrev pub has_name : ℕ → ℕ → Rotated → Bool
has_name date num f = is_there f.deleted_at && (f.date == date && f.num == num)

-- The seconds of so many days.
abbrev pub seconds : ℕ → ℕ
seconds days = 86400 * days

-- The condition of deleteOldLog.
abbrev pub is_old : ℕ → ℕ → Rotated → Bool
is_old now days f = is_there f.deleted_at && ltb (f.modified + seconds days) now

-- os.Remove of the files that are old.
unfoldable pub remove_old : ℕ → ℕ → List Rotated → List Rotated
remove_old now days [] = []
remove_old now days (f ∷ rest) =
    let later = remove_old now days rest in
    if is_old now days f then record f { deleted_at = some now } ∷ later else f ∷ later

-- os.Lstat of that name finds a file.
unfoldable pub taken : ℕ → ℕ → List Rotated → Bool
taken date num [] = false
taken date num (f ∷ rest) = has_name date num f || taken date num rest

-- os.Rename to that name, which replaces a file that has it.
unfoldable pub put : Rotated → List Rotated → List Rotated
put new [] = new ∷ []
put new (f ∷ rest) =
    let later = put new rest in if has_name new.date new.num f then later else f ∷ later

-- The loop over the numbers: the first that no file has, of so many from `num` on.
unfoldable pub find_free : ℕ → ℕ → ℕ → List Rotated → Option ℕ
find_free zero date num files = none
find_free (suc more) date num files =
    let rest = find_free more date (suc num) files in
    if taken date num files then rest else some num

unfoldable pub contents_of : List Rotated → List ℕ
contents_of [] = []
contents_of (f ∷ rest) = f.content ++ contents_of rest

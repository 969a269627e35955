-- ===== src/Tests/Logs.antt =====
-- log/logrus/hook/logs: a writer that rotates at 30 bytes.
use go_util.Prelude.{false, ◌+◌, arith, ◌≡◌, refl, true, none, some, List, [], ◌∷◌, ◌++◌, replicate}
use go_util.Logs.Disk.{Rotated, remove_old, taken, contents_of}
use go_util.Logs.Writer.{
  Env, LogWriter, new_file_writer, is_due, counted, docheck, print, write_msg, log_removed,
  delete_old_log,
}
use go_util.Logs.Disk.Names.{WasOld}
use go_util.Logs.Writer.Size.{IsKind, IsSized, write_msg-IsSized}
use go_util.Logs.Writer.Contents.{
  Call, writing, deleting, Holds, IsWilling, OnlyOldRemoved, IsTimely, Suits, AllSuit, contents,
  lines, write_one, write_all, write_all-Holds,
}

abbrev env : Env
env = record {
  date = 20200101;
  day = 1;
  now = 1577836800;
  stamp = replicate 20 48;
  rename_ok = true;
  open_ok = true;
  stat_ok = true;
  read_ok = true;
  wrote = none;
}

abbrev writer : LogWriter
writer = record new_file_writer {
  max_size = 30;
  open_date = 1;
  has_filename = true;
  log = some [];
  is_open = true;
  modified = 1577836000;
}

abbrev calls : List Call
calls =
    writing env (65 ∷ 66 ∷ []) 0
    ∷ deleting env
    ∷ writing env (67 ∷ []) 4
    ∷ writing env (68 ∷ 69 ∷ []) 1
    ∷ []

env-IsWilling : IsWilling env
env-IsWilling = record { renames = refl; opens = refl; writes = refl }

-- A file of the first of December, and a goroutine of deleteOldLog that has not run yet.
abbrev old_file : Rotated
old_file = record {
  date = 20191201;
  num = 1;
  content = 90 ∷ [];
  modified = 1575158400;
  deleted_at = none;
}

abbrev with_old : LogWriter
with_old = record writer { rotated = old_file ∷ []; cleanups = 1 }

writer-Holds : Holds (90 ∷ []) 3 with_old
unfolding contents contents_of OnlyOldRemoved WasOld
writer-Holds = record { is_open = refl; held = refl; same_level = refl; only_old = (tt, tt) }

first_line-IsTimely : IsTimely env (write_msg env (65 ∷ 66 ∷ []) 0 with_old)
unfolding IsTimely write_msg print docheck counted is_due
first_line-IsTimely = omega arith

calls-AllSuit : AllSuit calls with_old
unfolding AllSuit Suits write_one
calls-AllSuit = (env-IsWilling, (first_line-IsTimely, (env-IsWilling, (env-IsWilling, tt))))

write_all-Holds_example : Holds ((90 ∷ []) ++ lines 3 calls) 3 (write_all calls with_old)
write_all-Holds_example = write_all-Holds calls (90 ∷ []) 3 with_old calls-AllSuit writer-Holds

removed :
    (delete_old_log env 1 with_old).rotated ≡ record old_file { deleted_at = some env.now } ∷ []
unfolding delete_old_log log_removed remove_old
removed = refl

env-IsKind : IsKind env
env-IsKind = record {
  renames = refl;
  opens = refl;
  stats = refl;
  writes = refl;
  stamp_short = omega arith;
}

-- The log is at its limit of 30 bytes, so the message goes to a new file.
abbrev grown : LogWriter
grown = record writer { log = some (replicate 30 65); cur_size = 30 }

grown-IsSized : IsSized (30 + 24 + 2) grown
grown-IsSized = record { counted_all = omega arith; log_small = omega arith; rotated_small = tt }

first_free : taken 20200101 1 [] ≡ false
unfolding taken
first_free = refl

write_msg-IsSized_example : IsSized (30 + 24 + 2) (write_msg env (68 ∷ 69 ∷ []) 1 grown)
write_msg-IsSized_example =
    write_msg-IsSized env (68 ∷ 69 ∷ []) 1 2 1 (replicate 30 65) grown env-IsKind (omega arith) refl
      (omega arith) refl (omega arith) (omega arith) first_free grown-IsSized

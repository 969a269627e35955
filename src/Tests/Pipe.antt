-- ===== src/Tests/Pipe.antt =====
-- channel_pipe/pipe.go: one file, whose name is its content.
use go_util.Prelude.{ℕ, ◌+◌, ◌≤◌, ◌≡◌, ◌⊎◌, refl, none, some, List, [], ◌∷◌, true, arith}
use go_util.Prelude.Dict.{same_bytes}
use go_util.Pipe.Parts.{
  Library, ok, Visit, regular, other, Report, ReaderItem, with_reader, with_file, do_read,
  has_suffix, awaiting, receiving, Pipe, start, add, sent, is_closed, Returned, reported,
  receive_report, after_wait, first_failure, is_failure, got, with_errs, merge_logs,
}
use go_util.Pipe.Moves.{
  closes, cancels, after_read, do_merge, scan_other, scan_send, scan_end, scan_close, read_path,
  read_send, read_end, read_close, merge_item, merge_check, merge_end, merge_close, wait_scan,
  wait_read, wait_merge, by_scan, by_read, by_merge, by_wait, Move, Moves, none_left, and_move,
  Reach, here, moved,
}
use go_util.Pipe.Outcome.{IsOutcome, merge_logs-IsOutcome}
use go_util.Pipe.Flow.{flow, plan, Reach-flow}
use go_util.Pipe.Work.{work}
use go_util.Pipe.Progress.{Moves-return}

abbrev lib : Library (List ℕ) (List ℕ)
lib = record {
  open_file = λ path. ok path;
  gzip_reader = λ file. ok file;
  plain_reader = λ file. file;
  copy = λ reader. (reader, none);
}

abbrev name : List ℕ
name = 97 ∷ []

abbrev visits : List Visit
visits = other ∷ regular name ∷ []

abbrev item : ReaderItem (List ℕ) (List ℕ)
item = record { reader = name; file = name; path = name }

abbrev scanned : Pipe (List ℕ) (List ℕ)
scanned = record (start visits) { scan = closes [] none; paths = name ∷ [] }

abbrev opened : Pipe (List ℕ) (List ℕ)
opened = record scanned { paths = []; readers = item ∷ []; read = closes awaiting none }

abbrev one : Report
one = record { total_bytes = 1; file_nums = 1 }

abbrev merged : Pipe (List ℕ) (List ℕ)
merged = record opened {
  readers = [];
  merge = closes (receiving one) none;
  result = some one;
  writer = 97 ∷ 10 ∷ [];
  merged = name ∷ [];
}

abbrev received : Pipe (List ℕ) (List ℕ)
received = record merged { got_scan = true; got_read = true; got_merge = true }

scanned-Reach : Reach lib (start visits) scanned
unfolding start
scanned-Reach =
    moved
      (moved
        (moved (moved here (by_scan (scan_other (regular name ∷ []) refl)))
          (by_scan (scan_send name [] refl (omega arith))))
        (by_scan (scan_end refl)))
      (by_scan (scan_close [] none refl))

opened-Reach : Reach lib (start visits) opened
unfolding start do_read with_file with_reader has_suffix same_bytes after_read is_closed
opened-Reach =
    moved
      (moved
        (moved (moved scanned-Reach (by_read (read_path name [] refl refl)))
          (by_read (read_send item refl (omega arith))))
        (by_read (read_end refl refl refl)))
      (by_read (read_close awaiting none refl))

merged-Reach : Reach lib (start visits) merged
unfolding start do_merge add is_closed
merged-Reach =
    moved
      (moved
        (moved
          (moved opened-Reach
            (by_merge (merge_item (record { total_bytes = 0; file_nums = 0 }) item [] refl refl)))
          (by_merge (merge_check one refl refl)))
        (by_merge (merge_end one refl refl refl)))
      (by_merge (merge_close (receiving one) none refl))

received-Reach : Reach lib (start visits) received
unfolding start sent cancels
received-Reach =
    moved
      (moved (moved merged-Reach (by_wait (wait_scan none refl refl)))
        (by_wait (wait_read none refl refl)))
      (by_wait (wait_merge none refl refl))

received-report : merge_logs received ≡ some (reported one)
unfolding merge_logs got sent with_errs first_failure is_failure after_wait receive_report
received-report = refl

merge_logs-IsOutcome_example : IsOutcome lib visits received (reported one)
merge_logs-IsOutcome_example =
    merge_logs-IsOutcome lib visits (reported one) received-Reach received-report

received-once : Moves lib 1 merged (record merged { got_scan = true })
unfolding sent cancels start
received-once = and_move none_left (by_wait (wait_scan none refl refl))

Moves-return_example :
    (1 + work (record merged { got_scan = true }) ≤ work merged)
    × (((o : Returned) × (merge_logs (record merged { got_scan = true }) ≡ some o))
        ⊎ ((f : Pipe (List ℕ) (List ℕ)) × Move lib (record merged { got_scan = true }) f))
Moves-return_example = Moves-return lib visits merged-Reach received-once

Reach-flow_example : flow opened ≡ plan visits
Reach-flow_example = Reach-flow lib visits opened-Reach

-- ===== src/Pipe/Work.antt =====
-- The moves that the goroutines of channel_pipe/pipe.go can still make.
use go_util.Prelude.{
  ℕ, suc, ◌+◌, ◌*◌, ◌≤◌, ◌<◌, ◌≡◌, refl, none, some, Option, List, [], ◌∷◌, length, length-append,
  arith, Bool, true, false,
}
use go_util.Pipe.Parts.{
  FilePath, Result, ok, err, Library, ReaderItem, Report, Status, running, returned, closed,
  Reading, awaiting, sending, unread, Merging, receiving, checking, unmerged, Pipe,
}
use go_util.Pipe.Moves.{
  after_read, do_merge, ScanMove, scan_other, scan_failing, scan_send, scan_done, scan_end,
  scan_close, ReadMove, read_path, read_end, read_send, read_done, read_close, MergeMove,
  merge_item, merge_check, merge_done, merge_end, merge_close, WaitMove, wait_scan, wait_read,
  wait_merge, Move, by_scan, by_read, by_merge, by_wait, Moves, none_left, and_move,
}

unfoldable pub to_close : Status → ℕ
to_close running = 2
to_close (returned e) = 1
to_close (closed e) = 0

unfoldable pub to_merge : Merging → ℕ
to_merge (receiving r) = 0
to_merge (checking r) = 1
to_merge (unmerged path bytes r) = 0

unfoldable pub to_receive : Bool → ℕ
to_receive true = 0
to_receive false = 1

module _ {File Reader : Type 0} where
  unfoldable pub to_send : Reading File Reader → ℕ
  to_send awaiting = 0
  to_send (sending item) = 4
  to_send (unread path) = 0

  -- A file needs one move less for every channel that it has passed.
  unfoldable pub work : Pipe File Reader → ℕ
  work d =
      6 * length d.scan.at
      + 5 * length d.paths
      + to_send d.read.at
      + 3 * length d.readers
      + to_merge d.merge.at
      + (to_close d.scan.status + to_close d.read.status + to_close d.merge.status)
      + (to_receive d.got_scan + to_receive d.got_read + to_receive d.got_merge)

module _ {File Reader : Type 0} (lib : Library File Reader) where
  ScanMove-work : {d e : Pipe File Reader} → ScanMove lib d e → work e < work d
  unfolding work to_close
  ScanMove-work {d} (scan_other visits s) =
      let at : length d.scan.at ≡ suc (length visits) = rw s refl in
      let st : to_close d.scan.status ≡ 2 = rw s refl in omega (arith, at, st)
  ScanMove-work {d} (scan_failing e visits s) =
      let at : length d.scan.at ≡ suc (length visits) = rw s refl in
      let st : to_close d.scan.status ≡ 2 = rw s refl in omega (arith, at, st)
  ScanMove-work {d} (scan_send path visits s room) =
      let at : length d.scan.at ≡ suc (length visits) = rw s refl in
      let st : to_close d.scan.status ≡ 2 = rw s refl in
      omega (arith, at, st, length-append d.paths (path ∷ []))
  ScanMove-work {d} (scan_done path visits s c) =
      let at : length d.scan.at ≡ suc (length visits) = rw s refl in
      let st : to_close d.scan.status ≡ 2 = rw s refl in omega (arith, at, st)
  ScanMove-work {d} (scan_end s) =
      let at : length d.scan.at ≡ 0 = rw s refl in
      let st : to_close d.scan.status ≡ 2 = rw s refl in omega (arith, at, st)
  ScanMove-work {d} (scan_close visits e s) =
      let at : length d.scan.at ≡ length visits = rw s refl in
      let st : to_close d.scan.status ≡ 1 = rw s refl in omega (arith, at, st)

  after_read-work :
      (path : FilePath) (r : Result (ReaderItem File Reader))
      → to_send (after_read lib path r).at + to_close (after_read lib path r).status ≤ 6
  unfolding after_read to_send to_close
  after_read-work path (ok item) = omega arith
  after_read-work path (err e) = omega arith

  ReadMove-work : {d e : Pipe File Reader} → ReadMove lib d e → work e < work d
  unfolding work to_close to_send
  ReadMove-work {d} (read_path path rest s q) =
      let at : to_send d.read.at ≡ 0 = rw s refl in
      let st : to_close d.read.status ≡ 2 = rw s refl in
      let queue : length d.paths ≡ suc (length rest) = rw q refl in
      omega (arith, at, st, queue, after_read-work path _)
  ReadMove-work {d} (read_end s q c) =
      let at : to_send d.read.at ≡ 0 = rw s refl in
      let st : to_close d.read.status ≡ 2 = rw s refl in omega (arith, at, st)
  ReadMove-work {d} (read_send item s room) =
      let at : to_send d.read.at ≡ 4 = rw s refl in
      let st : to_close d.read.status ≡ 2 = rw s refl in
      omega (arith, at, st, length-append d.readers (item ∷ []))
  ReadMove-work {d} (read_done item s c) =
      let at : to_send d.read.at ≡ 4 = rw s refl in
      let st : to_close d.read.status ≡ 2 = rw s refl in omega (arith, at, st)
  ReadMove-work {d} (read_close at e s) =
      let place : to_send d.read.at ≡ to_send at = rw s refl in
      let st : to_close d.read.status ≡ 1 = rw s refl in omega (arith, place, st)

  do_merge-work :
      (path : FilePath) (r : Report) (copied : List ℕ × Option ℕ) (d : Pipe File Reader)
      → to_merge d.merge.at ≡ 0
      → to_close d.merge.status ≡ 2
      → work (do_merge lib path r copied d) ≤ suc (work d)
  unfolding do_merge work to_merge to_close
  do_merge-work path r (bytes, none) d at st = omega (arith, at, st)
  do_merge-work path r (bytes, some e) d at st = omega (arith, at, st)

  MergeMove-work : {d e : Pipe File Reader} → MergeMove lib d e → work e < work d
  unfolding work to_close to_merge
  MergeMove-work {d} (merge_item r item rest s q) =
      let at : to_merge d.merge.at ≡ 0 = rw s refl in
      let st : to_close d.merge.status ≡ 2 = rw s refl in
      let queue : length d.readers ≡ suc (length rest) = rw q refl in
      let done =
        do_merge-work item.path r (lib.copy item.reader) (record d { readers = rest }) at st in
      omega (arith, queue, done)
  MergeMove-work {d} (merge_check r s c) =
      let at : to_merge d.merge.at ≡ 1 = rw s refl in
      let st : to_close d.merge.status ≡ 2 = rw s refl in omega (arith, at, st)
  MergeMove-work {d} (merge_done r s c) =
      let at : to_merge d.merge.at ≡ 1 = rw s refl in
      let st : to_close d.merge.status ≡ 2 = rw s refl in omega (arith, at, st)
  MergeMove-work {d} (merge_end r s q c) =
      let at : to_merge d.merge.at ≡ 0 = rw s refl in
      let st : to_close d.merge.status ≡ 2 = rw s refl in omega (arith, at, st)
  MergeMove-work {d} (merge_close at e s) =
      let place : to_merge d.merge.at ≡ to_merge at = rw s refl in
      let st : to_close d.merge.status ≡ 1 = rw s refl in omega (arith, place, st)

  WaitMove-work : {d e : Pipe File Reader} → WaitMove lib d e → work e < work d
  unfolding work to_receive
  WaitMove-work {d} (wait_scan e g s) =
      let one : to_receive d.got_scan ≡ 1 = rw g refl in omega (arith, one)
  WaitMove-work {d} (wait_read e g s) =
      let one : to_receive d.got_read ≡ 1 = rw g refl in omega (arith, one)
  WaitMove-work {d} (wait_merge e g s) =
      let one : to_receive d.got_merge ≡ 1 = rw g refl in omega (arith, one)

  Move-work : {d e : Pipe File Reader} → Move lib d e → work e < work d
  Move-work (by_scan m) = ScanMove-work m
  Move-work (by_read m) = ReadMove-work m
  Move-work (by_merge m) = MergeMove-work m
  Move-work (by_wait m) = WaitMove-work m

  pub Moves-work : {n : ℕ} {d e : Pipe File Reader} → Moves lib n d e → n + work e ≤ work d
  Moves-work none_left = omega arith
  Moves-work (and_move ms m) = omega (arith, Moves-work ms, Move-work m)

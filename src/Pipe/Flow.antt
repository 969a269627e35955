-- ===== src/Pipe/Flow.antt =====
-- The files of channel_pipe/pipe.go keep their order on the way from Walk to the writer.
use mathlib.Core.List.{map-append}
use go_util.Prelude.{ℕ, ◌≡◌, refl, ◌∙◌, none, some, Option, List, [], ◌∷◌, ◌++◌, map, append_assoc}
use go_util.Pipe.Parts.{
  FilePath, Result, ok, err, Library, Visit, regular, other, failing, ReaderItem, Report,
  with_reader, with_file, do_read, Reading, awaiting, sending, unread, Merging, receiving, checking,
  unmerged, Pipe, start,
}
use go_util.Pipe.Moves.{
  after_read, do_merge, ScanMove, scan_other, scan_failing, scan_send, scan_done, scan_end,
  scan_close, ReadMove, read_path, read_end, read_send, read_done, read_close, MergeMove,
  merge_item, merge_check, merge_done, merge_end, merge_close, WaitMove, wait_scan, wait_read,
  wait_merge, Move, by_scan, by_read, by_merge, by_wait, Reach, here, moved, interrupted,
}

-- What Walk has still to give: the files, and `none` for an error.
unfoldable pub plan : List Visit → List (Option FilePath)
plan [] = []
plan (regular path ∷ visits) = some path ∷ plan visits
plan (other ∷ visits) = plan visits
plan (failing e ∷ visits) = none ∷ plan visits

-- The file that Merge has in hand.
unfoldable pub pending : Merging → List FilePath
pending (receiving r) = []
pending (checking r) = []
pending (unmerged path bytes r) = path ∷ []

module _ {File Reader : Type 0} where
  -- The file that Read has in hand.
  unfoldable pub held : Reading File Reader → List FilePath
  held awaiting = []
  held (sending item) = item.path ∷ []
  held (unread path) = path ∷ []

  unfoldable pub in_readers : List (ReaderItem File Reader) → List FilePath
  in_readers items = map (λ i. i.path) items

  -- All files from the merged ones to those that Scan has sent.
  unfoldable pub in_flight : Pipe File Reader → List FilePath
  in_flight d =
      d.merged ++ (pending d.merge.at ++ (in_readers d.readers ++ (held d.read.at ++ d.paths)))

  unfoldable pub flow : Pipe File Reader → List (Option FilePath)
  flow d = map some (in_flight d) ++ plan d.scan.at

module _ {File Reader : Type 0} (lib : Library File Reader) where
  do_read-held : (path : FilePath) → held (after_read lib path (do_read lib path)).at ≡ path ∷ []
  unfolding do_read after_read held with_file with_reader
  do_read-held path = on_file (lib.open_file path)
    where
      on_reader :
          (file : File) (r : Result Reader)
          → held (after_read lib path (with_reader lib path file r)).at ≡ path ∷ []
      on_reader file (ok reader) = refl
      on_reader file (err e) = refl

      on_file : (r : Result File) → held (after_read lib path (with_file lib path r)).at ≡ path ∷ []
      on_file (err e) = refl
      on_file (ok file) = on_reader file _

  ScanMove-flow : {d e : Pipe File Reader} → ScanMove lib d e → flow e ≡ flow d
  unfolding flow in_flight plan
  ScanMove-flow {d} (scan_other visits s) = rw s refl
  ScanMove-flow {d} (scan_failing e visits s) = rw s refl
  ScanMove-flow {d} (scan_send path visits s room) = simp (s, map-append, append_assoc) refl
  ScanMove-flow {d} (scan_done path visits s c) = rw s refl
  ScanMove-flow {d} (scan_end s) = rw s refl
  ScanMove-flow {d} (scan_close visits e s) = rw s refl

  ReadMove-flow : {d e : Pipe File Reader} → ReadMove lib d e → flow e ≡ flow d
  unfolding flow in_flight in_readers held
  ReadMove-flow {d} (read_path path rest s q) = simp (s, q, do_read-held path) refl
  ReadMove-flow {d} (read_end s q c) = rw s refl
  ReadMove-flow {d} (read_send item s room) = simp (s, map-append, append_assoc) refl
  ReadMove-flow {d} (read_done item s c) = rw s refl
  ReadMove-flow {d} (read_close at e s) = rw s refl

  do_merge-flow :
      (path : FilePath) (r : Report) (copied : List ℕ × Option ℕ) (d : Pipe File Reader)
      → flow (do_merge lib path r copied d)
        ≡ map some (d.merged ++ (path ∷ (in_readers d.readers ++ (held d.read.at ++ d.paths))))
          ++ plan d.scan.at
  unfolding flow in_flight do_merge pending
  do_merge-flow path r (bytes, none) d = simp append_assoc refl
  do_merge-flow path r (bytes, some e) d = refl

  MergeMove-flow : {d e : Pipe File Reader} → MergeMove lib d e → flow e ≡ flow d
  unfolding flow in_flight in_readers pending
  MergeMove-flow {d} (merge_item r item rest s q) =
      do_merge-flow item.path r (lib.copy item.reader) (record d { readers = rest })
      ∙ simp (s, q) refl
  MergeMove-flow {d} (merge_check r s c) = rw s refl
  MergeMove-flow {d} (merge_done r s c) = rw s refl
  MergeMove-flow {d} (merge_end r s q c) = rw s refl
  MergeMove-flow {d} (merge_close at e s) = rw s refl

  WaitMove-flow : {d e : Pipe File Reader} → WaitMove lib d e → flow e ≡ flow d
  unfolding flow in_flight
  WaitMove-flow (wait_scan e g s) = refl
  WaitMove-flow (wait_read e g s) = refl
  WaitMove-flow (wait_merge e g s) = refl

  Move-flow : {d e : Pipe File Reader} → Move lib d e → flow e ≡ flow d
  Move-flow (by_scan m) = ScanMove-flow m
  Move-flow (by_read m) = ReadMove-flow m
  Move-flow (by_merge m) = MergeMove-flow m
  Move-flow (by_wait m) = WaitMove-flow m

  -- In every state that can be reached the files that are merged, in hand, in the channels and still
  -- to be found are, in this order, those that Walk gives: none is lost, doubled or overtaken.
  pub Reach-flow :
      (visits : List Visit) {d : Pipe File Reader}
      → Reach lib (start visits) d
      → flow d ≡ plan visits
  unfolding flow in_flight pending in_readers held
  Reach-flow visits here = unfold start in refl
  Reach-flow visits (moved r m) = Move-flow m ∙ Reach-flow visits r
  Reach-flow visits (interrupted r) = Reach-flow visits r

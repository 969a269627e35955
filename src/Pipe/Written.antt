-- ===== src/Pipe/Written.antt =====
-- What the writer of channel_pipe/pipe.go holds is what merging the files one after the other gives.
use go_util.Prelude.{
  ℕ, ◌≡◌, refl, sym, ap, ◌∙◌, none, some, Option, List, [], ◌∷◌, ◌++◌, append-nil, All, All-append,
}
use go_util.Pipe.Parts.{
  FilePath, Result, ok, err, Library, Visit, ReaderItem, Report, with_reader, with_file, do_read,
  Reading, awaiting, sending, unread, Merging, receiving, checking, unmerged, Pipe, start, add,
}
use go_util.Pipe.Moves.{
  after_read, do_merge, ScanMove, scan_other, scan_failing, scan_send, scan_done, scan_end,
  scan_close, read_path, read_end, read_send, read_done, read_close, merge_item, merge_check,
  merge_done, merge_end, merge_close, wait_scan, wait_read, wait_merge, Move, by_scan, by_read,
  by_merge, by_wait, Reach, here, moved, interrupted,
}

abbrev pub Text : Type 0
Text = List ℕ × Report

abbrev pub blank : Report
blank = record { total_bytes = 0; file_nums = 0 }

unfoldable pub report_of : Merging → Report
report_of (receiving r) = r
report_of (checking r) = r
report_of (unmerged path bytes r) = r

-- What a copy that failed has left behind the merged files.
unfoldable pub partial : Merging → List ℕ
partial (receiving r) = []
partial (checking r) = []
partial (unmerged path bytes r) = bytes

module _ {File Reader : Type 0} (lib : Library File Reader) where
  -- The reference: one file after the other, each with a newline; `none` where one fails.
  unfoldable pub copied_to : Text → List ℕ × Option ℕ → Option Text
  copied_to t (bytes, none) = some (t.0 ++ (bytes ++ 10 ∷ []), add t.1 bytes)
  copied_to t (bytes, some e) = none

  unfoldable pub merge_item_to : Text → Result (ReaderItem File Reader) → Option Text
  merge_item_to t (err e) = none
  merge_item_to t (ok item) = copied_to t (lib.copy item.reader)

  unfoldable pub merge_one : FilePath → Option Text → Option Text
  merge_one path none = none
  merge_one path (some t) = merge_item_to t (do_read lib path)

  unfoldable pub merge_all : List FilePath → Option Text → Option Text
  merge_all [] t = t
  merge_all (path ∷ paths) t = merge_all paths (merge_one path t)

  merge_all-append :
      (paths : List FilePath) (path : FilePath) (t : Option Text)
      → merge_all (paths ++ path ∷ []) t ≡ merge_one path (merge_all paths t)
  unfolding merge_all
  merge_all-append [] path t = refl
  merge_all-append (p ∷ paths) path t = merge_all-append paths path (merge_one p t)

  unfoldable pub Opened : ReaderItem File Reader → Type 0
  Opened item = do_read lib item.path ≡ ok item

  unfoldable pub HeldOpened : Reading File Reader → Type 0
  HeldOpened awaiting = Unit
  HeldOpened (sending item) = Opened item
  HeldOpened (unread path) = Unit

  -- The items on the way are those that doRead gave.
  unfoldable pub Ready : Pipe File Reader → Type 0
  Ready d = All Opened d.readers × HeldOpened d.read.at

  do_read-path :
      (path : FilePath) (item : ReaderItem File Reader)
      → do_read lib path ≡ ok item
      → item.path ≡ path
  unfolding do_read with_file with_reader
  do_read-path path item h = on_file (lib.open_file path) h
    where
      on_reader :
          (file : File) (r : Result Reader)
          → with_reader lib path file r ≡ ok item
          → item.path ≡ path
      on_reader file (ok reader) h =
          let same : record { reader = reader; file = file; path = path } ≡ item = cc h in
          sym (ap (λ t. t.path) same)
      on_reader file (err e) h = absurd (cc h)

      on_file : (r : Result File) → with_file lib path r ≡ ok item → item.path ≡ path
      on_file (err e) h = absurd (cc h)
      on_file (ok file) h = on_reader file _ h

  after_read-HeldOpened :
      (path : FilePath) (r : Result (ReaderItem File Reader))
      → do_read lib path ≡ r
      → HeldOpened (after_read lib path r).at
  unfolding after_read HeldOpened Opened
  after_read-HeldOpened path (err e) h = tt
  after_read-HeldOpened path (ok item) h = ap (do_read lib) (do_read-path path item h) ∙ h

  do_merge-Ready :
      (path : FilePath) (r : Report) (copied : List ℕ × Option ℕ) (d : Pipe File Reader)
      → Ready d
      → Ready (do_merge lib path r copied d)
  unfolding do_merge Ready
  do_merge-Ready path r (bytes, none) d h = h
  do_merge-Ready path r (bytes, some e) d h = h

  ScanMove-Ready : {d e : Pipe File Reader} → Ready d → ScanMove lib d e → Ready e
  unfolding Ready
  ScanMove-Ready h (scan_other visits s) = h
  ScanMove-Ready h (scan_failing e visits s) = h
  ScanMove-Ready h (scan_send path visits s room) = h
  ScanMove-Ready h (scan_done path visits s c) = h
  ScanMove-Ready h (scan_end s) = h
  ScanMove-Ready h (scan_close visits e s) = h

  Move-Ready : {d e : Pipe File Reader} → Ready d → Move lib d e → Ready e
  unfolding Ready HeldOpened
  Move-Ready h (by_scan m) = ScanMove-Ready h m
  Move-Ready h (by_read (read_path path rest s q)) =
      (h.0, after_read-HeldOpened path (do_read lib path) refl)
  Move-Ready h (by_read (read_end s q c)) = (h.0, tt)
  Move-Ready {d} h (by_read (read_send item s room)) =
      (All-append Opened d.readers (item ∷ []) h.0 (rw s at h.1, tt), tt)
  Move-Ready h (by_read (read_done item s c)) = (h.0, rw s at h.1)
  Move-Ready h (by_read (read_close at e s)) = (h.0, rw s at h.1)
  Move-Ready {d} h (by_merge (merge_item r item rest s q)) =
      do_merge-Ready item.path r (lib.copy item.reader) (record d { readers = rest })
        ((rw q at h.0).1, h.1)
  Move-Ready h (by_merge (merge_check r s c)) = h
  Move-Ready h (by_merge (merge_done r s c)) = h
  Move-Ready h (by_merge (merge_end r s q c)) = h
  Move-Ready h (by_merge (merge_close at e s)) = h
  Move-Ready h (by_wait (wait_scan e g s)) = h
  Move-Ready h (by_wait (wait_read e g s)) = h
  Move-Ready h (by_wait (wait_merge e g s)) = h

  -- What has been written is the text of the merged files, and what a failed copy left.
  unfoldable pub Written : Pipe File Reader → Type 0
  Written d =
      (text : List ℕ) × (merge_all d.merged (some ([], blank)) ≡ some (text, report_of d.merge.at))
      × (d.writer ≡ text ++ partial d.merge.at)

  do_merge-Written :
      (item : ReaderItem File Reader) (r : Report) (text : List ℕ) (copied : List ℕ × Option ℕ)
      (d : Pipe File Reader)
      → Opened item
      → lib.copy item.reader ≡ copied
      → merge_all d.merged (some ([], blank)) ≡ some (text, r)
      → d.writer ≡ text
      → Written (do_merge lib item.path r copied d)
  unfolding Written do_merge Opened report_of partial merge_one merge_item_to copied_to
  do_merge-Written item r text (bytes, none) d opened c m w = (
    text ++ (bytes ++ 10 ∷ []),
    merge_all-append d.merged item.path (some ([], blank)) ∙ rw (m, opened, c) refl,
    rw (w, append-nil) refl,
  )
  do_merge-Written item r text (bytes, some e) d opened c m w = (text, m, ap (λ t. t ++ bytes) w)

  Move-Written : {d e : Pipe File Reader} → Ready d → Written d → Move lib d e → Written e
  unfolding Written Ready report_of partial
  Move-Written ready h (by_scan (scan_other visits s)) = h
  Move-Written ready h (by_scan (scan_failing e visits s)) = h
  Move-Written ready h (by_scan (scan_send path visits s room)) = h
  Move-Written ready h (by_scan (scan_done path visits s c)) = h
  Move-Written ready h (by_scan (scan_end s)) = h
  Move-Written ready h (by_scan (scan_close visits e s)) = h
  Move-Written ready h (by_read (read_path path rest s q)) = h
  Move-Written ready h (by_read (read_end s q c)) = h
  Move-Written ready h (by_read (read_send item s room)) = h
  Move-Written ready h (by_read (read_done item s c)) = h
  Move-Written ready h (by_read (read_close at e s)) = h
  Move-Written {d} ready (text, m, w) (by_merge (merge_item r item rest s q)) =
      do_merge-Written item r text (lib.copy item.reader) (record d { readers = rest })
        (rw q at ready.0).0 refl (rw s at m) (rw (s, append-nil) at w)
  Move-Written ready (text, m, w) (by_merge (merge_check r s c)) = (text, rw s at m, rw s at w)
  Move-Written ready (text, m, w) (by_merge (merge_done r s c)) = (text, rw s at m, rw s at w)
  Move-Written ready (text, m, w) (by_merge (merge_end r s q c)) = (text, rw s at m, rw s at w)
  Move-Written ready (text, m, w) (by_merge (merge_close at e s)) = (text, rw s at m, rw s at w)
  Move-Written ready h (by_wait (wait_scan e g s)) = h
  Move-Written ready h (by_wait (wait_read e g s)) = h
  Move-Written ready h (by_wait (wait_merge e g s)) = h

  pub Reach-Written :
      (visits : List Visit) {d : Pipe File Reader}
      → Reach lib (start visits) d
      → Ready d × Written d
  unfolding Ready Written start merge_all report_of partial HeldOpened
  Reach-Written visits here = ((tt, tt), ([], refl, refl))
  Reach-Written visits (moved r m) =
      let (ready, h) = Reach-Written visits r in (Move-Ready ready m, Move-Written ready h m)
  Reach-Written visits (interrupted r) = Reach-Written visits r

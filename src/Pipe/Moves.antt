-- ===== src/Pipe/Moves.antt =====
-- The steps of the goroutines of Scan, Read, Merge and Wait of channel_pipe/pipe.go: one operation on a
-- channel each, with what is computed up to the next.
use go_util.Prelude.{
  ℕ, suc, ◌<◌, ◌≡◌, Bool, true, false, ◌||◌, Option, none, some, List, [], ◌∷◌, ◌++◌, length,
}
use go_util.Pipe.Parts.{
  FilePath, Error, real, canceled, Result, ok, err, Library, Visit, regular, other, failing,
  ReaderItem, Report, do_read, running, returned, closed, Stage, Reading, awaiting, sending, unread,
  Merging, receiving, checking, unmerged, Pipe, sent, is_closed, add,
}

-- paths and readers: make(chan ..., 5)
abbrev pub capacity : ℕ
capacity = 5

abbrev pub ends : {S : Type 0} → S → Option Error → Stage S
ends at e = record { at = at; status = returned e }

abbrev pub runs : {S : Type 0} → S → Stage S
runs at = record { at = at; status = running }

abbrev pub closes : {S : Type 0} → S → Option Error → Stage S
closes at e = record { at = at; status = closed e }

-- An error that is not that of the context makes Wait cancel.
unfoldable pub cancels : Option Error → Bool
cancels none = false
cancels (some (real e)) = true
cancels (some canceled) = false

module _ {File Reader : Type 0} (lib : Library File Reader) where
  -- Where Read is after doRead of a path.
  unfoldable pub after_read :
      FilePath → Result (ReaderItem File Reader) → Stage (Reading File Reader)
  after_read path (ok item) = runs (sending item)
  after_read path (err e) = ends (unread path) (some (real e))

  -- doMerge of an item: what io.Copy wrote, and the newline where it did not fail.
  unfoldable pub do_merge :
      FilePath → Report → List ℕ × Option ℕ → Pipe File Reader → Pipe File Reader
  do_merge path r (bytes, none) d = record d {
    merge = runs (checking (add r bytes));
    writer = d.writer ++ (bytes ++ 10 ∷ []);
    merged = d.merged ++ path ∷ [];
  }
  do_merge path r (bytes, some e) d = record d {
    merge = ends (unmerged path bytes r) (some (real e));
    writer = d.writer ++ bytes;
  }

  pub data ScanMove : Pipe File Reader → Pipe File Reader → Type 0 where
    scan_other :
        {d : Pipe File Reader} (visits : List Visit)
        → d.scan ≡ runs (other ∷ visits)
        → ScanMove d (record d { scan = runs visits })
    scan_failing :
        {d : Pipe File Reader} (e : ℕ) (visits : List Visit)
        → d.scan ≡ runs (failing e ∷ visits)
        → ScanMove d (record d { scan = ends (failing e ∷ visits) (some (real e)) })
    scan_send :
        {d : Pipe File Reader} (path : FilePath) (visits : List Visit)
        → d.scan ≡ runs (regular path ∷ visits)
        → length d.paths < capacity
        → ScanMove d (record d { scan = runs visits; paths = d.paths ++ path ∷ [] })
    scan_done :
        {d : Pipe File Reader} (path : FilePath) (visits : List Visit)
        → d.scan ≡ runs (regular path ∷ visits)
        → d.cancelled ≡ true
        → ScanMove d (record d { scan = ends (regular path ∷ visits) (some canceled) })
    scan_end :
        {d : Pipe File Reader} → d.scan ≡ runs [] → ScanMove d (record d { scan = ends [] none })
    scan_close :
        {d : Pipe File Reader} (visits : List Visit) (e : Option Error)
        → d.scan ≡ ends visits e
        → ScanMove d (record d { scan = closes visits e })

  pub data ReadMove : Pipe File Reader → Pipe File Reader → Type 0 where
    read_path :
        {d : Pipe File Reader} (path : FilePath) (rest : List FilePath)
        → d.read ≡ runs awaiting
        → d.paths ≡ path ∷ rest
        → ReadMove d (record d { paths = rest; read = after_read path (do_read lib path) })
    read_end :
        {d : Pipe File Reader}
        → d.read ≡ runs awaiting
        → d.paths ≡ []
        → is_closed d.scan.status ≡ true
        → ReadMove d (record d { read = ends awaiting none })
    read_send :
        {d : Pipe File Reader} (item : ReaderItem File Reader)
        → d.read ≡ runs (sending item)
        → length d.readers < capacity
        → ReadMove d (record d { read = runs awaiting; readers = d.readers ++ item ∷ [] })
    read_done :
        {d : Pipe File Reader} (item : ReaderItem File Reader)
        → d.read ≡ runs (sending item)
        → d.cancelled ≡ true
        → ReadMove d (record d { read = ends (sending item) (some canceled) })
    read_close :
        {d : Pipe File Reader} (at : Reading File Reader) (e : Option Error)
        → d.read ≡ ends at e
        → ReadMove d (record d { read = closes at e })

  pub data MergeMove : Pipe File Reader → Pipe File Reader → Type 0 where
    merge_item :
        {d : Pipe File Reader} (r : Report) (item : ReaderItem File Reader)
        (rest : List (ReaderItem File Reader))
        → d.merge ≡ runs (receiving r)
        → d.readers ≡ item ∷ rest
        → MergeMove d (do_merge item.path r (lib.copy item.reader) (record d { readers = rest }))
    merge_check :
        {d : Pipe File Reader} (r : Report)
        → d.merge ≡ runs (checking r)
        → d.cancelled ≡ false
        → MergeMove d (record d { merge = runs (receiving r) })
    merge_done :
        {d : Pipe File Reader} (r : Report)
        → d.merge ≡ runs (checking r)
        → d.cancelled ≡ true
        → MergeMove d (record d { merge = ends (checking r) (some canceled) })
    merge_end :
        {d : Pipe File Reader} (r : Report)
        → d.merge ≡ runs (receiving r)
        → d.readers ≡ []
        → is_closed d.read.status ≡ true
        → MergeMove d (record d { merge = ends (receiving r) none; result = some r })
    merge_close :
        {d : Pipe File Reader} (at : Merging) (e : Option Error)
        → d.merge ≡ ends at e
        → MergeMove d (record d { merge = closes at e })

  -- The three goroutines of Wait.
  pub data WaitMove : Pipe File Reader → Pipe File Reader → Type 0 where
    wait_scan :
        {d : Pipe File Reader} (e : Option Error)
        → d.got_scan ≡ false
        → sent d.scan.status ≡ some e
        → WaitMove d (record d { got_scan = true; cancelled = cancels e || d.cancelled })
    wait_read :
        {d : Pipe File Reader} (e : Option Error)
        → d.got_read ≡ false
        → sent d.read.status ≡ some e
        → WaitMove d (record d { got_read = true; cancelled = cancels e || d.cancelled })
    wait_merge :
        {d : Pipe File Reader} (e : Option Error)
        → d.got_merge ≡ false
        → sent d.merge.status ≡ some e
        → WaitMove d (record d { got_merge = true; cancelled = cancels e || d.cancelled })

  pub data Move (d e : Pipe File Reader) : Type 0 where
    by_scan : ScanMove d e → Move d e
    by_read : ReadMove d e → Move d e
    by_merge : MergeMove d e → Move d e
    by_wait : WaitMove d e → Move d e

  -- A number of moves; and what can be reached, where the context may be cancelled from outside.
  pub data Moves : ℕ → Pipe File Reader → Pipe File Reader → Type 0 where
    none_left : {d : Pipe File Reader} → Moves 0 d d
    and_move : {n : ℕ} {d e f : Pipe File Reader} → Moves n d e → Move e f → Moves (suc n) d f

  pub data Reach (d : Pipe File Reader) : Pipe File Reader → Type 0 where
    here : Reach d d
    moved : {e f : Pipe File Reader} → Reach d e → Move e f → Reach d f
    interrupted : {e : Pipe File Reader} → Reach d e → Reach d (record e { cancelled = true })

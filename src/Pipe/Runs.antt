-- ===== src/Pipe/Runs.antt =====
-- A goroutine of channel_pipe/pipe.go that has failed does not run on.
use go_util.Prelude.{ℕ, ◌≡◌, none, some, Option, List}
use go_util.Pipe.Parts.{
  FilePath, Result, ok, err, Library, Visit, ReaderItem, Report, do_read, running, unread, unmerged,
  Pipe, start,
}
use go_util.Pipe.Moves.{
  after_read, do_merge, scan_other, scan_failing, scan_send, scan_done, scan_end, scan_close,
  read_path, read_end, read_send, read_done, read_close, merge_item, merge_check, merge_done,
  merge_end, merge_close, wait_scan, wait_read, wait_merge, Move, by_scan, by_read, by_merge,
  by_wait, Reach, here, moved, interrupted,
}

-- A goroutine that runs is not at a failure.
pub record Runs {File Reader : Type 0} (d : Pipe File Reader) : Type 0 where
  pub reads : (path : FilePath) → d.read.status ≡ running → d.read.at ≡ unread path → ⊥
  pub merges :
      (path : FilePath) (bytes : List ℕ) (r : Report)
      → d.merge.status ≡ running
      → d.merge.at ≡ unmerged path bytes r
      → ⊥

module _ {File Reader : Type 0} (lib : Library File Reader) where
  after_read_runs :
      (at : FilePath) (r : Result (ReaderItem File Reader)) (path : FilePath)
      → (after_read lib at r).status ≡ running
      → (after_read lib at r).at ≡ unread path
      → ⊥
  unfolding after_read
  after_read_runs at (ok item) path s e = absurd (cc e)
  after_read_runs at (err x) path s e = absurd (cc s)

  do_merge-Runs :
      (at : FilePath) (r : Report) (copied : List ℕ × Option ℕ) (d : Pipe File Reader)
      → Runs d
      → Runs (do_merge lib at r copied d)
  unfolding do_merge
  do_merge-Runs at r (bytes, none) d h = record {
    reads = h.reads;
    merges = λ path bs r2 s e. absurd (cc e);
  }
  do_merge-Runs at r (bytes, some x) d h = record {
    reads = h.reads;
    merges = λ path bs r2 s e. absurd (cc s);
  }

  Move-Runs : {d e : Pipe File Reader} → Runs d → Move lib d e → Runs e
  Move-Runs h (by_scan (scan_other visits s)) = record { reads = h.reads; merges = h.merges }
  Move-Runs h (by_scan (scan_failing e visits s)) = record { reads = h.reads; merges = h.merges }
  Move-Runs h (by_scan (scan_send path visits s room)) = record {
    reads = h.reads;
    merges = h.merges;
  }
  Move-Runs h (by_scan (scan_done path visits s c)) = record { reads = h.reads; merges = h.merges }
  Move-Runs h (by_scan (scan_end s)) = record { reads = h.reads; merges = h.merges }
  Move-Runs h (by_scan (scan_close visits e s)) = record { reads = h.reads; merges = h.merges }
  Move-Runs h (by_read (read_path path rest s q)) = record {
    reads = after_read_runs path (do_read lib path);
    merges = h.merges;
  }
  Move-Runs h (by_read (read_end s q c)) = record {
    reads = λ path r e. absurd (cc r);
    merges = h.merges;
  }
  Move-Runs h (by_read (read_send item s room)) = record {
    reads = λ path r e. absurd (cc e);
    merges = h.merges;
  }
  Move-Runs h (by_read (read_done item s c)) = record {
    reads = λ path r e. absurd (cc r);
    merges = h.merges;
  }
  Move-Runs h (by_read (read_close at e s)) = record {
    reads = λ path r x. absurd (cc r);
    merges = h.merges;
  }
  Move-Runs {d} h (by_merge (merge_item r item rest s q)) =
      do_merge-Runs item.path r (lib.copy item.reader) (record d { readers = rest })
        (record { reads = h.reads; merges = h.merges })
  Move-Runs h (by_merge (merge_check r s c)) = record {
    reads = h.reads;
    merges = λ path bs r2 s2 e. absurd (cc e);
  }
  Move-Runs h (by_merge (merge_done r s c)) = record {
    reads = h.reads;
    merges = λ path bs r2 s2 e. absurd (cc s2);
  }
  Move-Runs h (by_merge (merge_end r s q c)) = record {
    reads = h.reads;
    merges = λ path bs r2 s2 e. absurd (cc s2);
  }
  Move-Runs h (by_merge (merge_close at e s)) = record {
    reads = h.reads;
    merges = λ path bs r2 s2 x. absurd (cc s2);
  }
  Move-Runs h (by_wait (wait_scan e g s)) = record { reads = h.reads; merges = h.merges }
  Move-Runs h (by_wait (wait_read e g s)) = record { reads = h.reads; merges = h.merges }
  Move-Runs h (by_wait (wait_merge e g s)) = record { reads = h.reads; merges = h.merges }

  pub Reach-Runs :
      (visits : List Visit) {d : Pipe File Reader} → Reach lib (start visits) d → Runs d
  unfolding start
  Reach-Runs visits here = record {
    reads = λ path s e. absurd (cc e);
    merges = λ path bs r s e. absurd (cc e);
  }
  Reach-Runs visits (moved r m) = Move-Runs (Reach-Runs visits r) m
  Reach-Runs visits (interrupted r) =
      let h = Reach-Runs visits r in record { reads = h.reads; merges = h.merges }

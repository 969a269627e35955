-- ===== src/Pipe/Ended.antt =====
-- Every step of channel_pipe/pipe.go keeps what is known of the ends of its goroutines.
use go_util.Prelude.{ℕ, ◌≡◌, refl, none, some, Option, List, [], ◌∷◌, ◌++◌, Bool, true, false}
use go_util.Pipe.Parts.{
  FilePath, real, canceled, Result, ok, err, Library, Visit, ReaderItem, Report, Status, running,
  awaiting, sending, receiving, checking, Pipe, start, sent,
}
use go_util.Pipe.Moves.{
  cancels, runs, ends, closes, after_read, do_merge, ScanMove, scan_other, scan_failing, scan_send,
  scan_done, scan_end, scan_close, ReadMove, read_path, read_end, read_send, read_done, read_close,
  MergeMove, merge_item, merge_check, merge_done, merge_end, merge_close, WaitMove, wait_scan,
  wait_read, wait_merge, Move, by_scan, by_read, by_merge, by_wait, Reach, here, moved, interrupted,
}
use go_util.Pipe.Honest.{
  Honest, running-Honest, returned-Honest, closed-Honest, later-Honest, received-Honest,
  runs-status, ends-status, not_closed, not_closed_yet,
}
use go_util.Pipe.Ends.{Ends, with_scan, with_read, with_merge}

module _ {File Reader : Type 0} (lib : Library File Reader) where
  ScanMove-Ends : {d e : Pipe File Reader} → Ends d → ScanMove lib d e → Ends e
  unfolding sent
  ScanMove-Ends {d} h (scan_other visits s) =
      with_scan (runs visits) d.paths h (running-Honest (runs-status s) h.scan_honest)
        (λ x. absurd (cc x)) (λ x. absurd (not_closed (runs-status s) x))
  ScanMove-Ends {d} h (scan_failing e visits s) =
      with_scan (ends _ (some (real e))) d.paths h
        (returned-Honest _ _ _ _ (runs-status s) (λ x. absurd (cc x)) h.scan_honest)
        (λ x. absurd (cc x)) (λ x. absurd (not_closed (runs-status s) x))
  ScanMove-Ends {d} h (scan_send path visits s room) =
      with_scan (runs visits) (d.paths ++ path ∷ []) h
        (running-Honest (runs-status s) h.scan_honest) (λ x. absurd (cc x))
        (λ x. absurd (not_closed (runs-status s) x))
  ScanMove-Ends {d} h (scan_done path visits s c) =
      with_scan (ends _ (some canceled)) d.paths h
        (returned-Honest _ _ _ _ (runs-status s) (λ x. c) h.scan_honest) (λ x. absurd (cc x))
        (λ x. absurd (not_closed (runs-status s) x))
  ScanMove-Ends {d} h (scan_end s) =
      with_scan (ends [] none) d.paths h
        (returned-Honest _ _ _ _ (runs-status s) (λ x. absurd (cc x)) h.scan_honest) (λ x. refl)
        (λ x. absurd (not_closed (runs-status s) x))
  ScanMove-Ends {d} h (scan_close visits e s) =
      with_scan (closes visits e) d.paths h (closed-Honest _ _ _ _ (ends-status s) h.scan_honest)
        (λ x. rw s at (h.scan_ended (rw s x))) (λ x. absurd (not_closed_yet (ends-status s) x))

  after_read-Honest :
      (path : FilePath) (r : Result (ReaderItem File Reader)) (status : Status)
      (received cancelled : Bool)
      → status ≡ running
      → Honest status received cancelled
      → Honest (after_read lib path r).status received cancelled
  unfolding after_read
  after_read-Honest path (ok item) status received cancelled s h = running-Honest s h
  after_read-Honest path (err e) status received cancelled s h =
      returned-Honest _ _ _ _ s (λ x. absurd (cc x)) h

  after_read_no_end :
      (path : FilePath) (r : Result (ReaderItem File Reader))
      → sent (after_read lib path r).status ≡ some none
      → ⊥
  unfolding after_read sent
  after_read_no_end path (ok item) x = absurd (cc x)
  after_read_no_end path (err e) x = absurd (cc x)

  ReadMove-Ends : {d e : Pipe File Reader} → Ends d → ReadMove lib d e → Ends e
  unfolding sent
  ReadMove-Ends {d} h (read_path path rest s q) =
      with_read (after_read lib path _) rest d.readers h
        (after_read-Honest path _ _ _ _ (runs-status s) h.read_honest)
        (λ x. absurd (after_read_no_end path _ x)) (λ x. absurd (not_closed (runs-status s) x))
  ReadMove-Ends {d} h (read_end s q c) =
      with_read (ends awaiting none) d.paths d.readers h
        (returned-Honest _ _ _ _ (runs-status s) (λ x. absurd (cc x)) h.read_honest)
        (λ x. (refl, q, c)) (λ x. absurd (not_closed (runs-status s) x))
  ReadMove-Ends {d} h (read_send item s room) =
      with_read (runs awaiting) d.paths (d.readers ++ item ∷ []) h
        (running-Honest (runs-status s) h.read_honest) (λ x. absurd (cc x))
        (λ x. absurd (not_closed (runs-status s) x))
  ReadMove-Ends {d} h (read_done item s c) =
      with_read (ends (sending item) (some canceled)) d.paths d.readers h
        (returned-Honest _ _ _ _ (runs-status s) (λ x. c) h.read_honest) (λ x. absurd (cc x))
        (λ x. absurd (not_closed (runs-status s) x))
  ReadMove-Ends {d} h (read_close at e s) =
      with_read (closes at e) d.paths d.readers h
        (closed-Honest _ _ _ _ (ends-status s) h.read_honest) (λ x. rw s at (h.read_ended (rw s x)))
        (λ x. absurd (not_closed_yet (ends-status s) x))

  do_merge-Ends :
      (path : FilePath) (r : Report) (copied : List ℕ × Option ℕ) (d : Pipe File Reader)
      (rest : List (ReaderItem File Reader))
      → d.merge ≡ runs (receiving r)
      → Ends d
      → Ends (do_merge lib path r copied (record d { readers = rest }))
  unfolding do_merge sent
  do_merge-Ends path r (bytes, none) d rest s h =
      with_merge (runs _) rest d.result _ _ h (running-Honest (runs-status s) h.merge_honest)
        (λ x. absurd (cc x))
  do_merge-Ends path r (bytes, some e) d rest s h =
      with_merge (ends _ (some (real e))) rest d.result _ d.merged h
        (returned-Honest _ _ _ _ (runs-status s) (λ x. absurd (cc x)) h.merge_honest)
        (λ x. absurd (cc x))

  MergeMove-Ends : {d e : Pipe File Reader} → Ends d → MergeMove lib d e → Ends e
  unfolding sent
  MergeMove-Ends {d} h (merge_item r item rest s q) =
      do_merge-Ends item.path r (lib.copy item.reader) d rest s h
  MergeMove-Ends {d} h (merge_check r s c) =
      with_merge (runs (receiving r)) d.readers d.result d.writer d.merged h
        (running-Honest (runs-status s) h.merge_honest) (λ x. absurd (cc x))
  MergeMove-Ends {d} h (merge_done r s c) =
      with_merge (ends (checking r) (some canceled)) d.readers d.result d.writer d.merged h
        (returned-Honest _ _ _ _ (runs-status s) (λ x. c) h.merge_honest) (λ x. absurd (cc x))
  MergeMove-Ends {d} h (merge_end r s q c) =
      with_merge (ends (receiving r) none) d.readers (some r) d.writer d.merged h
        (returned-Honest _ _ _ _ (runs-status s) (λ x. absurd (cc x)) h.merge_honest)
        (λ x. (r, refl, refl, q, c))
  MergeMove-Ends {d} h (merge_close at e s) =
      with_merge (closes at e) d.readers d.result d.writer d.merged h
        (closed-Honest _ _ _ _ (ends-status s) h.merge_honest)
        (λ x. rw s at (h.merge_ended (rw s x)))

  WaitMove-Ends : {d e : Pipe File Reader} → Ends d → WaitMove lib d e → Ends e
  WaitMove-Ends {d} h (wait_scan e g s) = record {
    scan_honest = received-Honest _ _ _ e s h.scan_honest;
    read_honest = later-Honest _ _ _ (cancels e) h.read_honest;
    merge_honest = later-Honest _ _ _ (cancels e) h.merge_honest;
    scan_ended = h.scan_ended;
    read_ended = h.read_ended;
    merge_ended = h.merge_ended;
  }
  WaitMove-Ends {d} h (wait_read e g s) = record {
    scan_honest = later-Honest _ _ _ (cancels e) h.scan_honest;
    read_honest = received-Honest _ _ _ e s h.read_honest;
    merge_honest = later-Honest _ _ _ (cancels e) h.merge_honest;
    scan_ended = h.scan_ended;
    read_ended = h.read_ended;
    merge_ended = h.merge_ended;
  }
  WaitMove-Ends {d} h (wait_merge e g s) = record {
    scan_honest = later-Honest _ _ _ (cancels e) h.scan_honest;
    read_honest = later-Honest _ _ _ (cancels e) h.read_honest;
    merge_honest = received-Honest _ _ _ e s h.merge_honest;
    scan_ended = h.scan_ended;
    read_ended = h.read_ended;
    merge_ended = h.merge_ended;
  }

  Move-Ends : {d e : Pipe File Reader} → Ends d → Move lib d e → Ends e
  Move-Ends h (by_scan m) = ScanMove-Ends h m
  Move-Ends h (by_read m) = ReadMove-Ends h m
  Move-Ends h (by_merge m) = MergeMove-Ends h m
  Move-Ends h (by_wait m) = WaitMove-Ends h m

  start-Honest : Honest running false false
  unfolding sent
  start-Honest = record {
    canceled_only = λ x. absurd (cc x);
    received_sent = λ x. absurd (cc x);
    received_cancels = λ e x. absurd (cc x);
  }

  pub Reach-Ends :
      (visits : List Visit) {d : Pipe File Reader} → Reach lib (start visits) d → Ends d
  unfolding start sent
  Reach-Ends visits here = record {
    scan_honest = start-Honest;
    read_honest = start-Honest;
    merge_honest = start-Honest;
    scan_ended = λ x. absurd (cc x);
    read_ended = λ x. absurd (cc x);
    merge_ended = λ x. absurd (cc x);
  }
  Reach-Ends visits (moved r m) = Move-Ends (Reach-Ends visits r) m
  Reach-Ends visits (interrupted {e = d} r) =
      let h = Reach-Ends visits r in
      record {
        scan_honest = later-Honest _ _ _ true h.scan_honest;
        read_honest = later-Honest _ _ _ true h.read_honest;
        merge_honest = later-Honest _ _ _ true h.merge_honest;
        scan_ended = h.scan_ended;
        read_ended = h.read_ended;
        merge_ended = h.merge_ended;
      }

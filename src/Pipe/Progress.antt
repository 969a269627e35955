-- ===== src/Pipe/Progress.antt =====
-- MergeLogs of channel_pipe/pipe.go always returns.
use go_util.Prelude.{
  ℕ, ◌+◌, ◌≤◌, ◌<◌, ◌≡◌, refl, ap, ◌⊎◌, inl, inr, none, some, Option, List, [], ◌∷◌, length, arith,
  Bool, true, false, Bool-cases,
}
use go_util.Pipe.Parts.{
  Error, real, canceled, Library, Visit, ReaderItem, Report, Status, running, returned, closed,
  Merging, receiving, checking, unmerged, Pipe, start, sent, is_closed, Returned, failed, reported,
  nil_report, receive_report, after_wait, first_failure, got, with_errs, merge_logs,
}
use go_util.Pipe.Moves.{
  capacity, cancels, scan_close, read_close, merge_item, merge_check, merge_done, merge_end,
  merge_close, wait_scan, wait_read, wait_merge, Move, by_scan, by_read, by_merge, by_wait, Moves,
  none_left, and_move, Reach, moved,
}
use go_util.Pipe.Honest.{Honest}
use go_util.Pipe.Ends.{Ends}
use go_util.Pipe.Ended.{Reach-Ends}
use go_util.Pipe.Work.{work, Moves-work}
use go_util.Pipe.Runs.{Runs, Reach-Runs}
use go_util.Pipe.Able.{Moving, stage_runs, stage_ends, scan_moves, read_moves}

module _ {File Reader : Type 0} (lib : Library File Reader) where
  -- An error that Wait has received means that the context is cancelled.
  received_cancelled :
      {status : Status} {cancelled : Bool} (e : Error)
      → Honest status true cancelled
      → sent status ≡ some (some e)
      → cancelled ≡ true
  unfolding cancels
  received_cancelled (real e) h s = h.received_cancels (some (real e)) refl s refl
  received_cancelled canceled h s = h.canceled_only s

  after_wait_returns :
      (failure : Option Error) (result : Option Report) (e : Option Error)
      → (o : Returned) × (after_wait failure result (closed e) ≡ some o)
  unfolding after_wait receive_report
  after_wait_returns (some x) result e = (failed x, refl)
  after_wait_returns none (some r) e = (reported r, refl)
  after_wait_returns none none e = (nil_report, refl)

  Progress : Pipe File Reader → Type 0
  Progress d = ((o : Returned) × (merge_logs d ≡ some o)) ⊎ Moving lib d

  module _ (d : Pipe File Reader) (h : Ends d) (runs_well : Runs d) where
    -- All three have closed their channels, and Wait has received from them.
    all_closed :
        (e0 e1 e2 : Option Error)
        → d.scan.status ≡ closed e0
        → d.read.status ≡ closed e1
        → d.merge.status ≡ closed e2
        → d.got_scan ≡ true
        → d.got_read ≡ true
        → d.got_merge ≡ true
        → Progress d
    unfolding Progress merge_logs got sent with_errs
    all_closed e0 e1 e2 s0 s1 s2 g0 g1 g2 =
        let (o, e) =
          after_wait_returns (first_failure d.cancelled (e0 ∷ e1 ∷ e2 ∷ []) e0) d.result e2 in
        inl (o, simp (s0, s1, s2, g0, g1, g2) e)

    -- Merge and Read have closed; Scan ends.
    scan_left :
        (e1 e2 : Option Error)
        → d.read.status ≡ closed e1
        → d.merge.status ≡ closed e2
        → d.got_read ≡ true
        → d.got_merge ≡ true
        → Progress d
    unfolding Progress Moving sent is_closed
    scan_left e1 e2 s1 s2 g1 g2 = on_scan d.scan.status refl
      where
        cancelled_or_ended :
            (x : Option Error) → e1 ≡ x → d.scan.status ≡ running → d.cancelled ≡ true
        cancelled_or_ended (some x) e s =
            let honest : Honest d.read.status true d.cancelled = rw g1 at h.read_honest in
            received_cancelled x honest (rw (s1, e) refl)
        cancelled_or_ended none e s =
            let shut = (h.read_ended (rw (s1, e) refl)).2 in
            let x : false ≡ true = rw s at shut in absurd (cc x)

        on_got :
            (e0 : Option Error)
            → d.scan.status ≡ closed e0
            → (g : Bool) → d.got_scan ≡ g
            → Progress d
        on_got e0 s true g = all_closed e0 e1 e2 s s1 s2 g g1 g2
        on_got e0 s false g = inr (_, by_wait (wait_scan e0 g (ap sent s)))

        on_scan : (st : Status) → d.scan.status ≡ st → Progress d
        on_scan running s = inr (scan_moves lib d s (inr (cancelled_or_ended e1 refl s)))
        on_scan (returned x) s =
            inr (_, by_scan (scan_close d.scan.at x (stage_ends lib d.scan x s)))
        on_scan (closed x) s = on_got x s d.got_scan refl

    -- Merge has closed; Read ends.
    read_left : (e2 : Option Error) → d.merge.status ≡ closed e2 → d.got_merge ≡ true → Progress d
    unfolding Progress Moving sent is_closed
    read_left e2 s2 g2 = on_read d.read.status refl
      where
        cancelled_or_ended :
            (x : Option Error) → e2 ≡ x → d.read.status ≡ running → d.cancelled ≡ true
        cancelled_or_ended (some x) e s =
            let honest : Honest d.merge.status true d.cancelled = rw g2 at h.merge_honest in
            received_cancelled x honest (rw (s2, e) refl)
        cancelled_or_ended none e s =
            let (r, at, result, no_items, shut) = h.merge_ended (rw (s2, e) refl) in
            let x : false ≡ true = rw s at shut in absurd (cc x)

        on_got :
            (e1 : Option Error)
            → d.read.status ≡ closed e1
            → (g : Bool) → d.got_read ≡ g
            → Progress d
        on_got e1 s true g = scan_left e1 e2 s s2 g g2
        on_got e1 s false g = inr (_, by_wait (wait_read e1 g (ap sent s)))

        on_read : (st : Status) → d.read.status ≡ st → Progress d
        on_read running s = inr (read_moves lib d runs_well s (inr (cancelled_or_ended e2 refl s)))
        on_read (returned x) s =
            inr (_, by_read (read_close d.read.at x (stage_ends lib d.read x s)))
        on_read (closed x) s = on_got x s d.got_read refl

    -- Merge runs.
    merge_moves : d.merge.status ≡ running → Moving lib d
    unfolding Moving is_closed
    merge_moves s = on_at d.merge.at refl
      where
        on_read :
            (r : Report)
            → d.merge.at ≡ receiving r
            → d.readers ≡ []
            → (st : Status) → d.read.status ≡ st
            → Moving lib d
        on_read r a q running e =
            let room : length d.readers < capacity = rw q (omega arith) in
            read_moves lib d runs_well e (inl room)
        on_read r a q (returned x) e =
            (_, by_read (read_close d.read.at x (stage_ends lib d.read x e)))
        on_read r a q (closed x) e =
            (_, by_merge (merge_end r (stage_runs lib d.merge _ s a) q (ap is_closed e)))

        on_readers :
            (r : Report)
            → d.merge.at ≡ receiving r
            → (items : List (ReaderItem File Reader)) → d.readers ≡ items
            → Moving lib d
        on_readers r a [] q = on_read r a q d.read.status refl
        on_readers r a (item ∷ rest) q =
            (_, by_merge (merge_item r item rest (stage_runs lib d.merge _ s a) q))

        on_at : (at : Merging) → d.merge.at ≡ at → Moving lib d
        on_at (receiving r) a = on_readers r a d.readers refl
        on_at (unmerged path bytes r) a = absurd (runs_well.merges path bytes r s a)
        on_at (checking r) a = elim (Bool-cases d.cancelled) [
          | inl c ↦ (_, by_merge (merge_done r (stage_runs lib d.merge _ s a) c))
          | inr c ↦ (_, by_merge (merge_check r (stage_runs lib d.merge _ s a) c))
        ]

    progress : Progress d
    unfolding Progress Moving sent
    progress = on_merge d.merge.status refl
      where
        on_got :
            (e2 : Option Error)
            → d.merge.status ≡ closed e2
            → (g : Bool) → d.got_merge ≡ g
            → Progress d
        on_got e2 s true g = read_left e2 s g
        on_got e2 s false g = inr (_, by_wait (wait_merge e2 g (ap sent s)))

        on_merge : (st : Status) → d.merge.status ≡ st → Progress d
        on_merge running s = inr (merge_moves s)
        on_merge (returned x) s =
            inr (_, by_merge (merge_close d.merge.at x (stage_ends lib d.merge x s)))
        on_merge (closed x) s = on_got x s d.got_merge refl

  Moves-Reach : {n : ℕ} {c d e : Pipe File Reader} → Reach lib c d → Moves lib n d e → Reach lib c e
  Moves-Reach r none_left = r
  Moves-Reach r (and_move ms m) = moved (Moves-Reach r ms) m

  -- MergeLogs always returns, however its goroutines are scheduled and whatever fails: from any state
  -- that can be reached there are at most as many moves as the work that is left, and after any
  -- of them either MergeLogs has returned or another move is possible.
  pub Moves-return :
      (visits : List Visit) {n : ℕ} {d e : Pipe File Reader}
      → Reach lib (start visits) d
      → Moves lib n d e
      → (n + work e ≤ work d)
        × (((o : Returned) × (merge_logs e ≡ some o)) ⊎ ((f : Pipe File Reader) × Move lib e f))
  unfolding Progress Moving
  Moves-return visits {e = e} r ms =
      let after = Moves-Reach r ms in
      (Moves-work lib ms, progress e (Reach-Ends lib visits after) (Reach-Runs lib visits after))

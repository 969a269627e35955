-- ===== src/Pipe/Outcome.antt =====
-- What MergeLogs of channel_pipe/pipe.go returns.
use go_util.Prelude.{
  ◌≡◌, refl, sym, ap, ◌∙◌, ◌⊎◌, inl, inr, none, some, Option, List, [], ◌∷◌, map, append-nil, Bool,
  true, false, Bool-cases,
}
use go_util.Pipe.Parts.{
  FilePath, Error, real, canceled, Library, Visit, Report, Status, running, returned, closed, Pipe,
  start, sent, is_failure, first_failure, Returned, failed, reported, nil_report, receive_report,
  after_wait, got, with_errs, merge_logs,
}
use go_util.Pipe.Moves.{Reach}
use go_util.Pipe.Flow.{plan, pending, held, in_readers, in_flight, flow, Reach-flow}
use go_util.Pipe.Written.{
  Text, blank, report_of, partial, merge_one, merge_all, Written, Reach-Written,
}
use go_util.Pipe.Ended.{Reach-Ends}

-- Without a cancellation no failure means no error at all.
no_failure :
    (e0 e1 e2 : Option Error)
    → first_failure false (e0 ∷ e1 ∷ e2 ∷ []) e0 ≡ none
    → (e0 ≡ none) × (e1 ≡ none) × (e2 ≡ none)
unfolding first_failure is_failure
no_failure none none none h = (refl, refl, refl)
no_failure none none (some (real e)) h = absurd (cc h)
no_failure none none (some canceled) h = absurd (cc h)
no_failure none (some (real e)) e2 h = absurd (cc h)
no_failure none (some canceled) e2 h = absurd (cc h)
no_failure (some (real e)) e1 e2 h = absurd (cc h)
no_failure (some canceled) e1 e2 h = absurd (cc h)

-- The failure is one of the errors.
first_failure-Mem :
    (cancelled : Bool) (e0 e1 e2 : Option Error) (e : Error)
    → first_failure cancelled (e0 ∷ e1 ∷ e2 ∷ []) e0 ≡ some e
    → (e0 ≡ some e) ⊎ (e1 ≡ some e) ⊎ (e2 ≡ some e)
unfolding first_failure
first_failure-Mem c e0 e1 e2 e h = elim (Bool-cases (is_failure c e0)) [
  | inl f ↦ inl (rw f at h)
  | inr n ↦ elim (Bool-cases (is_failure c e1)) [
    | inl f ↦ inr (inl (rw (n, f) at h))
    | inr m ↦ elim (Bool-cases (is_failure c e2)) [
      | inl f ↦ inr (inr (rw (n, m, f) at h))
      | inr l ↦ inl (rw (n, m, l) at h)
    ]
  ]
]

-- Wait either gives a failure or lets the report be received.
after_wait-cases :
    (failure : Option Error) (result : Option Report) (status : Status) (o : Returned)
    → after_wait failure result status ≡ some o
    → ((e : Error) × (failure ≡ some e) × (o ≡ failed e))
      ⊎ ((failure ≡ none) × (receive_report result status ≡ some o))
unfolding after_wait
after_wait-cases (some e) result status o h =
    let same : failed e ≡ o = cc h in inl (e, refl, sym same)
after_wait-cases none result status o h = inr (refl, h)

receive_report-some :
    (result : Option Report) (status : Status) (r : Report) (o : Returned)
    → result ≡ some r
    → receive_report result status ≡ some o
    → o ≡ reported r
unfolding receive_report
receive_report-some result status r o e h = let x : some (reported r) ≡ some o = rw e at h in cc x

no_failed :
    (result : Option Report) (status : Status) (e : Error)
    → receive_report result status ≡ some (failed e)
    → ⊥
unfolding receive_report
no_failed (some r) status e h = absurd (cc h)
no_failed none running e h = absurd (cc h)
no_failed none (returned x) e h = absurd (cc h)
no_failed none (closed x) e h = absurd (cc h)

got-sent :
    (b : Bool) (status : Status) (e : Option Error) → got b status ≡ some e → sent status ≡ some e
unfolding got
got-sent true status e h = h
got-sent false status e h = absurd (cc h)

module _ {File Reader : Type 0} (lib : Library File Reader) where
  -- The reference: the files that Walk gives merged in its order; `none` where it or a file fails.
  unfoldable pub sequentially : List (Option FilePath) → Option Text → Option Text
  sequentially [] t = t
  sequentially (none ∷ paths) t = none
  sequentially (some path ∷ paths) t = sequentially paths (merge_one lib path t)

  sequentially-merge_all :
      (paths : List FilePath) (t : Option Text)
      → sequentially (map some paths) t ≡ merge_all lib paths t
  unfolding sequentially merge_all
  sequentially-merge_all [] t = refl
  sequentially-merge_all (p ∷ paths) t = sequentially-merge_all paths (merge_one lib p t)

  -- What each result says of the run.
  unfoldable pub IsOutcome : List Visit → Pipe File Reader → Returned → Type 0
  IsOutcome visits d (reported r) =
      (d.cancelled ≡ true) ⊎ (sequentially (plan visits) (some ([], blank)) ≡ some (d.writer, r))
  IsOutcome visits d nil_report = d.cancelled ≡ true
  IsOutcome visits d (failed e) =
      (sent d.scan.status ≡ some (some e))
      ⊎ (sent d.read.status ≡ some (some e))
      ⊎ (sent d.merge.status ≡ some (some e))

  -- All stages have ended without an error.
  Clean : Pipe File Reader → Type 0
  Clean d =
      (sent d.scan.status ≡ some none)
      × (sent d.read.status ≡ some none)
      × (sent d.merge.status ≡ some none)

  Clean-result :
      (visits : List Visit) {d : Pipe File Reader}
      → Reach lib (start visits) d
      → Clean d
      → (r : Report) × (d.result ≡ some r)
        × (sequentially (plan visits) (some ([], blank)) ≡ some (d.writer, r))
  unfolding Clean flow in_flight plan in_readers held pending Written report_of partial
  Clean-result visits {d} reach (s0, s1, s2) =
      let ends = Reach-Ends lib visits reach in
      let (r, at, result, no_items, shut) = ends.merge_ended s2 in
      let (waits, no_paths, shut2) = ends.read_ended s1 in
      let all : map some d.merged ≡ plan visits =
        simp (at, no_items, waits, no_paths, ends.scan_ended s0, append-nil) at
          (Reach-flow lib visits reach) in
      let (text, m, w) = (Reach-Written lib visits reach).1 in
      let m2 : merge_all lib d.merged (some ([], blank)) ≡ some (text, r) = rw at at m in
      let w2 : d.writer ≡ text = rw (at, append-nil) at w in
      (
        r,
        result,
        ap (λ t. sequentially t (some ([], blank))) (sym all)
            ∙ sequentially-merge_all d.merged (some ([], blank))
            ∙ m2
            ∙ ap (λ t. some (t, r)) (sym w2),
      )

  -- A result means that Wait has received from all three.
  Received : Pipe File Reader → Returned → Type 0
  Received d o =
      (e0 e1 e2 : Option Error) × (sent d.scan.status ≡ some e0)
      × (sent d.read.status ≡ some e1)
      × (sent d.merge.status ≡ some e2)
      × (after_wait (first_failure d.cancelled (e0 ∷ e1 ∷ e2 ∷ []) e0) d.result d.merge.status
          ≡ some o)

  merge_logs-Received : (d : Pipe File Reader) (o : Returned) → merge_logs d ≡ some o → Received d o
  unfolding merge_logs Received with_errs
  merge_logs-Received d o h =
      all (got d.got_scan d.scan.status) (got d.got_read d.read.status)
        (got d.got_merge d.merge.status) refl refl refl h
    where
      all :
          (g0 g1 g2 : Option (Option Error))
          → got d.got_scan d.scan.status ≡ g0
          → got d.got_read d.read.status ≡ g1
          → got d.got_merge d.merge.status ≡ g2
          → with_errs d g0 g1 g2 ≡ some o
          → Received d o
      all (some e0) (some e1) (some e2) q0 q1 q2 h =
          (e0, e1, e2, got-sent _ _ e0 q0, got-sent _ _ e1 q1, got-sent _ _ e2 q2, h)
      all none g1 g2 q0 q1 q2 h = absurd (cc h)
      all (some e0) none g2 q0 q1 q2 h = absurd (cc h)
      all (some e0) (some e1) none q0 q1 q2 h = absurd (cc h)

  -- Without a cancellation a run that does not fail has the report of the reference.
  Uncancelled-result :
      (visits : List Visit) {d : Pipe File Reader} (o : Returned)
      → Reach lib (start visits) d
      → d.cancelled ≡ false
      → merge_logs d ≡ some o
      → ((e : Error) × (o ≡ failed e))
        ⊎ ((r : Report) × (o ≡ reported r)
            × (sequentially (plan visits) (some ([], blank)) ≡ some (d.writer, r)))
  unfolding Received Clean
  Uncancelled-result visits {d} o reach c h =
      let (e0, e1, e2, s0, s1, s2, end) = merge_logs-Received d o h in
      elim (after_wait-cases _ d.result d.merge.status o end) [
        | inl (e, x, y) ↦ inl (e, y)
        | inr (x, y) ↦
            let (n0, n1, n2) = no_failure e0 e1 e2 (rw c at x) in
            let (r, result, done) =
              Clean-result visits reach (s0 ∙ ap some n0, s1 ∙ ap some n1, s2 ∙ ap some n2) in
            inr (r, receive_report-some d.result d.merge.status r o result y, done)
      ]

  -- However the goroutines are scheduled: MergeLogs returns an error that a stage has returned; or a
  -- report, and then, unless the context was cancelled, no call of Walk and no file failed, the
  -- writer holds the text of all files in Walk's order, each with a newline, and the report counts
  -- their bytes and the files; or nil for the report without an error, only after a cancellation.
  pub merge_logs-IsOutcome :
      (visits : List Visit) {d : Pipe File Reader} (o : Returned)
      → Reach lib (start visits) d
      → merge_logs d ≡ some o
      → IsOutcome visits d o
  unfolding Received IsOutcome
  merge_logs-IsOutcome visits {d} (failed e) reach h =
      let (e0, e1, e2, s0, s1, s2, end) = merge_logs-Received d (failed e) h in
      elim (after_wait-cases _ d.result d.merge.status (failed e) end) [
        | inr (x, y) ↦ absurd (no_failed d.result d.merge.status e y)
        | inl (e3, x, y) ↦
            let same : e3 ≡ e = cc y in
            elim (first_failure-Mem d.cancelled e0 e1 e2 e3 x) [
              | inl z ↦ inl (s0 ∙ ap some (z ∙ ap some same))
              | inr (inl z) ↦ inr (inl (s1 ∙ ap some (z ∙ ap some same)))
              | inr (inr z) ↦ inr (inr (s2 ∙ ap some (z ∙ ap some same)))
            ]
      ]
  merge_logs-IsOutcome visits {d} (reported r) reach h = elim (Bool-cases d.cancelled) [
    | inl c ↦ inl c
    | inr c ↦ elim (Uncancelled-result visits (reported r) reach c h) [
      | inl (e, x) ↦ absurd (cc x)
      | inr (r2, x, done) ↦
          let same : r2 ≡ r = cc x in inr (done ∙ ap (λ t. some (d.writer, t)) same)
    ]
  ]
  merge_logs-IsOutcome visits {d} nil_report reach h = elim (Bool-cases d.cancelled) [
    | inl c ↦ c
    | inr c ↦ elim (Uncancelled-result visits nil_report reach c h) [
      | inl (e, x) ↦ absurd (cc x)
      | inr (r2, x, done) ↦ absurd (cc x)
    ]
  ]

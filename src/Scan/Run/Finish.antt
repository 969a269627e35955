-- ===== src/Scan/Run/Finish.antt =====
-- run of scan_ip_net/main.go ends when every batch has had responses.
use go_util.Prelude.{
  ℕ, suc, ◌+◌, ◌*◌, ◌≤◌, ◌<◌, ◌≡◌, refl, sym, ap, ◌∙◌, inl, inr, false, Option, none, some, List,
  [], ◌∷◌, ◌++◌, length, drop, All, All-append, append_assoc, append-nil, ltb, ◌==◌, if◌then◌else◌,
  Bool-cases, arith, ltb→lt, le→ltb_false, ltb_false→le,
}
use go_util.Scan.Cache.{GeoResponse, Cache, Saved, save_geo_to_cache, get_no_cache_ip}
use go_util.Scan.Run.{slice, batch_end, Progress, Ran, finished, after_post, run_loop, run}
use go_util.Scan.Run.Batches.{
  concat, concat-append, drop_all, answers, Fits, loops, rounds_cover, Batch, round-Batch,
}

module _ {Text : Type 0} (marshal : Cache → Text)
    (write_file : Option Text → Text → Option Text) where
  -- The loop has answered what is left of the lines, in batches that fit.
  Finishes : ℕ → List (List ℕ) → ℕ → Progress Text → Ran Text → Type 0
  Finishes size lines i p ran =
      (q : Progress Text) × (ran ≡ finished q)
      × (concat q.answered ≡ concat p.answered ++ drop (i * size) lines)
      × All (Fits size) q.answered

  module _ (size : ℕ) (lines : List (List ℕ)) (pos : 0 < size) where
    at_end :
        (i : ℕ) (p : Progress Text)
        → i ≡ loops size lines
        → All (Fits size) p.answered
        → Finishes size lines i p (finished p)
    unfolding Finishes
    at_end i p e fits =
        let cover = rounds_cover size lines pos in
        let over : length lines ≤ i * size = rw e cover in
        (
          p,
          refl,
          sym (ap (λ t. concat p.answered ++ t) (drop_all (i * size) lines over) ∙ append-nil _),
          fits,
        )

    answered-Finishes :
        (i : ℕ) (p : Progress Text) (saved : Saved Text) (batch : List (List ℕ)) (ran : Ran Text)
        → batch ++ drop (suc i * size) lines ≡ drop (i * size) lines
        → Finishes size lines
            (suc i)
            (record p { saved = saved; answered = p.answered ++ batch ∷ [] })
            ran
        → Finishes size lines i p ran
    unfolding Finishes
    answered-Finishes i p saved batch ran seam (q, e, all, fits) = (
      q,
      e,
      all
          ∙ ap (λ t. t ++ drop (suc i * size) lines) (concat-append p.answered batch)
          ∙ append_assoc (concat p.answered) batch (drop (suc i * size) lines)
          ∙ ap (λ t. concat p.answered ++ t) seam,
      fits,
    )

    -- A round that is run has a batch.
    round-Finishes :
        (i : ℕ) (p : Progress Text) (reply : Option (List GeoResponse))
        (next : ℕ → Progress Text → Ran Text)
        → i ≤ loops size lines
        → All (Fits size) p.answered
        → ((batch : List (List ℕ))
            → i < loops size lines
            → batch ++ drop (suc i * size) lines ≡ drop (i * size) lines
            → Fits size batch
            → Finishes size lines i p (after_post marshal write_file next i (some batch) reply p))
        → Finishes size lines i p (
            if ltb i (loops size lines)
            then after_post marshal write_file next i
                (slice lines (i * size) (batch_end size lines i))
                reply
                p
            else finished p)
    unfolding Batch
    round-Finishes i p reply next low fits posted = elim (Bool-cases (ltb i (loops size lines))) [
      | inr over ↦
          let ge = ltb_false→le i (loops size lines) over in
          rw over (at_end i p (omega (arith, ge, low)) fits)
      | inl lt ↦
          let inside = ltb→lt i (loops size lines) lt in
          let (batch, cut, seam, fit) = round-Batch size lines i pos inside in
          rw (lt, cut) (posted batch inside seam fit)
    ]

    run_loop-Finishes :
        (replies : List (Option (List GeoResponse))) (i : ℕ) (p : Progress Text)
        → i ≤ loops size lines
        → loops size lines ≤ i + answers replies
        → All (Fits size) p.answered
        → Finishes size lines i p
            (run_loop marshal write_file size lines (loops size lines) replies i p)
    unfolding run_loop after_post answers
    run_loop-Finishes [] i p low enough fits =
        let e : i ≡ loops size lines = omega (arith, low, enough) in
        rw (le→ltb_false i (loops size lines) (omega (arith, e))) (at_end i p e fits)
    run_loop-Finishes (none ∷ replies) i p low enough fits =
        round-Finishes i p none (run_loop marshal write_file size lines (loops size lines) replies)
          low fits (λ batch inside seam fit. run_loop-Finishes replies i p low enough fits)
    run_loop-Finishes (some res ∷ replies) i p low enough fits =
        round-Finishes i p (some res)
          (run_loop marshal write_file size lines (loops size lines) replies) low fits
          (λ batch inside seam fit.
            answered-Finishes i p (save_geo_to_cache marshal write_file res p.saved).0 batch _ seam
              (run_loop-Finishes replies (suc i) _ (omega (arith, inside)) (omega (arith, enough))
                (All-append (Fits size) p.answered (batch ∷ []) fits (fit, tt))))

  -- Where at least as many posts bring responses as there are batches, run ends, however many posts
  -- fail in between, and never panics on a positive size: the batches that were answered are, put
  -- together, the lines that were not in the cache, in their order and each once, and every
  -- batch has at least one line and at most the size.
  pub run-batches :
      (size : ℕ) (file_lines : List (List ℕ)) (replies : List (Option (List GeoResponse)))
      (saved : Saved Text)
      → 0 < size
      → loops size (get_no_cache_ip file_lines saved.cache) ≤ answers replies
      → (q : Progress Text) × (run marshal write_file size file_lines replies saved ≡ finished q)
        × (concat q.answered ≡ get_no_cache_ip file_lines saved.cache)
        × All (Fits size) q.answered
  unfolding run Finishes loops concat
  run-batches size file_lines replies saved pos enough =
      let lines = get_no_cache_ip file_lines saved.cache in
      let nonzero : (size == 0) ≡ false = ground (arith, pos) in
      let (q, e, all, fits) =
        run_loop-Finishes size lines pos replies 0 (record { saved = saved; answered = [] })
          (omega arith) (omega (arith, enough)) tt in
      let start : 0 * size ≡ 0 = omega arith in
      (q, rw nonzero e, all ∙ ap (λ k. drop k lines) start, fits)

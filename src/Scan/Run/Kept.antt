-- ===== src/Scan/Run/Kept.antt =====
-- What saveGEOToCache keeps, run keeps.
use go_util.Prelude.{
  ℕ, suc, ◌*◌, Bool-cases, inl, inr, Option, none, some, List, [], ◌∷◌, ltb, ◌==◌,
}
use go_util.Scan.Cache.{GeoResponse, Cache, Saved, save_geo_to_cache, get_no_cache_ip}
use go_util.Scan.Run.{
  Progress, Ran, finished, asking, panicked, after_post, run_loop, run, slice, batch_end,
}

-- Wherever a run stands, unless it panics.
unfoldable pub Stands : {Text : Type 0} → (Saved Text → Type 0) → Ran Text → Type 0
Stands P (finished p) = P p.saved
Stands P (asking p) = P p.saved
Stands P panicked = Unit

module _ {Text : Type 0} (marshal : Cache → Text) (write_file : Option Text → Text → Option Text)
    (P : Saved Text → Type 0)
    (keeps : (res : List GeoResponse) (w : Saved Text)
      → P w
      → P (save_geo_to_cache marshal write_file res w).0) where
  run_loop-Stands :
      (size : ℕ) (lines : List (List ℕ)) (loop : ℕ) (replies : List (Option (List GeoResponse)))
      (i : ℕ) (p : Progress Text)
      → P p.saved
      → Stands P (run_loop marshal write_file size lines loop replies i p)
  unfolding run_loop Stands
  run_loop-Stands size lines loop [] i p h = elim (Bool-cases (ltb i loop)) [
    | inl l ↦ rw l h
    | inr l ↦ rw l h
  ]
  run_loop-Stands size lines loop (reply ∷ replies) i p h = elim (Bool-cases (ltb i loop)) [
    | inl l ↦ rw l (
        posted (run_loop-Stands size lines loop replies)
          (slice lines (i * size) (batch_end size lines i)) reply)
    | inr l ↦ rw l h
  ]
    where
      posted :
          ((j : ℕ) (q : Progress Text)
            → P q.saved
            → Stands P (run_loop marshal write_file size lines loop replies j q))
          → (batch : Option (List (List ℕ))) (r : Option (List GeoResponse))
          → Stands P (
              after_post marshal write_file
                (run_loop marshal write_file size lines loop replies)
                i
                batch
                r
                p)
      posted next none r = tt
      posted next (some batch) none = next i p h
      posted next (some batch) (some res) = next (suc i) _ (keeps res p.saved h)

  pub run-Stands :
      (size : ℕ) (lines : List (List ℕ)) (replies : List (Option (List GeoResponse)))
      (saved : Saved Text)
      → P saved
      → Stands P (run marshal write_file size lines replies saved)
  unfolding run Stands
  run-Stands size lines replies saved h = elim (Bool-cases (size == 0)) [
    | inl z ↦ rw z tt
    | inr z ↦ rw z (
        run_loop-Stands size (get_no_cache_ip lines saved.cache) _ replies 0
          (record { saved = saved; answered = [] }) h)
  ]

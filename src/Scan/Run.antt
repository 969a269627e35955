-- ===== src/Scan/Run.antt =====
-- run of scan_ip_net/main.go. The lines of the file, the size of a batch and what each post brings are
-- arguments: the responses, or nil, which is `none`.
pub mod Batches
pub mod Finish
pub mod Kept
use go_util.Prelude.{
  ℕ, suc, ◌+◌, ◌-◌, ◌*◌, ◌/◌, Bool, ◌&&◌, Option, none, some, List, [], ◌∷◌, ◌++◌, length, take,
  drop, ltb, leb, ◌==◌, if◌then◌else◌,
}
use go_util.Scan.Cache.{GeoResponse, Cache, Saved, save_geo_to_cache, get_no_cache_ip}

-- lines[from:to] within the length.
unfoldable pub slice : List (List ℕ) → ℕ → ℕ → Option (List (List ℕ))
slice lines start end =
    if leb start end && leb end (length lines)
    then some (take (end - start) (drop start lines))
    else none

unfoldable pub batch_end : ℕ → List (List ℕ) → ℕ → ℕ
batch_end size lines i = if ltb (suc i * size) (length lines) then suc i * size else length lines

-- How the loop ends: all batches are answered, the answers end while it still asks, or it panics. With
-- it comes the history: the batches that were answered.
pub record Progress (Text : Type 0) : Type 0 where
  pub saved : Saved Text
  pub answered : List (List (List ℕ))

pub data Ran (Text : Type 0) : Type 0 where
  finished : Progress Text → Ran Text
  asking : Progress Text → Ran Text
  panicked : Ran Text

module _ {Text : Type 0} (marshal : Cache → Text)
    (write_file : Option Text → Text → Option Text) where
  -- After the post of a batch: without responses the same batch again, with i-- undone by i++.
  after_post :
      (ℕ → Progress Text → Ran Text)
      → ℕ
      → Option (List (List ℕ))
      → Option (List GeoResponse)
      → Progress Text
      → Ran Text
  after_post next i none reply p = panicked
  after_post next i (some batch) none p = next i p
  after_post next i (some batch) (some res) p = next (suc i) (record p {
    saved = (save_geo_to_cache marshal write_file res p.saved).0;
    answered = p.answered ++ batch ∷ [];
  })

  unfoldable pub run_loop :
      ℕ → List (List ℕ) → ℕ → List (Option (List GeoResponse)) → ℕ → Progress Text → Ran Text
  unfolding after_post
  run_loop size lines loop [] i p = if ltb i loop then asking p else finished p
  run_loop size lines loop (reply ∷ replies) i p =
      if ltb i loop
      then after_post (run_loop size lines loop replies) i
          (slice lines (i * size) (batch_end size lines i)) reply p
      else finished p

  -- A size of 0 is divided by.
  unfoldable pub run : ℕ → List (List ℕ) → List (Option (List GeoResponse)) → Saved Text → Ran Text
  run size file_lines replies saved =
      let lines = get_no_cache_ip file_lines saved.cache in
      if size == 0
      then panicked
      else run_loop size lines ((length lines + size - 1) / size) replies 0
          (record { saved = saved; answered = [] })

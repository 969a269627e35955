-- ===== src/Tests/Scan.antt =====
-- scan_ip_net/main.go: three lines, one of them in the cache, in batches of one.
use go_util.Prelude.{ℕ, ◌+◌, ◌≤◌, ◌≡◌, Option, none, some, List, [], ◌∷◌, length, All, arith}
use go_util.Prelude.Dict.{bytes_key, same_bytes, lookup}
use go_util.Scan.Cache.{
  GeoResponse, Cache, success, Saved, no_entry, save_geo_to_cache, get_no_cache_ip,
}
use go_util.Scan.Cache.Entries.{or_else, first_success, save_geo_to_cache-entries}
use go_util.Scan.Run.{Progress, finished, run}
use go_util.Scan.Run.Batches.{concat, answers, Fits, loops}
use go_util.Scan.Run.Finish.{run-batches}

abbrev about : List ℕ → GeoResponse
about ip = record {
  status = success;
  country = [];
  country_code = 67 ∷ [];
  region = [];
  region_name = [];
  city = [];
  zip = [];
  lat = 0;
  lon = 0;
  timezone = [];
  isp = [];
  org = [];
  as_name = [];
  query = ip;
}

abbrev known : Cache
known = (50 ∷ [], about (50 ∷ [])) ∷ []

abbrev saved : Saved Cache
saved = record { cache = known; cache_file = none }

abbrev write : Option Cache → Cache → Option Cache
write old text = some text

abbrev file_lines : List (List ℕ)
file_lines = (49 ∷ []) ∷ (50 ∷ []) ∷ (51 ∷ []) ∷ []

abbrev replies : List (Option (List GeoResponse))
replies = some (about (49 ∷ []) ∷ []) ∷ none ∷ some (about (51 ∷ []) ∷ []) ∷ []

enough : loops 1 (get_no_cache_ip file_lines known) ≤ answers replies
unfolding loops get_no_cache_ip lookup answers no_entry same_bytes
enough = omega arith

run-batches_example :
    (q : Progress Cache) × (run (λ c. c) write 1 file_lines replies saved ≡ finished q)
    × (concat q.answered ≡ get_no_cache_ip file_lines known)
    × All (Fits 1) q.answered
run-batches_example = run-batches (λ c. c) write 1 file_lines replies saved (omega arith) enough

abbrev response : List GeoResponse
response = about (49 ∷ []) ∷ about (50 ∷ []) ∷ []

save_geo_to_cache-entries_example :
    let (after, count) = save_geo_to_cache (λ c. c) write response saved in
    (lookup (49 ∷ []) after.cache
      ≡ or_else (lookup (49 ∷ []) known) (first_success (49 ∷ []) response))
    × (length after.cache ≡ length known + count)
    × (after.cache_file ≡ write none after.cache)
save_geo_to_cache-entries_example =
    save_geo_to_cache-entries (λ c. c) write (49 ∷ []) response saved

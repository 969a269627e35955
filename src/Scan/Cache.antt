-- ===== src/Scan/Cache.antt =====
-- GEOResponse, saveCache, saveGEOToCache and getNoCacheIp of scan_ip_net/main.go.
pub mod Entries
use go_util.Prelude.{
  ℕ, ◌+◌, Bool, true, false, ◌&&◌, Option, none, some, List, [], ◌∷◌, if◌then◌else◌,
}
use go_util.Prelude.Dict.{Dict, bytes_key, same_bytes, lookup, assign}

-- Latitude and longitude are the bits of their floats.
pub record GeoResponse : Type 0 where
  pub status : List ℕ
  pub country : List ℕ
  pub country_code : List ℕ
  pub region : List ℕ
  pub region_name : List ℕ
  pub city : List ℕ
  pub zip : List ℕ
  pub lat : ℕ
  pub lon : ℕ
  pub timezone : List ℕ
  pub isp : List ℕ
  pub org : List ℕ
  pub as_name : List ℕ
  pub query : List ℕ

abbrev pub Cache : Type 0
Cache = Dict (List ℕ) GeoResponse

-- "success"
abbrev pub success : List ℕ
success = 115 ∷ 117 ∷ 99 ∷ 99 ∷ 101 ∷ 115 ∷ 115 ∷ []

-- The cache, and what the file cache.json holds.
pub record Saved (Text : Type 0) : Type 0 where
  pub cache : Cache
  pub cache_file : Option Text

unfoldable pub no_entry : Option GeoResponse → Bool
no_entry none = true
no_entry (some r) = false

unfoldable pub is_new : GeoResponse → Cache → Bool
unfolding no_entry
is_new r cache = no_entry (lookup r.query cache) && same_bytes r.status success

-- One round of the loop: the cache, and how many were saved.
unfoldable pub save_one : GeoResponse → Cache × ℕ → Cache × ℕ
save_one r s = if is_new r s.0 then (assign r.query r s.0, s.1 + 1) else s

unfoldable pub save_loop : List GeoResponse → Cache × ℕ → Cache × ℕ
save_loop [] s = s
save_loop (r ∷ rs) s = save_loop rs (save_one r s)

-- json.Marshal of the cache, and what the file holds after ioutil.WriteFile.
module _ {Text : Type 0} (marshal : Cache → Text)
    (write_file : Option Text → Text → Option Text) where
  unfoldable pub save_cache : Saved Text → Saved Text
  save_cache w = record w { cache_file = write_file w.cache_file (marshal w.cache) }

  unfoldable pub save_geo_to_cache : List GeoResponse → Saved Text → Saved Text × ℕ
  save_geo_to_cache res w =
      let s = save_loop res (w.cache, 0) in (save_cache (record w { cache = s.0 }), s.1)

unfoldable pub get_no_cache_ip : List (List ℕ) → Cache → List (List ℕ)
unfolding no_entry
get_no_cache_ip [] cache = []
get_no_cache_ip (line ∷ lines) cache =
    let rest = get_no_cache_ip lines cache in
    if no_entry (lookup line cache) then line ∷ rest else rest

-- ===== src/Scan/Cache/Entries.antt =====
-- What saveGEOToCache of scan_ip_net/main.go leaves in the cache.
use go_util.Prelude.{
  ℕ, suc, ◌+◌, ◌≡◌, refl, sym, ap, ◌∙◌, inl, inr, ◌&&◌, Option, none, some, List, [], ◌∷◌, length,
  if◌then◌else◌, Bool-cases, Option-cases, arith,
}
use go_util.Prelude.Dict.{
  bytes_key, same_bytes, same_bytes→eq, lookup, assign, lookup-assign, remove_absent,
}
use go_util.Scan.Cache.{
  GeoResponse, Cache, success, Saved, no_entry, is_new, save_one, save_loop, save_cache,
  save_geo_to_cache,
}

unfoldable pub or_else : Option GeoResponse → Option GeoResponse → Option GeoResponse
or_else none later = later
or_else (some r) later = some r

-- The first response of a key that is a success.
unfoldable pub first_success : List ℕ → List GeoResponse → Option GeoResponse
first_success key [] = none
first_success key (r ∷ rs) =
    let later = first_success key rs in
    if same_bytes r.query key && same_bytes r.status success then some r else later

lookup-save_one :
    (key : List ℕ) (r : GeoResponse) (s : Cache × ℕ) (later : Option GeoResponse)
    → or_else (lookup key (save_one r s).0) later
      ≡ or_else
          (lookup key s.0)
          (if same_bytes r.query key && same_bytes r.status success then some r else later)
unfolding save_one is_new no_entry or_else
lookup-save_one key r s later = elim (Bool-cases (same_bytes r.status success)) [
  | inr bad ↦ elim (Bool-cases (same_bytes r.query key)) [
    | inl k ↦ elim (Option-cases (lookup r.query s.0)) [
      | inl n ↦ simp (bad, k, n) refl
      | inr (v, n) ↦ simp (bad, k, n) refl
    ]
    | inr k ↦ elim (Option-cases (lookup r.query s.0)) [
      | inl n ↦ simp (bad, k, n) refl
      | inr (v, n) ↦ simp (bad, k, n) refl
    ]
  ]
  | inl good ↦ elim (Option-cases (lookup r.query s.0)) [
    | inl n ↦
        let there = lookup-assign key r.query r s.0 in
        elim (Bool-cases (same_bytes r.query key)) [
          | inl k ↦
              let own : lookup key s.0 ≡ none =
                ap (λ t. lookup t s.0) (sym (same_bytes→eq r.query key k)) ∙ n in
              simp (good, n, k, own, there) refl
          | inr k ↦ simp (good, n, k, there) refl
        ]
    | inr (v, n) ↦ elim (Bool-cases (same_bytes r.query key)) [
      | inl k ↦
          let own : lookup key s.0 ≡ some v =
            ap (λ t. lookup t s.0) (sym (same_bytes→eq r.query key k)) ∙ n in
          simp (good, n, k, own) refl
      | inr k ↦ simp (good, n, k) refl
    ]
  ]
]

length-save_one :
    (r : GeoResponse) (s : Cache × ℕ) (n : ℕ)
    → length s.0 ≡ n + s.1
    → length (save_one r s).0 ≡ n + (save_one r s).1
unfolding save_one is_new no_entry assign
length-save_one r s n h = elim (Option-cases (lookup r.query s.0)) [
  | inr (v, e) ↦ simp e h
  | inl e ↦ elim (Bool-cases (same_bytes r.status success)) [
    | inr bad ↦ simp (e, bad) h
    | inl good ↦
        let grown : suc (length s.0) ≡ n + (s.1 + 1) = omega (arith, h) in
        simp (e, good, remove_absent r.query s.0 e) grown
  ]
]

lookup-save_loop :
    (key : List ℕ) (res : List GeoResponse) (s : Cache × ℕ)
    → lookup key (save_loop res s).0 ≡ or_else (lookup key s.0) (first_success key res)
unfolding save_loop first_success or_else
lookup-save_loop key [] s = sym (or_else_none (lookup key s.0))
  where
    or_else_none : (o : Option GeoResponse) → or_else o none ≡ o
    or_else_none none = refl
    or_else_none (some r) = refl
lookup-save_loop key (r ∷ rs) s =
    lookup-save_loop key rs (save_one r s) ∙ lookup-save_one key r s (first_success key rs)

length-save_loop :
    (res : List GeoResponse) (s : Cache × ℕ) (n : ℕ)
    → length s.0 ≡ n + s.1
    → length (save_loop res s).0 ≡ n + (save_loop res s).1
unfolding save_loop
length-save_loop [] s n h = h
length-save_loop (r ∷ rs) s n h = length-save_loop rs (save_one r s) n (length-save_one r s n h)

-- After saveGEOToCache an address has the entry it had before, or else the first response for it that
-- is a success; the number returned is by how many entries the cache grew; and the file is written
-- with the new cache.
pub save_geo_to_cache-entries :
    {Text : Type 0} (marshal : Cache → Text) (write_file : Option Text → Text → Option Text)
    (key : List ℕ) (res : List GeoResponse) (w : Saved Text)
    → let (after, saved) = save_geo_to_cache marshal write_file res w in
      (lookup key after.cache ≡ or_else (lookup key w.cache) (first_success key res))
      × (length after.cache ≡ length w.cache + saved)
      × (after.cache_file ≡ write_file w.cache_file (marshal after.cache))
unfolding save_geo_to_cache save_cache
save_geo_to_cache-entries marshal write_file key res w = (
  lookup-save_loop key res (w.cache, 0),
  length-save_loop res (w.cache, 0) (length w.cache) (omega arith),
  refl,
)

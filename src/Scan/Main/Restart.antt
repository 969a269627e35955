-- ===== src/Scan/Main/Restart.antt =====
-- What the program asks for when it is started again.
use go_util.Prelude.{
  ℕ, ◌≡◌, refl, sym, ap, ◌∙◌, inl, inr, Option, none, some, List, [], ◌∷◌, Bool-cases, map,
}
use go_util.Prelude.Dict.{bytes_key, same_bytes, lookup, lookup-assign}
use go_util.Scan.Cache.{
  GeoResponse, Cache, Saved, save_cache, save_geo_to_cache, save_loop, get_no_cache_ip,
}
use go_util.Scan.Run.{Ran, finished, asking, panicked, run}
use go_util.Scan.Run.Kept.{Stands, run-Stands}
use go_util.Scan.Main.{
  LineRead, Post, Codec, read_lines, build_request_json, add_all, load_from_cache, first_cache,
  started, main,
}

-- The caches hold the same.
unfoldable pub Same : Cache → Cache → Type 0
Same a b = (key : List ℕ) → lookup key a ≡ lookup key b

get_no_cache_ip-Same :
    (lines : List (List ℕ)) (a b : Cache)
    → Same a b
    → get_no_cache_ip lines a ≡ get_no_cache_ip lines b
unfolding get_no_cache_ip Same
get_no_cache_ip-Same [] a b h = refl
get_no_cache_ip-Same (l ∷ lines) a b h = rw (h l, get_no_cache_ip-Same lines a b h) refl

module _ {Text : Type 0} (codec : Codec Text) (write_file : Option Text → Text → Option Text) where
  or_before : Option GeoResponse → Option GeoResponse → Option GeoResponse
  or_before none before = before
  or_before (some r) before = some r

  lookup-add_all :
      (key : List ℕ) (es conf : Cache)
      → lookup key (add_all codec es conf) ≡ or_before (lookup key es) (lookup key conf)
  unfolding add_all or_before lookup
  lookup-add_all key [] conf = refl
  lookup-add_all key (e ∷ es) conf =
      lookup-assign key e.0 e.1 (add_all codec es conf) ∙ elim (Bool-cases (same_bytes e.0 key)) [
        | inl h ↦ rw h refl
        | inr h ↦ rw h (lookup-add_all key es conf)
      ]

  or_before-twice : (a b : Option GeoResponse) → or_before a (or_before a b) ≡ or_before a b
  unfolding or_before
  or_before-twice none b = refl
  or_before-twice (some r) b = refl

  or_before-none : (a : Option GeoResponse) → or_before a none ≡ a
  unfolding or_before
  or_before-none none = refl
  or_before-none (some r) = refl

  -- The file holds what the cache does.
  Stored : Saved Text → Type 0
  Stored w = Same (first_cache codec w.cache_file) w.cache

  first_cache-load :
      (file : Option Text) → Same (first_cache codec file) (load_from_cache codec file [])
  unfolding Same first_cache load_from_cache
  first_cache-load none key = refl
  first_cache-load (some text) key =
      let es = codec.entries text in
      lookup-add_all key es (add_all codec es [])
      ∙ ap (or_before (lookup key es)) (lookup-add_all key es [])
      ∙ or_before-twice (lookup key es) (lookup key [])
      ∙ sym (lookup-add_all key es [])

  first_cache-Stored :
      (file : Option Text) → Stored (record { cache = first_cache codec file; cache_file = file })
  unfolding Stored Same
  first_cache-Stored file key = refl

  -- What is marshalled is what comes back, and a file that is written holds it.
  module _ (decodes : (c : Cache) → Same (codec.entries (codec.marshal c)) c)
      (writes : (before : Option Text) (text : Text) → write_file before text ≡ some text) where
    save_geo_to_cache-Stored :
        (res : List GeoResponse) (w : Saved Text)
        → Stored (save_geo_to_cache codec.marshal write_file res w).0
    unfolding Stored save_geo_to_cache save_cache Same load_from_cache lookup or_before
    save_geo_to_cache-Stored res w key =
        let cache = (save_loop res (w.cache, 0)).0 in
        let text = codec.marshal cache in
        ap (λ f. lookup key (first_cache codec f)) (writes w.cache_file text)
        ∙ first_cache-load (some text) key
        ∙ lookup-add_all key (codec.entries text) []
        ∙ or_before-none (lookup key (codec.entries text))
        ∙ decodes cache key

    asks_same :
        (lines : List (List ℕ)) (r : Ran Text)
        → Stands Stored r
        → Stands
            (λ w.
              get_no_cache_ip lines (first_cache codec w.cache_file)
              ≡ get_no_cache_ip lines w.cache)
            r
    unfolding Stands Stored
    asks_same lines (finished p) h = get_no_cache_ip-Same lines _ _ h
    asks_same lines (asking p) h = get_no_cache_ip-Same lines _ _ h
    asks_same lines panicked h = tt

    started-Stands :
        (size : ℕ) (posts : List (Post Text)) (file : Option Text) (read : Option (List (List ℕ)))
        (r : Ran Text)
        → started codec write_file size posts file read ≡ some r
        → Stands Stored r
    unfolding started
    started-Stands size posts file none r h = absurd (cc h)
    started-Stands size posts file (some lines) r h =
        let ran =
          run codec.marshal write_file size lines (map (build_request_json codec) posts)
            (record { cache = first_cache codec file; cache_file = file }) in
        let same : ran ≡ r = cc h in
        rw (sym same) (
          run-Stands codec.marshal write_file Stored (λ res w k. save_geo_to_cache-Stored res w)
            size lines _ _ (first_cache-Stored file))

    -- Wherever the program stands, unless it panics or still reads its file, when it is started
    -- again it asks for those lines of any file that its cache does not have, and no others.
    pub main-restart :
        (size : ℕ) (login_file : Option (List LineRead)) (posts : List (Post Text))
        (file : Option Text) (r : Ran Text)
        → main codec write_file size login_file posts file ≡ some r
        → (lines : List (List ℕ))
        → Stands
            (λ w.
              get_no_cache_ip lines (first_cache codec w.cache_file)
              ≡ get_no_cache_ip lines w.cache)
            r
    unfolding main
    main-restart size login_file posts file r h lines =
        asks_same lines r (started-Stands size posts file (read_lines login_file) r h)

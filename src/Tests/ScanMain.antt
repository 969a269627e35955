-- ===== src/Tests/ScanMain.antt =====
-- scan_ip_net/main.go: one line, whose post fails once. A text is the cache that it holds.
use go_util.Prelude.{◌≡◌, refl, Option, none, some, List, [], ◌∷◌, map}
use go_util.Prelude.Dict.{bytes_key, same_bytes, lookup, assign, remove}
use go_util.Scan.Cache.{
  GeoResponse, Cache, success, is_new, no_entry, save_one, save_loop, save_cache, save_geo_to_cache,
  get_no_cache_ip,
}
use go_util.Scan.Run.{Ran, finished, run, run_loop, slice, batch_end}
use go_util.Scan.Run.Kept.{Stands}
use go_util.Scan.Main.{
  LineRead, line, end_of_file, Post, not_posted, content, Codec, read_loop, read_lines,
  build_request_json, add_all, load_from_cache, first_cache, started, main,
}
use go_util.Scan.Main.Restart.{Same, main-restart}

abbrev answer : GeoResponse
answer = record {
  status = success;
  country = [];
  country_code = 67 ∷ [];
  region = [];
  region_name = [];
  city = [];
  zip = [];
  lat = 0;
  lon = 0;
  timezone = [];
  isp = [];
  org = [];
  as_name = [];
  query = 49 ∷ [];
}

abbrev answered : Cache
answered = (49 ∷ [], answer) ∷ []

abbrev codec : Codec Cache
codec = record { marshal = λ c. c; entries = λ c. c; responses = λ c. some (map (λ e. e.1) c) }

abbrev write : Option Cache → Cache → Option Cache
write old text = some text

abbrev login_file : Option (List LineRead)
login_file = some (line (49 ∷ []) ∷ end_of_file ∷ [])

abbrev posts : List (Post Cache)
posts = not_posted ∷ content answered ∷ []

abbrev stands : Ran Cache
stands = finished (record {
  saved = record { cache = answered; cache_file = some answered };
  answered = ((49 ∷ []) ∷ []) ∷ [];
})

ran : main codec write 1 login_file posts none ≡ some stands
unfolding main started read_lines read_loop first_cache load_from_cache run run_loop slice batch_end
    get_no_cache_ip lookup no_entry save_geo_to_cache save_loop save_one is_new same_bytes assign
    remove save_cache build_request_json add_all
ran = refl

decodes : (c : Cache) → Same (codec.entries (codec.marshal c)) c
unfolding Same
decodes c key = refl

main-restart_example :
    Stands
      (λ w.
        get_no_cache_ip ((49 ∷ []) ∷ []) (first_cache codec w.cache_file)
        ≡ get_no_cache_ip ((49 ∷ []) ∷ []) w.cache)
      stands
main-restart_example =
    main-restart codec write decodes (λ before text. refl) 1 login_file posts none stands ran
      ((49 ∷ []) ∷ [])

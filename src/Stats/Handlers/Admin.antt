-- ===== src/Stats/Handlers/Admin.antt =====
-- A server that is told rates, and one that is started again on its file.
use go_util.Prelude.{
  ℕ, ◌≡◌, refl, ap, ◌∙◌, false, Option, none, some, List, [], ◌∷◌, ◌==◌, if◌then◌else◌,
}
use go_util.Prelude.Dict.{nat_key, bytes_key, lookup, lookup-assign, lookup-remove}
use go_util.Stats.Data.{SampleRate, Config}
use go_util.Stats.Library.{Library, Values, Query}
use go_util.Stats.Handlers.{
  World, uri_key, rate_key, expire_key, dumped, dump, load, read_at_init, restarted, sample_of,
  add_with, add_uri_rate, del_with, del_uri_rate, mode_uri_rate, expire_with, mode_rate_expire,
}

-- The requests that an administrator makes.
pub data Admin : Type 0 where
  add del mode expire : Query → Admin

-- SampleConfig as init makes it, before Load.
abbrev pub fresh : ℕ → ℕ → Config
fresh hour minute = record {
  uri_rate = [];
  country_code_uri_rate = [];
  expire = hour;
  report_interval_time = minute;
  rate = 50;
  has_db = false;
  has_influx = false;
}

module _ {Text : Type 0} (lib : Library Text) where
  unfoldable pub serve : Admin → World Text → World Text
  serve (add q) w = (add_uri_rate lib q w).1
  serve (del q) w = (del_uri_rate lib q w).1
  serve (mode q) w = (mode_uri_rate lib q w).1
  serve (expire q) w = (mode_rate_expire lib q w).1

  unfoldable pub run : List Admin → World Text → World Text
  run [] w = w
  run (r ∷ rest) w = run rest (serve r w)

  -- What the requests say of one uri.
  unfoldable pub added : ℕ → Option Values → Option Values → Option SampleRate → Option SampleRate
  added u none rate before = before
  added u (some uri) none before = before
  added u (some uri) (some rate) before =
      if lib.parse_int32 uri.first == u then some (sample_of lib uri rate) else before

  unfoldable pub deleted : ℕ → Option Values → Option SampleRate → Option SampleRate
  deleted u none before = before
  deleted u (some uri) before = if lib.parse_int32 uri.first == u then none else before

  unfoldable pub rate_after : ℕ → List Admin → Option SampleRate → Option SampleRate
  rate_after u [] before = before
  rate_after u (add q ∷ rest) before =
      rate_after u rest (added u (lookup uri_key q) (lookup rate_key q) before)
  rate_after u (del q ∷ rest) before = rate_after u rest (deleted u (lookup uri_key q) before)
  rate_after u (mode q ∷ rest) before = rate_after u rest before
  rate_after u (expire q ∷ rest) before = rate_after u rest before

  -- A file that is written holds what was written to it, what is marshalled can be, and a
  -- configuration that is read into a fresh one is the one that was marshalled.
  pub record IsWorking (hour minute : ℕ) : Type 0 where
    pub written : (old : Option Text) (text : Text) → lib.write_file old text ≡ some text
    pub marshalled : (c : Config) → (text : Text) × (lib.marshal c ≡ some text)
    pub reloaded :
        (c : Config) (text : Text)
        → lib.marshal c ≡ some text
        → (u : ℕ) → lookup u (lib.unmarshal text (fresh hour minute)).uri_rate ≡ lookup u c.uri_rate

  dump-config : (w : World Text) → (dump lib w).config ≡ w.config
  unfolding dump dumped
  dump-config w = of_text (lib.marshal w.config)
    where
      of_text : (text : Option Text) → (dumped lib w text).config ≡ w.config
      of_text none = refl
      of_text (some text) = refl

  add-rates :
      (u : ℕ) (uri rate : Option Values) (w : World Text)
      → lookup u (add_with lib uri rate w).1.config.uri_rate
        ≡ added u uri rate (lookup u w.config.uri_rate)
  unfolding add_with added
  add-rates u none rate w = refl
  add-rates u (some uri) none w = refl
  add-rates u (some uri) (some rate) w =
      ap (λ c. lookup u c.uri_rate) (dump-config _)
      ∙ lookup-assign u (lib.parse_int32 uri.first) (sample_of lib uri rate) w.config.uri_rate

  del-rates :
      (u : ℕ) (uri : Option Values) (w : World Text)
      → lookup u (del_with lib uri w).1.config.uri_rate ≡ deleted u uri (lookup u w.config.uri_rate)
  unfolding del_with deleted
  del-rates u none w = refl
  del-rates u (some uri) w =
      ap (λ c. lookup u c.uri_rate) (dump-config _)
      ∙ lookup-remove u (lib.parse_int32 uri.first) w.config.uri_rate

  expire-rates :
      (u : ℕ) (v : Option Values) (w : World Text)
      → lookup u (expire_with lib v w).1.config.uri_rate ≡ lookup u w.config.uri_rate
  unfolding expire_with
  expire-rates u none w = refl
  expire-rates u (some v) w = ap (λ c. lookup u c.uri_rate) (dump-config _)

  -- After any requests the server has for each uri the rate that the requests say.
  pub run-rates :
      (u : ℕ) (reqs : List Admin) (w : World Text)
      → lookup u (run reqs w).config.uri_rate ≡ rate_after u reqs (lookup u w.config.uri_rate)
  unfolding run serve rate_after add_uri_rate del_uri_rate mode_uri_rate mode_rate_expire
  run-rates u [] w = refl
  run-rates u (add q ∷ rest) w =
      run-rates u rest (add_uri_rate lib q w).1
      ∙ ap (rate_after u rest) (add-rates u (lookup uri_key q) (lookup rate_key q) w)
  run-rates u (del q ∷ rest) w =
      run-rates u rest (del_uri_rate lib q w).1
      ∙ ap (rate_after u rest) (del-rates u (lookup uri_key q) w)
  run-rates u (mode q ∷ rest) w = run-rates u rest w
  run-rates u (expire q ∷ rest) w =
      run-rates u rest (mode_rate_expire lib q w).1
      ∙ ap (rate_after u rest) (expire-rates u (lookup expire_key q) w)

  dump-other_default : (w : World Text) → (dump lib w).other_default ≡ w.other_default
  unfolding dump dumped
  dump-other_default w = of_text (lib.marshal w.config)
    where
      of_text : (text : Option Text) → (dumped lib w text).other_default ≡ w.other_default
      of_text none = refl
      of_text (some text) = refl

  serve-other_default : (r : Admin) (w : World Text) → (serve r w).other_default ≡ w.other_default
  unfolding serve add_uri_rate del_uri_rate mode_uri_rate mode_rate_expire add_with del_with
      expire_with
  serve-other_default (add q) w = by_add (lookup uri_key q) (lookup rate_key q)
    where
      by_add :
          (uri rate : Option Values) → (add_with lib uri rate w).1.other_default ≡ w.other_default
      by_add none rate = refl
      by_add (some uri) none = refl
      by_add (some uri) (some rate) = dump-other_default _
  serve-other_default (del q) w = by_del (lookup uri_key q)
    where
      by_del : (uri : Option Values) → (del_with lib uri w).1.other_default ≡ w.other_default
      by_del none = refl
      by_del (some uri) = dump-other_default _
  serve-other_default (mode q) w = refl
  serve-other_default (expire q) w = by_expire (lookup expire_key q)
    where
      by_expire : (v : Option Values) → (expire_with lib v w).1.other_default ≡ w.other_default
      by_expire none = refl
      by_expire (some v) = dump-other_default _

  run-other_default :
      (reqs : List Admin) (w : World Text) → (run reqs w).other_default ≡ w.other_default
  unfolding run
  run-other_default [] w = refl
  run-other_default (r ∷ rest) w = run-other_default rest (serve r w) ∙ serve-other_default r w

  -- Without -conf the one, with it the other.
  unfoldable pub with_conf :
      Option (Option Text) → Option SampleRate → Option SampleRate → Option SampleRate
  with_conf none without given = without
  with_conf (some default_file) without given = given

  -- The file holds the configuration.
  abbrev pub IsSaved : World Text → Type 0
  IsSaved w = w.file ≡ lib.marshal w.config

  module _ {hour minute : ℕ} (works : IsWorking hour minute) where
    dump-IsSaved : (w : World Text) → IsSaved (dump lib w)
    unfolding dump dumped
    dump-IsSaved w =
        let (text, e) = works.marshalled w.config in simp (e, works.written w.file text) refl

    serve-IsSaved : (r : Admin) (w : World Text) → IsSaved w → IsSaved (serve r w)
    unfolding serve add_uri_rate del_uri_rate mode_uri_rate mode_rate_expire add_with del_with
        expire_with
    serve-IsSaved (add q) w h = by_add (lookup uri_key q) (lookup rate_key q)
      where
        by_add : (uri rate : Option Values) → IsSaved (add_with lib uri rate w).1
        by_add none rate = h
        by_add (some uri) none = h
        by_add (some uri) (some rate) = dump-IsSaved _
    serve-IsSaved (del q) w h = by_del (lookup uri_key q)
      where
        by_del : (uri : Option Values) → IsSaved (del_with lib uri w).1
        by_del none = h
        by_del (some uri) = dump-IsSaved _
    serve-IsSaved (mode q) w h = h
    serve-IsSaved (expire q) w h = by_expire (lookup expire_key q)
      where
        by_expire : (v : Option Values) → IsSaved (expire_with lib v w).1
        by_expire none = h
        by_expire (some v) = dump-IsSaved _

    run-IsSaved : (reqs : List Admin) (w : World Text) → IsSaved w → IsSaved (run reqs w)
    unfolding run
    run-IsSaved [] w h = h
    run-IsSaved (r ∷ rest) w h = run-IsSaved rest (serve r w) (serve-IsSaved r w h)

    -- While the file can be written and holds the configuration, a server that is started again without
    -- -conf after any requests has for each uri the rate that the requests say; one with -conf, whose file
    -- is not the default one, has the rate that it had before them when it was started again, since
    -- init reads the default file.
    pub restart-rates :
        (u : ℕ) (reqs : List Admin) (w : World Text)
        → IsSaved w
        → lookup u (restarted lib (fresh hour minute) (run reqs w)).uri_rate
          ≡ with_conf w.other_default
              (rate_after u reqs (lookup u w.config.uri_rate))
              (lookup u (restarted lib (fresh hour minute) w).uri_rate)
    unfolding restarted load read_at_init with_conf
    restart-rates u reqs w h = by_flag w.other_default refl
      where
        after : World Text
        after = run reqs w

        by_flag :
            (given : Option (Option Text))
            → w.other_default ≡ given
            → lookup u (restarted lib (fresh hour minute) after).uri_rate
              ≡ with_conf given
                  (rate_after u reqs (lookup u w.config.uri_rate))
                  (lookup u (restarted lib (fresh hour minute) w).uri_rate)
        by_flag none e =
            let (text, m) = works.marshalled after.config in
            rw (run-other_default reqs w ∙ e, run-IsSaved reqs w h ∙ m)
              (works.reloaded after.config text m u ∙ run-rates u reqs w)
        by_flag (some default_file) e = rw (run-other_default reqs w ∙ e, e) refl

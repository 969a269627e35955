-- ===== src/Stats/Handlers.antt =====
-- The handlers of gracefull_server/http/http_server.go that read and change the configuration.
pub mod Admin
use go_util.Prelude.{ℕ, Bool, true, false, Option, none, some, List, [], ◌∷◌}
use go_util.Prelude.Dict.{Dict, Key, nat_key, bytes_key, lookup, remove, assign}
use go_util.Stats.Data.{SampleRate, Config, RateReq, RateRes}
use go_util.Stats.Config.{Heap, Answer, get_sample_rate_by_uid, get_sample_all_rate}
use go_util.Stats.Library.{Library, Values, Query}

-- The server's configuration, what is in the file that *configFile names once the flags are parsed
-- (`none` where there is none), which is what the handlers dump to, and, where -conf names another one,
-- what is in the file of the flag's default, which init reads before they are parsed.
pub record World (Text : Type 0) : Type 0 where
  pub config : Config
  pub file : Option Text
  pub other_default : Option (Option Text)

-- What a handler writes: one of its texts, or a response that was encoded.
pub data Written : Type 0 where
  add_no_uri add_no_rate mode_no_uri mode_no_rate del_no_uri no_expire uri_rate_ok expire_ok :
      Written
  format_err marshal_err : Written
  json_rates : RateRes → Heap → Written
  binary : List ℕ → Written

abbrev pub Response : Type 0 → Type 0
Response Text = List Written × World Text

abbrev pub uri_key : List ℕ
uri_key = 117 ∷ 114 ∷ 105 ∷ []

abbrev pub rate_key : List ℕ
rate_key = 114 ∷ 97 ∷ 116 ∷ 101 ∷ []

abbrev pub expire_key : List ℕ
expire_key = 101 ∷ 120 ∷ 112 ∷ 105 ∷ 114 ∷ 101 ∷ 95 ∷ 115 ∷ 101 ∷ 99 ∷ []

module _ {Text : Type 0} (lib : Library Text) where
  -- Dump, whose error the handlers do not look at.
  unfoldable pub dumped : World Text → Option Text → World Text
  dumped w none = w
  dumped w (some text) = record w { file = lib.write_file w.file text }

  unfoldable pub dump : World Text → World Text
  dump w = dumped w (lib.marshal w.config)

  -- Load, into this configuration.
  unfoldable pub load : Option Text → Config → Config
  load none c = c
  load (some text) c = lib.unmarshal text c

  unfoldable pub read_at_init : Option Text → Option (Option Text) → Option Text
  read_at_init file none = file
  read_at_init file (some default_file) = default_file

  -- The configuration of a server that is started with the same flags: init makes `first` and loads.
  unfoldable pub restarted : Config → World Text → Config
  restarted first w = load (read_at_init w.file w.other_default) first

  abbrev pub sample_of : Values → Values → SampleRate
  sample_of uri rate = record {
    uri = some (lib.parse_int32 uri.first);
    rate = some (lib.parse_int32 rate.first);
    expire_second = none;
  }

  unfoldable pub add_with : Option Values → Option Values → World Text → Response Text
  add_with none rate w = (add_no_uri ∷ uri_rate_ok ∷ [], w)
  add_with (some uri) none w = (add_no_rate ∷ uri_rate_ok ∷ [], w)
  add_with (some uri) (some rate) w =
      let rates = assign (lib.parse_int32 uri.first) (sample_of uri rate) w.config.uri_rate in
      (uri_rate_ok ∷ [], dump (record w { config = record w.config { uri_rate = rates } }))

  unfoldable pub add_uri_rate : Query → World Text → Response Text
  add_uri_rate q w = add_with (lookup uri_key q) (lookup rate_key q) w

  -- `remove` changes nothing where the key is missing, which the handler asks first.
  unfoldable pub del_with : Option Values → World Text → Response Text
  del_with none w = (del_no_uri ∷ uri_rate_ok ∷ [], w)
  del_with (some uri) w =
      let rates = remove (lib.parse_int32 uri.first) w.config.uri_rate in
      (uri_rate_ok ∷ [], dump (record w { config = record w.config { uri_rate = rates } }))

  unfoldable pub del_uri_rate : Query → World Text → Response Text
  del_uri_rate q w = del_with (lookup uri_key q) w

  unfoldable pub mode_with : Option Values → Option Values → List Written
  mode_with none rate = mode_no_uri ∷ uri_rate_ok ∷ []
  mode_with (some uri) none = mode_no_rate ∷ uri_rate_ok ∷ []
  mode_with (some uri) (some rate) = uri_rate_ok ∷ []

  unfoldable pub mode_uri_rate : Query → World Text → Response Text
  mode_uri_rate q w = (mode_with (lookup uri_key q) (lookup rate_key q), w)

  unfoldable pub expire_with : Option Values → World Text → Response Text
  expire_with none w = (no_expire ∷ expire_ok ∷ [], w)
  expire_with (some v) w =
      let expire = lib.duration_of (lib.parse_int32 v.first) in
      (expire_ok ∷ [], dump (record w { config = record w.config { expire = expire } }))

  unfoldable pub mode_rate_expire : Query → World Text → Response Text
  mode_rate_expire q w = expire_with (lookup expire_key q) w

  abbrev pub empty_res : Option ℕ → Option ℕ → RateRes
  empty_res seqid uid = record {
    seqid = seqid;
    uid = uid;
    rates = [];
    global_expire_second = 0;
    report_interval_time = 0;
  }

  unfoldable pub dump_uri_rate : World Text → Response Text
  dump_uri_rate w =
      let a = get_sample_all_rate lib.seconds_of w.config (empty_res (some 0) (some 0)) [] in
      (json_rates a.res a.heap ∷ [], w)

  -- The answer to a request that was decoded; `drawn` is the random number.
  unfoldable pub rates_for : Config → ℕ → RateReq → Answer
  rates_for c drawn req =
      get_sample_rate_by_uid lib.seconds_of c drawn req.country_code (empty_res req.seqid req.uid)
        []

  unfoldable pub pulled_json : Config → ℕ → Option RateReq → List Written
  pulled_json c drawn none = format_err ∷ []
  pulled_json c drawn (some req) = let a = rates_for c drawn req in json_rates a.res a.heap ∷ []

  unfoldable pub pull_rtt_rate_json : ℕ → List ℕ → World Text → Response Text
  pull_rtt_rate_json drawn body w = (pulled_json w.config drawn (lib.json_rate_req body), w)

  unfoldable pub encoded : Option (List ℕ) → List Written
  encoded none = marshal_err ∷ []
  encoded (some data') = binary data' ∷ []

  unfoldable pub pulled : Config → ℕ → Option RateReq → List Written
  pulled c drawn none = format_err ∷ []
  pulled c drawn (some req) =
      let a = rates_for c drawn req in encoded (lib.pb_rate_res a.res a.heap)

  unfoldable pub pull_rtt_rate : ℕ → List ℕ → World Text → Response Text
  pull_rtt_rate drawn body w = (pulled w.config drawn (lib.pb_rate_req body), w)

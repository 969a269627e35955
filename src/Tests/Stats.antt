-- ===== src/Tests/Stats.antt =====
-- gracefull_server/http: a server whose file holds the configuration itself.
use go_util.Prelude.{
  ℕ, ◌+◌, ◌≡◌, refl, sym, ap, true, false, none, some, List, [], ◌∷◌, ◌++◌, length, map, replicate,
}
use go_util.Prelude.Dict.{Dict, nat_key, bytes_key, lookup, same_bytes}
use go_util.Stats.Data.{SampleRate, Config, RateRes, ReportReq}
use go_util.Stats.Library.{Library, Values, Query}
use go_util.Stats.Handlers.{World, uri_key, rate_key, restarted}
use go_util.Stats.Handlers.Admin.{
  Admin, add, del, fresh, IsWorking, run, rate_after, with_conf, restart-rates,
}
use go_util.Stats.Reports.{Stores, item_of, my_measurement, save_sample_rtt_stat}
use go_util.Stats.Reports.Stored.{created, accepted, timed, save_sample_rtt_stat-stores}

-- Numbers are read as the length of their text, seconds are counted as they are.
abbrev lib : Library Config
lib = record {
  parse_int32 = length;
  duration_of = λ n. n;
  seconds_of = λ n. n;
  marshal = λ c. some c;
  unmarshal = λ text c. text;
  write_file = λ old text. some text;
  json_rate_req = λ body. none;
  pb_rate_req = λ body. none;
  pb_rate_res = λ res heap. none;
  json_report_req = λ body. none;
  pb_report_req = λ body. none;
  pb_report_res = λ res. none;
}

some_inj : (a b : Config) → some a ≡ some b → a ≡ b
some_inj a b e = cc e

lib-IsWorking : IsWorking lib 3600 60
lib-IsWorking = record {
  written = λ old text. refl;
  marshalled = λ c. (c, refl);
  reloaded = λ c text e u. ap (λ t. lookup u t.uri_rate) (sym (some_inj c text e));
}

abbrev value : ℕ → Values
value n = record { first = replicate n 49; rest = [] }

abbrev adds : ℕ → ℕ → Query
adds uri rate = (uri_key, value uri) ∷ (rate_key, value rate) ∷ []

abbrev dels : ℕ → Query
dels uri = (uri_key, value uri) ∷ []

abbrev at_start : World Config
at_start = record { config = fresh 3600 60; file = some (fresh 3600 60); other_default = none }

abbrev requests : List Admin
requests = add (adds 2 5) ∷ add (adds 3 7) ∷ del (dels 2) ∷ []

abbrev no_rates : Dict ℕ SampleRate
no_rates = []

restart-rates_example :
    lookup 3 (restarted lib (fresh 3600 60) (run lib requests at_start)).uri_rate
    ≡ rate_after lib 3 requests (lookup 3 no_rates)
unfolding with_conf
restart-rates_example = restart-rates lib lib-IsWorking 3 requests at_start refl

abbrev rate_of : ℕ → ℕ → SampleRate
rate_of uri rate = record { uri = some uri; rate = some rate; expire_second = none }

abbrev config : Config
config = record (fresh 3600 60) {
  uri_rate = (7, rate_of 7 50) ∷ (8, rate_of 8 20) ∷ [];
  country_code_uri_rate = (67 ∷ [], rate_of 1 10 ∷ rate_of 2 20 ∷ rate_of 3 30 ∷ []) ∷ [];
  has_db = true;
  has_influx = true;
}

abbrev no_res : RateRes
no_res = record {
  seqid = none;
  uid = none;
  rates = [];
  global_expire_second = 0;
  report_interval_time = 0;
}

china :
    lookup (67 ∷ []) config.country_code_uri_rate
    ≡ some ((rate_of 1 10 ∷ rate_of 2 20 ∷ []) ++ (rate_of 3 30 ∷ []))
unfolding lookup same_bytes
china = refl

abbrev report : ReportReq
report = record {
  seqid = 1;
  appid = 2;
  version = [];
  uid = 3;
  client_type = [];
  sample =
      record { uri = 1; avg_rtt_ms = 30; proto_send_times = 4 }
      ∷ (record { uri = 2; avg_rtt_ms = 40; proto_send_times = 5 } ∷ []);
}

-- The database refuses the first row.
abbrev stores : Stores
stores = record {
  rows = [];
  creates = false ∷ [];
  points = [];
  writes = [];
  clock = λ n. 1600000000 + n;
}

save_sample_rtt_stat-stores_example :
    ((save_sample_rtt_stat config report stores).rows
      ≡ created (false ∷ []) (map (item_of report) report.sample))
    × ((save_sample_rtt_stat config report stores).points
        ≡ accepted [] (timed my_measurement report stores.clock report.sample))
save_sample_rtt_stat-stores_example = save_sample_rtt_stat-stores config report stores refl refl

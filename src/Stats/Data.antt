-- ===== src/Stats/Data.antt =====
-- The messages and the configuration of gracefull_server/http/http_server.go. An int32 or int64 is
-- its two's complement; a pointer field of a message is an Option.
use go_util.Prelude.{ℕ, ◌+◌, ◌%◌, ◌^◌, Bool, Option, List, ltb}
use go_util.Prelude.Dict.{Dict}

pub record SampleRate : Type 0 where
  pub uri : Option ℕ
  pub rate : Option ℕ
  pub expire_second : Option ℕ

-- Uri_report_sample_config; a time.Duration is its nanoseconds, and `has_db` and `has_influx` say
-- that the clients were made.
pub record Config : Type 0 where
  pub uri_rate : Dict ℕ SampleRate
  pub country_code_uri_rate : Dict (List ℕ) (List SampleRate)
  pub expire : ℕ
  pub report_interval_time : ℕ
  pub rate : ℕ
  pub has_db : Bool
  pub has_influx : Bool

-- app_rtt_rate_req
pub record RateReq : Type 0 where
  pub seqid : Option ℕ
  pub uid : Option ℕ
  pub country_code : List ℕ

-- app_rtt_rate_res; `rates` are the addresses of the rates.
pub record RateRes : Type 0 where
  pub seqid : Option ℕ
  pub uid : Option ℕ
  pub rates : List ℕ
  pub global_expire_second : ℕ
  pub report_interval_time : ℕ

-- sample_uri_rtt
pub record SampleUriRtt : Type 0 where
  pub uri : ℕ
  pub avg_rtt_ms : ℕ
  pub proto_send_times : ℕ

-- app_report_rtt_stat_req, as the getters read it
pub record ReportReq : Type 0 where
  pub seqid : ℕ
  pub appid : ℕ
  pub version : List ℕ
  pub uid : ℕ
  pub client_type : List ℕ
  pub sample : List SampleUriRtt

-- app_report_rtt_stat_res
pub record ReportRes : Type 0 where
  pub seqid : ℕ
  pub uid : ℕ
  pub appid : ℕ
  pub version : List ℕ
  pub res_code : ℕ

-- AppStatsItem
pub record AppStatsItem : Type 0 where
  pub seqid : ℕ
  pub appid : ℕ
  pub uid : ℕ
  pub client_type : List ℕ
  pub uri : ℕ
  pub version : List ℕ
  pub avg_rtt_ms : ℕ
  pub proto_send_times : ℕ

-- a < b of two int32
abbrev pub int32_lt : ℕ → ℕ → Bool
int32_lt a b = ltb ((a + 2 ^ 31) % 2 ^ 32) ((b + 2 ^ 31) % 2 ^ 32)

-- ===== src/Stats/Library.antt =====
-- What the handlers of gracefull_server/http/http_server.go call outside the repository.
use go_util.Prelude.{ℕ, Option, List}
use go_util.Prelude.Dict.{Dict}
use go_util.Stats.Data.{SampleRate, Config, RateReq, RateRes, ReportReq, ReportRes}

-- The values of a key of url.Values: there is one at least.
pub record Values : Type 0 where
  pub first : List ℕ
  pub rest : List (List ℕ)

abbrev pub Query : Type 0
Query = Dict (List ℕ) Values

-- `Text` is what a file holds.
pub record Library (Text : Type 0) : Type 0 where
  -- int32 of strconv.ParseInt(s, 10, 32), whose error is not looked at
  pub parse_int32 : List ℕ → ℕ
  -- time.ParseDuration(fmt.Sprintf("%ds", n))
  pub duration_of : ℕ → ℕ
  -- int32(d.Seconds())
  pub seconds_of : ℕ → ℕ
  -- json.Marshal of the configuration, and json.Unmarshal into one
  pub marshal : Config → Option Text
  pub unmarshal : Text → Config → Config
  -- what a file holds after ioutil.WriteFile, from what it held and the text
  pub write_file : Option Text → Text → Option Text
  -- the codecs of encoding/json and protobuf: `none` is an error
  pub json_rate_req : List ℕ → Option RateReq
  pub pb_rate_req : List ℕ → Option RateReq
  pub pb_rate_res : RateRes → List SampleRate → Option (List ℕ)
  pub json_report_req : List ℕ → Option ReportReq
  pub pb_report_req : List ℕ → Option ReportReq
  pub pb_report_res : ReportRes → Option (List ℕ)

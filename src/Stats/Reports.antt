-- ===== src/Stats/Reports.antt =====
-- Storing what clients report: save_db, WritesPoints, save_sample_rtt_stat and the handlers
-- report_uri_stat and report_uri_stat_json of gracefull_server/http/http_server.go.
pub mod Stored
use go_util.Prelude.{
  ℕ, suc, Bool, true, false, Option, none, some, List, [], ◌∷◌, ◌++◌, if◌then◌else◌,
}
use go_util.Stats.Data.{Config, SampleUriRtt, ReportReq, ReportRes, AppStatsItem}
use go_util.Stats.Library.{Library}

pub data Error : Type 0 where
  db_not_init influx_not_init : Error
  client : ℕ → Error

-- A point for the time series: its tags, its fields, and its time in seconds. (The service keeps one
-- point of equal tags for a second.)
pub record Point : Type 0 where
  pub table : List ℕ
  pub appid : ℕ
  pub version : List ℕ
  pub client_type : List ℕ
  pub uri : ℕ
  pub avg_rtt_ms : ℕ
  pub send_times : ℕ
  pub time : ℕ

-- The rows that the database took and the points that the client of the time series took, in order,
-- with what the next calls will bring: the database whether it takes a row, the client none or an
-- error, and the clock a time for each of the client's calls.
pub record Stores : Type 0 where
  pub rows : List AppStatsItem
  pub creates : List Bool
  pub points : List Point
  pub writes : List (Option ℕ)
  pub clock : ℕ → ℕ

abbrev pub item_of : ReportReq → SampleUriRtt → AppStatsItem
item_of req v = record {
  seqid = req.seqid;
  appid = req.appid;
  uid = req.uid;
  client_type = req.client_type;
  uri = v.uri;
  version = req.version;
  avg_rtt_ms = v.avg_rtt_ms;
  proto_send_times = v.proto_send_times;
}

-- db.Create(item); where nothing else is foreseen it succeeds.
unfoldable pub create_with : List Bool → AppStatsItem → Stores → Stores
create_with [] item s = record s { rows = s.rows ++ (item ∷ []) }
create_with (true ∷ rest) item s = record s { rows = s.rows ++ (item ∷ []); creates = rest }
create_with (false ∷ rest) item s = record s { creates = rest }

-- The loop of save_db; an error is logged, and the loop goes on.
unfoldable pub save_items : ReportReq → List SampleUriRtt → Stores → Stores
save_items req [] s = s
save_items req (v ∷ rest) s = save_items req rest (create_with s.creates (item_of req v) s)

-- The error of a Create is a variable of the loop's body, so it is not returned.
unfoldable pub save_db : Config → ReportReq → Stores → Option Error × Stores
save_db c req s = if c.has_db then (none, save_items req req.sample s) else (some db_not_init, s)

abbrev pub point_of : List ℕ → ReportReq → SampleUriRtt → ℕ → Point
point_of table req v time = record {
  table = table;
  appid = req.appid;
  version = req.version;
  client_type = req.client_type;
  uri = v.uri;
  avg_rtt_ms = v.avg_rtt_ms;
  send_times = v.proto_send_times;
  time = time;
}

-- The function WritesPoints, of one point; any of its calls may bring the error.
unfoldable pub write_with : List (Option ℕ) → Point → Stores → Option Error × Stores
write_with [] p s = (none, record s { points = s.points ++ (p ∷ []); clock = λ n. s.clock (suc n) })
write_with (none ∷ rest) p s =
    (none, record s { points = s.points ++ (p ∷ []); writes = rest; clock = λ n. s.clock (suc n) })
write_with (some e ∷ rest) p s =
    (some (client e), record s { writes = rest; clock = λ n. s.clock (suc n) })

unfoldable pub write_point : Bool → Point → Stores → Option Error × Stores
write_point has_influx p s =
    if has_influx then write_with s.writes p s else (some influx_not_init, s)

-- The method WritesPoints: the last point's error is the one returned.
unfoldable pub write_points :
    Bool → List ℕ → ReportReq → List SampleUriRtt → Option Error → Stores → Option Error × Stores
write_points has_influx table req [] e s = (e, s)
write_points has_influx table req (v ∷ rest) e s =
    let (e', s') = write_point has_influx (point_of table req v (s.clock 0)) s in
    write_points has_influx table req rest e' s'

-- MyMeasurement
abbrev pub my_measurement : List ℕ
my_measurement =
    97 ∷ 112 ∷ 112 ∷ 95 ∷ 117 ∷ 114 ∷ 105 ∷ 95 ∷ 114 ∷ 116 ∷ 116 ∷ 95 ∷ 115 ∷ 116 ∷ 97 ∷ 116 ∷ 115
    ∷ []

-- The errors of both are dropped.
unfoldable pub save_sample_rtt_stat : Config → ReportReq → Stores → Stores
save_sample_rtt_stat c req s =
    let saved = (save_db c req s).1 in
    (write_points c.has_influx my_measurement req req.sample none saved).1

-- What the handlers write.
pub data Reply : Type 0 where
  format_err marshal_err : Reply
  json_res : ReportRes → Reply
  binary : List ℕ → Reply

abbrev pub res_of : ReportReq → ReportRes
res_of req = record {
  seqid = req.seqid;
  uid = req.uid;
  appid = req.appid;
  version = req.version;
  res_code = 200;
}

unfoldable pub reported_json : Config → Option ReportReq → Stores → Reply × Stores
reported_json c none s = (format_err, s)
reported_json c (some req) s = (json_res (res_of req), save_sample_rtt_stat c req s)

unfoldable pub report_uri_stat_json :
    {Text : Type 0} → Library Text → Config → List ℕ → Stores → Reply × Stores
report_uri_stat_json lib c body s = reported_json c (lib.json_report_req body) s

unfoldable pub encoded_res : Option (List ℕ) → Reply
encoded_res none = marshal_err
encoded_res (some data') = binary data'

unfoldable pub reported :
    {Text : Type 0} → Library Text → Config → Option ReportReq → Stores → Reply × Stores
reported lib c none s = (format_err, s)
reported lib c (some req) s =
    (encoded_res (lib.pb_report_res (res_of req)), save_sample_rtt_stat c req s)

unfoldable pub report_uri_stat :
    {Text : Type 0} → Library Text → Config → List ℕ → Stores → Reply × Stores
report_uri_stat lib c body s = reported lib c (lib.pb_report_req body) s

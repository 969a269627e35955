-- ===== src/Stats/Config.antt =====
-- What Uri_report_sample_config answers: get_sample_rate_by_uid, get_sample_rate_by_country and
-- get_sample_all_rate of gracefull_server/http/http_server.go.
pub mod Rates
use go_util.Prelude.{
  ℕ, zero, suc, Bool, true, false, Option, none, some, List, [], ◌∷◌, ◌++◌, length, get_elem?, ◌==◌,
  if◌then◌else◌,
}
use go_util.Prelude.Dict.{Dict, bytes_key, lookup}
use go_util.Stats.Data.{SampleRate, Config, RateRes, int32_lt}

-- The memory that the rates of a response lie in: an address is a place in the list.
abbrev pub Heap : Type 0
Heap = List SampleRate

-- *p = v
unfoldable pub store : ℕ → SampleRate → Heap → Heap
store p v [] = []
store zero v (c ∷ cells) = v ∷ cells
store (suc p) v (c ∷ cells) = c ∷ store p v cells

-- What the pointers of a response point to.
unfoldable pub pointed : Heap → List ℕ → List (Option SampleRate)
pointed heap [] = []
pointed heap (p ∷ ps) = get_elem? heap p ∷ pointed heap ps

-- A response and the memory behind it, and what the function returns.
pub record Answer : Type 0 where
  pub hit : Bool
  pub res : RateRes
  pub heap : Heap

-- The loop over a country's rates, with the address of its variable `node`: one variable for all
-- rounds, as in Go before 1.22.
unfoldable pub country_loop : List SampleRate → ℕ → RateRes → Heap → RateRes × Heap
country_loop [] node res heap = (res, heap)
country_loop (v ∷ rest) node res heap =
    country_loop rest node (record res { rates = res.rates ++ (node ∷ []) }) (store node v heap)

abbrev zero_rate : SampleRate
zero_rate = record { uri = none; rate = none; expire_second = none }

-- int32(d.Seconds())
module _ (seconds_of : ℕ → ℕ) where
  -- GlobalExpireSecond and ReportIntervalTime
  unfoldable pub with_times : Config → RateRes → RateRes
  with_times c res = record res {
    global_expire_second = seconds_of c.expire;
    report_interval_time = seconds_of c.report_interval_time;
  }

  unfoldable pub by_country_found : Config → Option (List SampleRate) → RateRes → Heap → Answer
  by_country_found c none res heap = record { hit = false; res = with_times c res; heap = heap }
  by_country_found c (some rates) res heap =
      let (r, h) = country_loop rates (length heap) res (heap ++ (zero_rate ∷ [])) in
      record { hit = true; res = r; heap = h }

  unfoldable pub get_sample_rate_by_country : Config → List ℕ → RateRes → Heap → Answer
  get_sample_rate_by_country c country_code res heap =
      by_country_found c (lookup country_code c.country_code_uri_rate) res heap

  -- The rate as it is sent: without an expiry of its own it has the general one.
  abbrev pub with_expire : Config → SampleRate → SampleRate
  with_expire c v = elim v.expire_second [
    | none ↦ record v { expire_second = some (seconds_of c.expire) }
    | some e ↦ if e == 0 then record v { expire_second = some (seconds_of c.expire) } else v
  ]

  -- The loop over the map: a new cell for every rate.
  unfoldable pub all_loop : Config → Dict ℕ SampleRate → RateRes → Heap → RateRes × Heap
  all_loop c [] res heap = (res, heap)
  all_loop c (e ∷ rest) res heap =
      all_loop c rest (record res { rates = res.rates ++ (length heap ∷ []) })
        (heap ++ (with_expire c e.1 ∷ []))

  unfoldable pub get_sample_all_rate : Config → RateRes → Heap → Answer
  get_sample_all_rate c res heap =
      let (r, h) = all_loop c c.uri_rate res heap in
      record { hit = true; res = with_times c r; heap = h }

  unfoldable pub or_all : Config → Answer → Answer
  or_all c a = if a.hit then a else get_sample_all_rate c a.res a.heap

  -- `drawn` is rand.Intn(100).
  unfoldable pub get_sample_rate_by_uid : Config → ℕ → List ℕ → RateRes → Heap → Answer
  get_sample_rate_by_uid c drawn country_code res heap =
      if int32_lt drawn c.rate
      then record { hit = false; res = res; heap = heap }
      else or_all c (get_sample_rate_by_country c country_code res heap)

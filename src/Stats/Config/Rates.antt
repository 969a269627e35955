-- ===== src/Stats/Config/Rates.antt =====
-- Which rates a response holds in the end.
use go_util.Prelude.{
  ℕ, ◌+◌, ◌<◌, ◌≡◌, refl, ap, sym, ◌∙◌, arith, zero, suc, Option, some, List, [], ◌∷◌, ◌++◌,
  append_assoc, append-nil, length, length-append, get_elem?, get_elem?-append, get_elem?-seam, ◌≤◌,
  replicate, map, All, All-append,
}
use go_util.Prelude.Dict.{Dict, bytes_key, lookup}
use go_util.Stats.Data.{SampleRate, Config, RateRes}
use go_util.Stats.Config.{
  Heap, store, pointed, country_loop, by_country_found, get_sample_rate_by_country, with_expire,
  all_loop, get_sample_all_rate, with_times, zero_rate,
}

get_elem?-store :
    (p : ℕ) (v : SampleRate) (heap : Heap) → p < length heap → get_elem? (store p v heap) p ≡ some v
unfolding store
get_elem?-store p v [] h = absurd (omega arith)
get_elem?-store zero v (c ∷ cells) h = refl
get_elem?-store (suc p) v (c ∷ cells) h = get_elem?-store p v cells (omega arith)

length-store : (p : ℕ) (v : SampleRate) (heap : Heap) → length (store p v heap) ≡ length heap
unfolding store
length-store p v [] = refl
length-store zero v (c ∷ cells) = refl
length-store (suc p) v (c ∷ cells) = ap suc (length-store p v cells)

pointed-replicate :
    (heap : Heap) (n p : ℕ) → pointed heap (replicate n p) ≡ replicate n (get_elem? heap p)
unfolding pointed
pointed-replicate heap zero p = refl
pointed-replicate heap (suc n) p = ap (λ t. get_elem? heap p ∷ t) (pointed-replicate heap n p)

pointed-append :
    (heap : Heap) (ps qs : List ℕ) → pointed heap (ps ++ qs) ≡ pointed heap ps ++ pointed heap qs
unfolding pointed
pointed-append heap [] qs = refl
pointed-append heap (p ∷ ps) qs = ap (λ t. get_elem? heap p ∷ t) (pointed-append heap ps qs)

-- Every round adds the same address.
country_loop-rates :
    (vs : List SampleRate) (node : ℕ) (res : RateRes) (heap : Heap)
    → (country_loop vs node res heap).0.rates ≡ res.rates ++ replicate (length vs) node
unfolding country_loop
country_loop-rates [] node res heap = sym (append-nil res.rates)
country_loop-rates (v ∷ rest) node res heap =
    country_loop-rates rest node (record res { rates = res.rates ++ (node ∷ []) })
      (store node v heap)
    ∙ append_assoc res.rates (node ∷ []) (replicate (length rest) node)

-- What is stored there in the end is the last rate.
country_loop-last :
    (vs : List SampleRate) (v : SampleRate) (node : ℕ) (res : RateRes) (heap : Heap)
    → node < length heap
    → get_elem? (country_loop (vs ++ (v ∷ [])) node res heap).1 node ≡ some v
unfolding country_loop
country_loop-last [] v node res heap h = get_elem?-store node v heap h
country_loop-last (w ∷ vs) v node res heap h =
    country_loop-last vs v node (record res { rates = res.rates ++ (node ∷ []) })
      (store node w heap) (omega (arith, h, length-store node w heap))

-- Cells that are added later do not matter.
pointed-more :
    (heap more : Heap) (ps : List ℕ)
    → All (λ p. p < length heap) ps
    → pointed (heap ++ more) ps ≡ pointed heap ps
unfolding pointed
pointed-more heap more [] h = refl
pointed-more heap more (p ∷ ps) h =
    ap (λ t. t ∷ pointed (heap ++ more) ps) (get_elem?-append heap more p h.0)
    ∙ ap (λ t. get_elem? heap p ∷ t) (pointed-more heap more ps h.1)

All-below-more : (n m : ℕ) (ps : List ℕ) → n ≤ m → All (λ p. p < n) ps → All (λ p. p < m) ps
All-below-more n m [] h all = tt
All-below-more n m (p ∷ ps) h all = (omega (arith, all.0), All-below-more n m ps h all.1)

module _ (seconds_of : ℕ → ℕ) where
  -- For a country with rates of its own, every rate that the response points to is the last of them.
  country_rates_alias :
      (c : Config) (code : List ℕ) (vs : List SampleRate) (v : SampleRate) (res : RateRes)
      (heap : Heap)
      → lookup code c.country_code_uri_rate ≡ some (vs ++ (v ∷ []))
      → res.rates ≡ []
      → let a = get_sample_rate_by_country seconds_of c code res heap in
        pointed a.heap a.res.rates ≡ replicate (length vs + 1) (some v)
  unfolding get_sample_rate_by_country by_country_found
  country_rates_alias c code vs v res heap found empty = simp found (
      ap (pointed after) (country_loop-rates (vs ++ (v ∷ [])) node res cells ∙ started)
      ∙ pointed-replicate after (length (vs ++ (v ∷ []))) node
      ∙ ap (λ t. replicate t (get_elem? after node)) (length-append vs (v ∷ []))
      ∙ ap (replicate (length vs + 1)) last_stored)
    where
      node : ℕ
      node = length heap

      cells : Heap
      cells = heap ++ (zero_rate ∷ [])

      after : Heap
      after = (country_loop (vs ++ (v ∷ [])) node res cells).1

      started :
          res.rates ++ replicate (length (vs ++ (v ∷ []))) node
          ≡ replicate (length (vs ++ (v ∷ []))) node
      started = ap (λ t. t ++ replicate (length (vs ++ (v ∷ []))) node) empty

      last_stored : get_elem? after node ≡ some v
      last_stored =
          country_loop-last vs v node res cells (omega (arith, length-append heap (zero_rate ∷ [])))

  -- A rate of the map as it is sent.
  abbrev sent_rate : Config → ℕ × SampleRate → Option SampleRate
  sent_rate c e = some (with_expire seconds_of c e.1)

  all_loop-pointed :
      (c : Config) (d : Dict ℕ SampleRate) (res : RateRes) (heap : Heap)
      → All (λ p. p < length heap) res.rates
      → let r = all_loop seconds_of c d res heap in
        pointed r.1 r.0.rates ≡ pointed heap res.rates ++ map (sent_rate c) d
  unfolding all_loop pointed
  all_loop-pointed c [] res heap valid = sym (append-nil (pointed heap res.rates))
  all_loop-pointed c (e ∷ rest) res heap valid =
      all_loop-pointed c rest (record res { rates = res.rates ++ (length heap ∷ []) }) more still
      ∙ ap (λ t. t ++ map (sent_rate c) rest) one_more
      ∙ append_assoc (pointed heap res.rates) (sent_rate c e ∷ []) (map (sent_rate c) rest)
    where
      more : Heap
      more = heap ++ (with_expire seconds_of c e.1 ∷ [])

      longer : length more ≡ length heap + 1
      longer = length-append heap (with_expire seconds_of c e.1 ∷ [])

      still : All (λ p. p < length more) (res.rates ++ (length heap ∷ []))
      still =
          All-append (λ p. p < length more) res.rates (length heap ∷ [])
            (All-below-more (length heap) (length more) res.rates (omega (arith, longer)) valid)
            (omega (arith, longer), tt)

      one_more :
          pointed more (res.rates ++ (length heap ∷ []))
          ≡ pointed heap res.rates ++ (sent_rate c e ∷ [])
      one_more =
          pointed-append more res.rates (length heap ∷ [])
          ∙ ap (λ t. t ++ pointed more (length heap ∷ []))
              (pointed-more heap (with_expire seconds_of c e.1 ∷ []) res.rates valid)
          ∙ ap (λ t. pointed heap res.rates ++ (t ∷ []))
              (get_elem?-seam heap (with_expire seconds_of c e.1) [])

  -- All rates are answered, each in a cell of its own and with an expiry, and the two times.
  all_rates_sent :
      (c : Config) (res : RateRes) (heap : Heap)
      → res.rates ≡ []
      → let a = get_sample_all_rate seconds_of c res heap in
        (pointed a.heap a.res.rates ≡ map (sent_rate c) c.uri_rate)
        × (a.res.global_expire_second ≡ seconds_of c.expire)
        × (a.res.report_interval_time ≡ seconds_of c.report_interval_time)
  unfolding get_sample_all_rate with_times pointed
  all_rates_sent c res heap empty = (
    all_loop-pointed c c.uri_rate res heap (rw empty tt)
        ∙ ap (λ t. pointed heap t ++ map (sent_rate c) c.uri_rate) empty,
    refl,
    refl,
  )

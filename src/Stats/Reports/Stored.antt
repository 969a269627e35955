-- ===== src/Stats/Reports/Stored.antt =====
-- What a report leaves in the two stores.
use go_util.Prelude.{
  ℕ, suc, ◌≡◌, refl, ap, sym, ◌∙◌, Bool, true, false, Option, none, some, List, [], ◌∷◌, ◌++◌, map,
  append_assoc, append-nil,
}
use go_util.Stats.Data.{Config, SampleUriRtt, ReportReq, AppStatsItem}
use go_util.Stats.Reports.{
  Stores, Point, Error, client, item_of, point_of, create_with, save_items, save_db, write_with,
  write_point, write_points, my_measurement, save_sample_rtt_stat,
}

-- Of a list of things and what the calls for them bring, in order, the things whose call succeeds.
unfoldable pub created {ℓ} : {A : Type ℓ} → List Bool → List A → List A
created calls [] = []
created [] (x ∷ xs) = x ∷ xs
created (true ∷ rest) (x ∷ xs) = x ∷ created rest xs
created (false ∷ rest) (x ∷ xs) = created rest xs

unfoldable pub accepted {ℓ} : {A : Type ℓ} → List (Option ℕ) → List A → List A
accepted calls [] = []
accepted [] (x ∷ xs) = x ∷ xs
accepted (none ∷ rest) (x ∷ xs) = x ∷ accepted rest xs
accepted (some e ∷ rest) (x ∷ xs) = accepted rest xs

created-all {ℓ} : {A : Type ℓ} (xs : List A) → created [] xs ≡ xs
unfolding created
created-all [] = refl
created-all (x ∷ xs) = refl

accepted-all {ℓ} : {A : Type ℓ} (xs : List A) → accepted [] xs ≡ xs
unfolding accepted
accepted-all [] = refl
accepted-all (x ∷ xs) = refl

save_items-rows :
    (req : ReportReq) (vs : List SampleUriRtt) (calls : List Bool) (s : Stores)
    → s.creates ≡ calls
    → (save_items req vs s).rows ≡ s.rows ++ created calls (map (item_of req) vs)
unfolding save_items created create_with
save_items-rows req [] calls s e = sym (append-nil s.rows)
save_items-rows req (v ∷ rest) [] s e = simp e (
    save_items-rows req rest [] (record s { rows = s.rows ++ (item_of req v ∷ []); creates = [] })
      refl
    ∙ ap (λ t. (s.rows ++ (item_of req v ∷ [])) ++ t) (created-all (map (item_of req) rest))
    ∙ append_assoc s.rows (item_of req v ∷ []) (map (item_of req) rest))
save_items-rows req (v ∷ rest) (true ∷ calls) s e = simp e (
    save_items-rows req rest calls
      (record s { rows = s.rows ++ (item_of req v ∷ []); creates = calls }) refl
    ∙ append_assoc s.rows (item_of req v ∷ []) (created calls (map (item_of req) rest)))
save_items-rows req (v ∷ rest) (false ∷ calls) s e =
    simp e (save_items-rows req rest calls (record s { creates = calls }) refl)

-- The database's part leaves the other alone.
record SamePoints (s t : Stores) : Type 0 where
  same_points : t.points ≡ s.points
  same_writes : t.writes ≡ s.writes
  same_clock : t.clock ≡ s.clock

create_with-SamePoints :
    (calls : List Bool) (item : AppStatsItem) (s : Stores) → SamePoints s (create_with calls item s)
unfolding create_with
create_with-SamePoints [] item s = record {
  same_points = refl;
  same_writes = refl;
  same_clock = refl;
}
create_with-SamePoints (true ∷ rest) item s = record {
  same_points = refl;
  same_writes = refl;
  same_clock = refl;
}
create_with-SamePoints (false ∷ rest) item s = record {
  same_points = refl;
  same_writes = refl;
  same_clock = refl;
}

save_items-SamePoints :
    (req : ReportReq) (vs : List SampleUriRtt) (s : Stores) → SamePoints s (save_items req vs s)
unfolding save_items
save_items-SamePoints req [] s = record {
  same_points = refl;
  same_writes = refl;
  same_clock = refl;
}
save_items-SamePoints req (v ∷ rest) s =
    let one = create_with-SamePoints s.creates (item_of req v) s in
    let more = save_items-SamePoints req rest (create_with s.creates (item_of req v) s) in
    record {
      same_points = more.same_points ∙ one.same_points;
      same_writes = more.same_writes ∙ one.same_writes;
      same_clock = more.same_clock ∙ one.same_clock;
    }

-- The points of samples, each with the next time of the clock.
unfoldable pub timed : List ℕ → ReportReq → (ℕ → ℕ) → List SampleUriRtt → List Point
timed table req clock [] = []
timed table req clock (v ∷ rest) =
    point_of table req v (clock 0) ∷ timed table req (λ n. clock (suc n)) rest

write_points-points :
    (table : List ℕ) (req : ReportReq) (vs : List SampleUriRtt) (calls : List (Option ℕ))
    (err : Option Error) (s : Stores)
    → s.writes ≡ calls
    → (write_points true table req vs err s).1.points
      ≡ s.points ++ accepted calls (timed table req s.clock vs)
unfolding write_points write_point write_with accepted timed
write_points-points table req [] calls err s e = sym (append-nil s.points)
write_points-points table req (v ∷ rest) [] err s e =
    let p = point_of table req v (s.clock 0) in
    simp e (
      write_points-points table req rest [] none
        (record s { points = s.points ++ (p ∷ []); writes = []; clock = λ n. s.clock (suc n) }) refl
      ∙ ap (λ t. (s.points ++ (p ∷ [])) ++ t)
          (accepted-all (timed table req (λ n. s.clock (suc n)) rest))
      ∙ append_assoc s.points (p ∷ []) (timed table req (λ n. s.clock (suc n)) rest))
write_points-points table req (v ∷ rest) (none ∷ calls) err s e =
    let p = point_of table req v (s.clock 0) in
    simp e (
      write_points-points table req rest calls none
        (record s { points = s.points ++ (p ∷ []); writes = calls; clock = λ n. s.clock (suc n) })
        refl
      ∙ append_assoc s.points (p ∷ [])
          (accepted calls (timed table req (λ n. s.clock (suc n)) rest)))
write_points-points table req (v ∷ rest) (some x ∷ calls) err s e = simp e (
    write_points-points table req rest calls (some (client x))
      (record s { writes = calls; clock = λ n. s.clock (suc n) }) refl)

write_with-rows :
    (calls : List (Option ℕ)) (p : Point) (s : Stores) → (write_with calls p s).1.rows ≡ s.rows
unfolding write_with
write_with-rows [] p s = refl
write_with-rows (none ∷ rest) p s = refl
write_with-rows (some e ∷ rest) p s = refl

write_points-rows :
    (table : List ℕ) (req : ReportReq) (vs : List SampleUriRtt) (err : Option Error) (s : Stores)
    → (write_points true table req vs err s).1.rows ≡ s.rows
unfolding write_points write_point
write_points-rows table req [] err s = refl
write_points-rows table req (v ∷ rest) err s =
    let p = point_of table req v (s.clock 0) in
    write_points-rows table req rest (write_with s.writes p s).0 (write_with s.writes p s).1
    ∙ write_with-rows s.writes p s

save_sample_rtt_stat-eq :
    (c : Config) (req : ReportReq) (s : Stores)
    → c.has_db ≡ true
    → c.has_influx ≡ true
    → save_sample_rtt_stat c req s
      ≡ (write_points true my_measurement req req.sample none (save_items req req.sample s)).1
unfolding save_sample_rtt_stat save_db
save_sample_rtt_stat-eq c req s db influx =
    ap (λ h. (write_points h my_measurement req req.sample none (save_db c req s).1).1) influx
    ∙ ap (λ t. (write_points true my_measurement req req.sample none t).1) saved
  where
    pair : save_db c req s ≡ (none, save_items req req.sample s)
    pair = simp db refl

    saved : (save_db c req s).1 ≡ save_items req req.sample s
    saved = ap (λ (t : Option Error × Stores). t.1) pair

-- With both clients, of a report the database takes a row and the client of the time series a point
-- with the second of its call, for every sample whose call succeeds, in order; a call that fails loses
-- its own sample alone.
pub save_sample_rtt_stat-stores :
    (c : Config) (req : ReportReq) (s : Stores)
    → c.has_db ≡ true
    → c.has_influx ≡ true
    → ((save_sample_rtt_stat c req s).rows
        ≡ s.rows ++ created s.creates (map (item_of req) req.sample))
      × ((save_sample_rtt_stat c req s).points
          ≡ s.points ++ accepted s.writes (timed my_measurement req s.clock req.sample))
save_sample_rtt_stat-stores c req s db influx =
    let saved = save_items req req.sample s in
    let same = save_items-SamePoints req req.sample s in
    let both = save_sample_rtt_stat-eq c req s db influx in
    (
      ap (λ t. t.rows) both
          ∙ write_points-rows my_measurement req req.sample none saved
          ∙ save_items-rows req req.sample s.creates s refl,
      ap (λ t. t.points) both
          ∙ write_points-points my_measurement req req.sample s.writes none saved same.same_writes
          ∙ ap (λ t. t ++ accepted s.writes (timed my_measurement req saved.clock req.sample))
              same.same_points
          ∙ ap (λ t. s.points ++ accepted s.writes (timed my_measurement req t req.sample))
              same.same_clock,
    )

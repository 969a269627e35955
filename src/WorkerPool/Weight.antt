-- ===== src/WorkerPool/Weight.antt =====
-- Where the jobs and the workbenches of goroutine_pool/pool/pool.go are, as sums of weights.
use go_util.Prelude.{ℕ, ◌+◌, ◌≡◌, [], length, ltb, if◌then◌else◌}
use go_util.WorkerPool.Parts.{
  Job, Worker, registering, selecting, finished, playing, Carrier, seeking, holding, dispatching,
  Dispatcher,
}
use go_util.WorkerPool.Total.{total}

-- The weight of the job that a carrier has, and of the one that a worker plays.
unfoldable pub carried : (Job → ℕ) → Carrier → ℕ
carried w (seeking job) = w job
carried w (holding bench job) = w job

unfoldable pub in_hand : (Job → ℕ) → Worker → ℕ
in_hand w registering = 0
in_hand w selecting = 0
in_hand w finished = 0
in_hand w (playing job) = w job

-- A carrier that holds a workbench, and a worker whose workbench is out.
unfoldable pub holds : Carrier → ℕ
holds (seeking job) = 0
holds (holding bench job) = 1

unfoldable pub offered : Worker → ℕ
offered registering = 0
offered selecting = 1
offered finished = 1
offered (playing job) = 0

unfoldable pub returned : Worker → ℕ
returned registering = 0
returned selecting = 0
returned finished = 1
returned (playing job) = 0

-- A workbench that belongs to none of the first n workers.
unfoldable pub stray : ℕ → ℕ → ℕ
stray n bench = if ltb bench n then 0 else 1

unfoldable pub held_stray : ℕ → Carrier → ℕ
unfolding stray
held_stray n (seeking job) = 0
held_stray n (holding bench job) = stray n bench

-- What weighs w of the accepted jobs weighs the same where they are now.
unfoldable pub weight : (Job → ℕ) → Dispatcher → ℕ
weight w d =
    total w d.job_queue
    + total (carried w) d.carriers
    + total (in_hand w) d.workers
    + total w d.played

pub record Inv (d : Dispatcher) : Type 0 where
  pub kept : (w : Job → ℕ) → total w d.accepted ≡ weight w d
  pub benches : length d.workbench_queue + total holds d.carriers ≡ total offered d.workers
  pub size : length d.workers ≡ d.max_workers
  pub known :
      total (stray d.max_workers) d.workbench_queue + total (held_stray d.max_workers) d.carriers
      ≡ 0
  pub running : d.phase ≡ dispatching → (total returned d.workers ≡ 0) × (d.stops ≡ [])

-- ===== src/WorkerPool/Step.antt =====
-- The steps of the goroutines of goroutine_pool/pool/pool.go (Start, Stop and Dispatch), one channel
-- operation each, and of those who use them.
use go_util.Prelude.{ℕ, zero, suc, ◌<◌, ◌≡◌, true, some, List, [], ◌∷◌, ◌++◌, length, get_elem?}
use go_util.WorkerPool.Parts.{
  Job, Worker, registering, selecting, finished, playing, seeking, holding, dispatching, closing,
  Dispatcher, start_work_flow, sent, add_job, end_dispatch, close_work_flow,
}

module _ {ℓ} {A : Type ℓ} where
  unfoldable pub set_at : ℕ → A → List A → List A
  set_at i y [] = []
  set_at zero y (x ∷ xs) = y ∷ xs
  set_at (suc i) y (x ∷ xs) = x ∷ set_at i y xs

  unfoldable pub remove_at : ℕ → List A → List A
  remove_at i [] = []
  remove_at zero (x ∷ xs) = xs
  remove_at (suc i) (x ∷ xs) = x ∷ remove_at i xs

-- The workers from a number on.
unfoldable pub from : ℕ → List Worker → List ℕ
from i [] = []
from i (w ∷ ws) = i ∷ from (suc i) ws

pub data Move : Dispatcher → Dispatcher → Type 0 where
  -- Dispatch receives a job and starts its carrier.
  take_job :
      {d : Dispatcher} (job : Job) (rest : List Job)
      → d.phase ≡ dispatching
      → d.job_queue ≡ job ∷ rest
      → Move d (record d { job_queue = rest; carriers = seeking job ∷ d.carriers })
  -- The queue is closed and empty: Dispatch calls Stop of every worker.
  stop_workers :
      {d : Dispatcher}
      → d.phase ≡ dispatching
      → d.job_queue ≡ []
      → d.job_queue_closed ≡ true
      → Move d (record d { stops = from 0 d.workers; phase = closing })
  -- A carrier receives a workbench.
  take_workbench :
      {d : Dispatcher} (k bench : ℕ) (rest : List ℕ) (job : Job)
      → get_elem? d.carriers k ≡ some (seeking job)
      → d.workbench_queue ≡ bench ∷ rest
      → Move d
          (record d { workbench_queue = rest; carriers = set_at k (holding bench job) d.carriers })
  -- A carrier sends its job to the worker, who is at the select.
  deliver :
      {d : Dispatcher} (k bench : ℕ) (job : Job)
      → get_elem? d.carriers k ≡ some (holding bench job)
      → get_elem? d.workers bench ≡ some selecting
      → Move d (record d {
        carriers = remove_at k d.carriers;
        workers = set_at bench (playing job) d.workers;
      })
  -- Play returns.
  play :
      {d : Dispatcher} (i : ℕ) (job : Job)
      → get_elem? d.workers i ≡ some (playing job)
      → Move d (record d { workers = set_at i registering d.workers; played = job ∷ d.played })
  -- A worker sends its workbench, where the channel has room.
  register :
      {d : Dispatcher} (i : ℕ)
      → get_elem? d.workers i ≡ some registering
      → length d.workbench_queue < d.max_workers
      → Move d (record d {
        workbench_queue = d.workbench_queue ++ i ∷ [];
        workers = set_at i selecting d.workers;
      })
  -- A goroutine of Stop sends to a worker, who is at the select and returns.
  finish :
      {d : Dispatcher} (k i : ℕ)
      → get_elem? d.stops k ≡ some i
      → get_elem? d.workers i ≡ some selecting
      → Move d (record d { stops = remove_at k d.stops; workers = set_at i finished d.workers })

pub data Step (d e : Dispatcher) : Type 0 where
  moved : Move d e → Step d e
  added : (job : Job) → add_job job d ≡ sent e → Step d e
  signalled : end_dispatch d ≡ some e → Step d e
  collected : close_work_flow d ≡ some e → Step d e

-- A number of moves.
pub data Moves : ℕ → Dispatcher → Dispatcher → Type 0 where
  none_left : {d : Dispatcher} → Moves 0 d d
  and_move : {n : ℕ} {d e f : Dispatcher} → Moves n d e → Move e f → Moves (suc n) d f

-- What can be reached from a state.
pub data Steps (d : Dispatcher) : Dispatcher → Type 0 where
  here : Steps d d
  then_step : {e f : Dispatcher} → Steps d e → Step e f → Steps d f

abbrev pub Reach : ℕ → ℕ → Dispatcher → Type 0
Reach max_workers max_queue d = Steps (start_work_flow max_workers max_queue) d

-- ===== src/WorkerPool/Parts.antt =====
-- Payload, Job, Worker, Dispatcher, NewDispatcher, Run, AddJob and CloseWorkFlow of
-- goroutine_pool/pool/pool.go. A worker is named by its place in Workers, and so is its workbench.
use go_util.Prelude.{
  ℕ, Bool, true, false, Option, none, some, List, [], ◌∷◌, ◌++◌, length, replicate, ltb, ◌==◌,
  if◌then◌else◌,
}

pub record Payload : Type 0 where
  pub name : List ℕ

pub record Job : Type 0 where
  pub payload : Payload

-- Where the loop of Start is: at the send of its workbench, at the select, in Play, or returned.
pub data Worker : Type 0 where
  registering selecting finished : Worker
  playing : Job → Worker

-- The goroutine that Dispatch starts for a job: at the receive of a workbench, or at the send to it.
pub data Carrier : Type 0 where
  seeking : Job → Carrier
  holding : ℕ → Job → Carrier

-- The loop of Dispatch, the send to Closed, or after it.
pub data Phase : Type 0 where
  dispatching closing ended : Phase

-- `stops` are the goroutines of Stop that have not sent yet. `accepted` and `played` are the history:
-- the jobs that AddJob has sent, and those that Play has logged.
pub record Dispatcher : Type 0 where
  pub max_workers : ℕ
  pub max_queue : ℕ
  pub workers : List Worker
  pub phase : Phase
  pub job_queue : List Job
  pub job_queue_closed : Bool
  pub workbench_queue : List ℕ
  pub carriers : List Carrier
  pub stops : List ℕ
  pub accepted : List Job
  pub played : List Job

-- NewDispatcher and Run.
unfoldable pub start_work_flow : ℕ → ℕ → Dispatcher
start_work_flow max_workers max_queue = record {
  max_workers = max_workers;
  max_queue = max_queue;
  workers = replicate max_workers registering;
  phase = dispatching;
  job_queue = [];
  job_queue_closed = false;
  workbench_queue = [];
  carriers = [];
  stops = [];
  accepted = [];
  played = [];
}

-- A send to GJobQueue: it panics on a closed channel and waits on a full one.
pub data Added : Type 0 where
  sent : Dispatcher → Added
  blocked panicked : Added

unfoldable pub enqueue : Job → Dispatcher → Dispatcher
enqueue job d = record d { job_queue = d.job_queue ++ job ∷ []; accepted = job ∷ d.accepted }

-- Without a buffer the job goes to Dispatch at once, which is at its select while the queue is open.
unfoldable pub hand_over : Job → Dispatcher → Dispatcher
hand_over job d = record d { carriers = seeking job ∷ d.carriers; accepted = job ∷ d.accepted }

unfoldable pub add_job : Job → Dispatcher → Added
unfolding enqueue hand_over
add_job job d =
    if d.job_queue_closed
    then panicked
    else if ltb (length d.job_queue) d.max_queue
    then sent (enqueue job d)
    else if d.max_queue == 0
    then sent (hand_over job d)
    else blocked

-- A signal closes the queue, and a second one panics (`none`); nobody receives it after the loop.
unfoldable pub close_job_queue : Phase → Dispatcher → Option Dispatcher
close_job_queue dispatching d =
    if d.job_queue_closed then none else some (record d { job_queue_closed = true })
close_job_queue closing d = some d
close_job_queue ended d = some d

unfoldable pub end_dispatch : Dispatcher → Option Dispatcher
unfolding close_job_queue
end_dispatch d = close_job_queue d.phase d

-- The receive from Closed; `none` is to wait.
unfoldable pub closed_in : Phase → Dispatcher → Option Dispatcher
closed_in dispatching d = none
closed_in closing d = some (record d { phase = ended })
closed_in ended d = none

unfoldable pub close_work_flow : Dispatcher → Option Dispatcher
unfolding closed_in
close_work_flow d = closed_in d.phase d

-- ===== src/Tests/WorkerPool.antt =====
-- goroutine_pool/pool/pool.go: one worker and one job.
use go_util.Prelude.{◌≤◌, ℕ, ◌+◌, ◌≡◌, ◌⊎◌, refl, true, false, [], ◌∷◌, length, arith}
use go_util.WorkerPool.Parts.{
  Job, registering, selecting, finished, seeking, dispatching, ended, Dispatcher, start_work_flow,
  add_job, enqueue, end_dispatch, close_job_queue, close_work_flow, closed_in,
}
use go_util.WorkerPool.Step.{
  set_at, remove_at, from, Move, take_job, stop_workers, take_workbench, deliver, play, register,
  finish, Moves, none_left, and_move, moved, added, signalled, collected, here, then_step, Reach,
}
use go_util.WorkerPool.Total.{total}
use go_util.WorkerPool.Weight.{carried, in_hand}
use go_util.WorkerPool.Invariant.{accepted_kept}
use go_util.WorkerPool.Liveness.{Moves-played}
use go_util.WorkerPool.Progress.{remaining}

abbrev job : Job
job = record { payload = record { name = 49 ∷ [] } }

abbrev heavy : Job → ℕ
heavy j = length j.payload.name

abbrev at_start : Dispatcher
at_start = record {
  max_workers = 1;
  max_queue = 1;
  workers = registering ∷ [];
  phase = dispatching;
  job_queue = [];
  job_queue_closed = false;
  workbench_queue = [];
  carriers = [];
  stops = [];
  accepted = [];
  played = [];
}

abbrev queued : Dispatcher
queued = record at_start {
  workers = selecting ∷ [];
  workbench_queue = 0 ∷ [];
  job_queue = job ∷ [];
  accepted = job ∷ [];
}

queued-Reach : Reach 1 1 queued
unfolding start_work_flow add_job enqueue set_at
queued-Reach = then_step (then_step here (moved (register 0 refl (omega arith)))) (added job refl)

abbrev done : Dispatcher
done = record queued {
  workers = registering ∷ [];
  workbench_queue = [];
  job_queue = [];
  played = job ∷ [];
}

queued-done : Moves 4 queued done
unfolding set_at remove_at
queued-done =
    and_move
      (and_move
        (and_move (and_move none_left (take_job job [] refl refl))
          (take_workbench 0 0 [] job refl refl))
        (deliver 0 0 job refl refl))
      (play 0 job refl)

-- The job's goroutine has no workbench yet when the worker is stopped.
abbrev lost : Dispatcher
lost = record queued {
  workers = finished ∷ [];
  phase = ended;
  job_queue = [];
  job_queue_closed = true;
  carriers = seeking job ∷ [];
}

lost-Reach : Reach 1 1 lost
unfolding from set_at remove_at end_dispatch close_job_queue close_work_flow closed_in
lost-Reach =
    then_step
      (then_step
        (then_step
          (then_step (then_step queued-Reach (moved (take_job job [] refl refl))) (signalled refl))
          (moved (stop_workers refl refl refl)))
        (moved (finish 0 0 refl refl)))
      (collected refl)

accepted_kept_example :
    total heavy lost.accepted
    ≡ total heavy lost.job_queue
      + total (carried heavy) lost.carriers
      + total (in_hand heavy) lost.workers
      + total heavy lost.played
accepted_kept_example = accepted_kept 1 1 heavy lost-Reach

Moves-played_example :
    (4 + remaining done ≤ remaining queued)
    × (((w : Job → ℕ) → total w queued.accepted ≡ total w done.played)
        ⊎ ((f : Dispatcher) × Move done f))
Moves-played_example = Moves-played 1 1 queued-Reach (omega arith) refl refl queued-done

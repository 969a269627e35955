-- ===== src/WorkerPool/Progress.antt =====
-- The work that is left in the pool of goroutine_pool/pool/pool.go: it falls, and while the dispatcher
-- runs it falls to nothing.
use go_util.Prelude.{
  ℕ, suc, ◌+◌, ◌*◌, ◌≤◌, ◌<◌, ◌≡◌, refl, ap, some, List, [], ◌∷◌, length, get_elem?, arith,
}
use go_util.WorkerPool.Parts.{
  Worker, registering, selecting, finished, playing, Carrier, seeking, holding, Phase, dispatching,
  closing, ended, Dispatcher,
}
use go_util.WorkerPool.Step.{
  set_at, from, Move, take_job, stop_workers, take_workbench, deliver, play, register, finish,
  Moves, none_left, and_move, Reach,
}
use go_util.WorkerPool.Total.{
  total, total-set_at, total-remove_at, length-set_at, length-remove_at, total_below,
}
use go_util.WorkerPool.Weight.{offered}
use go_util.WorkerPool.Invariant.{Reach-Inv}

-- The moves that a job and a worker still need.
unfoldable pub load : Carrier → ℕ
load (seeking job) = 4
load (holding bench job) = 3

unfoldable pub busy : Worker → ℕ
busy registering = 1
busy selecting = 0
busy finished = 0
busy (playing job) = 2

unfoldable pub work : Dispatcher → ℕ
work d = 5 * length d.job_queue + total load d.carriers + total busy d.workers

-- Stopping takes one move of Dispatch and one for every worker.
unfoldable pub to_stop : Phase → ℕ → ℕ
to_stop dispatching n = suc n
to_stop closing n = 0
to_stop ended n = 0

unfoldable pub remaining : Dispatcher → ℕ
remaining d = work d + to_stop d.phase (length d.workers) + length d.stops

length-from : (i : ℕ) (ws : List Worker) → length (from i ws) ≡ length ws
unfolding from
length-from i [] = refl
length-from i (w ∷ ws) = omega (arith, length-from (suc i) ws)

same_to_stop :
    (d : Dispatcher) (i : ℕ) (w : Worker)
    → to_stop d.phase (length (set_at i w d.workers)) ≡ to_stop d.phase (length d.workers)
same_to_stop d i w = ap (to_stop d.phase) (length-set_at d.workers i w)

-- Every move leaves less.
Move-remaining : {d e : Dispatcher} → Move d e → remaining e < remaining d
unfolding remaining work total load busy to_stop
Move-remaining {d} (take_job job rest run q) =
    let queue : length d.job_queue ≡ suc (length rest) = rw q refl in omega (arith, queue)
Move-remaining {d} (stop_workers run q c) =
    let phase : to_stop d.phase (length d.workers) ≡ suc (length d.workers) = rw run refl in
    omega (arith, phase, length-from 0 d.workers)
Move-remaining {d} (take_workbench k bench rest job h q) =
    let c = total-set_at load d.carriers k (seeking job) (holding bench job) h in omega (arith, c)
Move-remaining {d} (deliver k bench job h s) =
    let c = total-remove_at load d.carriers k (holding bench job) h in
    let t = total-set_at busy d.workers bench selecting (playing job) s in
    omega (arith, c, t, same_to_stop d bench (playing job))
Move-remaining {d} (play i job s) =
    let t = total-set_at busy d.workers i (playing job) registering s in
    omega (arith, t, same_to_stop d i registering)
Move-remaining {d} (register i s room) =
    let t = total-set_at busy d.workers i registering selecting s in
    omega (arith, t, same_to_stop d i selecting)
Move-remaining {d} (finish k i h s) =
    let t = total-set_at busy d.workers i selecting finished s in
    omega (arith, t, same_to_stop d i finished, length-remove_at d.stops k i h)

-- Without another job, signal or CloseWorkFlow the goroutines of the pool stop after at most as many
-- moves as remain: n moves from d to e leave n less or fewer.
pub Moves-remaining : {n : ℕ} {d e : Dispatcher} → Moves n d e → n + remaining e ≤ remaining d
Moves-remaining none_left = omega arith
Moves-remaining (and_move ms m) = omega (arith, Moves-remaining ms, Move-remaining m)

-- A worker who is at the send of its workbench never waits: the channel has room for it.
pub register_has_room :
    (max_workers max_queue : ℕ) {d : Dispatcher} (i : ℕ)
    → Reach max_workers max_queue d
    → get_elem? d.workers i ≡ some registering
    → length d.workbench_queue < d.max_workers
unfolding offered
register_has_room max_workers max_queue {d} i r h =
    let inv = Reach-Inv max_workers max_queue r in
    let below = total_below offered d.workers i registering offered_small h refl in
    omega (arith, below, inv.benches, inv.size)
  where
    offered_small : (w : Worker) → offered w ≤ 1
    offered_small registering = omega arith
    offered_small selecting = omega arith
    offered_small finished = omega arith
    offered_small (playing job) = omega arith

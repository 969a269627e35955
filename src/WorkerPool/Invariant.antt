-- ===== src/WorkerPool/Invariant.antt =====
-- The invariant holds in every state of goroutine_pool/pool/pool.go that can be reached.
use go_util.Prelude.{
  ℕ, ◌+◌, ◌≡◌, refl, true, some, [], ◌∷◌, length, ltb, ◌==◌, Bool, arith, Bool-cases, inl, inr,
  length-replicate,
}
use go_util.WorkerPool.Parts.{
  Job, registering, Phase, dispatching, closing, ended, Dispatcher, start_work_flow, sent, add_job,
  enqueue, hand_over, end_dispatch, close_job_queue, close_work_flow, closed_in,
}
use go_util.WorkerPool.Step.{
  Step, moved, added, signalled, collected, Steps, here, then_step, Reach,
}
use go_util.WorkerPool.Total.{total, total-append, total-replicate_zero}
use go_util.WorkerPool.Weight.{carried, in_hand, holds, offered, returned, held_stray, weight, Inv}
use go_util.WorkerPool.Moves.{Move-Inv}

start-Inv : (max_workers max_queue : ℕ) → Inv (start_work_flow max_workers max_queue)
unfolding start_work_flow weight total in_hand offered returned
start-Inv n q = record {
  kept = λ w. let idle = total-replicate_zero (in_hand w) n registering refl in omega (arith, idle);
  benches = let idle = total-replicate_zero offered n registering refl in omega (arith, idle);
  size = length-replicate n registering;
  known = refl;
  running = λ h. (total-replicate_zero returned n registering refl, refl);
}

enqueue-Inv : {d : Dispatcher} (job : Job) → Inv d → Inv (enqueue job d)
unfolding enqueue weight total
enqueue-Inv {d} job inv = record {
  kept = λ w. omega (arith, inv.kept w, total-append w d.job_queue (job ∷ []));
  benches = inv.benches;
  size = inv.size;
  known = inv.known;
  running = inv.running;
}

hand_over-Inv : {d : Dispatcher} (job : Job) → Inv d → Inv (hand_over job d)
unfolding hand_over weight total carried holds held_stray
hand_over-Inv {d} job inv = record {
  kept = λ w. omega (arith, inv.kept w);
  benches = omega (arith, inv.benches);
  size = inv.size;
  known = omega (arith, inv.known);
  running = inv.running;
}

add_job-Inv : {d e : Dispatcher} (job : Job) → Inv d → add_job job d ≡ sent e → Inv e
unfolding add_job
add_job-Inv {d} {e} job inv h = elim (Bool-cases d.job_queue_closed) [
  | inl c ↦ absurd (cc (rw c at h))
  | inr c ↦ elim (Bool-cases (ltb (length d.job_queue) d.max_queue)) [
    | inl room ↦
        let same : enqueue job d ≡ e = cc (rw (c, room) at h) in rw same at (enqueue-Inv job inv)
    | inr full ↦ elim (Bool-cases (d.max_queue == 0)) [
      | inl z ↦
          let same : hand_over job d ≡ e = cc (rw (c, full, z) at h) in
          rw same at (hand_over-Inv job inv)
      | inr z ↦ absurd (cc (rw (c, full, z) at h))
    ]
  ]
]

-- A change of the phase or of the queue's flag, where nobody dispatches that did not.
rephase-Inv :
    {d : Dispatcher} (phase : Phase) (closed : Bool)
    → Inv d
    → (phase ≡ dispatching → d.phase ≡ dispatching)
    → Inv (record d { phase = phase; job_queue_closed = closed })
unfolding weight
rephase-Inv phase closed inv back = record {
  kept = inv.kept;
  benches = inv.benches;
  size = inv.size;
  known = inv.known;
  running = λ run. inv.running (back run);
}

close_job_queue-Inv :
    {d e : Dispatcher} (phase : Phase)
    → d.phase ≡ phase
    → Inv d
    → close_job_queue phase d ≡ some e
    → Inv e
unfolding close_job_queue
close_job_queue-Inv {d} {e} dispatching p inv h = elim (Bool-cases d.job_queue_closed) [
  | inl c ↦ absurd (cc (rw c at h))
  | inr c ↦
      let same : record d { job_queue_closed = true } ≡ e = cc (rw c at h) in
      rw same at (rephase-Inv d.phase true inv (λ run. run))
]
close_job_queue-Inv {d} {e} closing p inv h = let same : d ≡ e = cc h in rw same at inv
close_job_queue-Inv {d} {e} ended p inv h = let same : d ≡ e = cc h in rw same at inv

closed_in-Inv : {d e : Dispatcher} (phase : Phase) → Inv d → closed_in phase d ≡ some e → Inv e
unfolding closed_in
closed_in-Inv dispatching inv h = absurd (cc h)
closed_in-Inv {d} {e} closing inv h =
    let same : record d { phase = ended } ≡ e = cc h in
    rw same at (rephase-Inv ended d.job_queue_closed inv (λ run. absurd (cc run)))
closed_in-Inv ended inv h = absurd (cc h)

pub Step-Inv : {d e : Dispatcher} → Inv d → Step d e → Inv e
unfolding end_dispatch close_work_flow
Step-Inv inv (moved m) = Move-Inv inv m
Step-Inv inv (added job h) = add_job-Inv job inv h
Step-Inv {d} inv (signalled h) = close_job_queue-Inv d.phase refl inv h
Step-Inv {d} inv (collected h) = closed_in-Inv d.phase inv h

pub Steps-Inv : {d e : Dispatcher} → Inv d → Steps d e → Inv e
Steps-Inv inv here = inv
Steps-Inv inv (then_step r s) = Step-Inv (Steps-Inv inv r) s

pub Reach-Inv : (max_workers max_queue : ℕ) {d : Dispatcher} → Reach max_workers max_queue d → Inv d
Reach-Inv max_workers max_queue r = Steps-Inv (start-Inv max_workers max_queue) r

-- No job is lost or played twice: in every state that can be reached the jobs that AddJob has sent
-- are, counted by any weight, those in the queue, those that goroutines carry, those that workers
-- play and those that have been played.
pub accepted_kept :
    (max_workers max_queue : ℕ) {d : Dispatcher} (w : Job → ℕ)
    → Reach max_workers max_queue d
    → total w d.accepted
      ≡ total w d.job_queue
        + total (carried w) d.carriers
        + total (in_hand w) d.workers
        + total w d.played
unfolding weight
accepted_kept max_workers max_queue w r = (Reach-Inv max_workers max_queue r).kept w

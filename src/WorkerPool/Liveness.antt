-- ===== src/WorkerPool/Liveness.antt =====
-- While the dispatcher of goroutine_pool/pool/pool.go runs, every job that AddJob has sent is played.
use go_util.Prelude.{
  ℕ, ◌+◌, ◌≤◌, ◌<◌, ◌≡◌, refl, sym, ap, ◌∙◌, ◌⊎◌, inl, inr, false, some, List, [], ◌∷◌, length,
  get_elem?, ltb, arith, ltb→lt, Bool-cases,
}
use go_util.WorkerPool.Parts.{
  Job, Worker, registering, selecting, finished, playing, Carrier, seeking, holding, dispatching,
  Dispatcher,
}
use go_util.WorkerPool.Step.{
  Move, take_job, stop_workers, take_workbench, deliver, play, register, finish, Moves, none_left,
  and_move, moved, Steps, then_step, Reach,
}
use go_util.WorkerPool.Total.{
  total, total_zero, total-cases, length-total, get_elem?-total, below_get_elem?,
}
use go_util.WorkerPool.Weight.{
  carried, in_hand, holds, offered, returned, stray, held_stray, weight, Inv,
}
use go_util.WorkerPool.Invariant.{Reach-Inv}
use go_util.WorkerPool.Progress.{load, busy, work, register_has_room, remaining, Moves-remaining}

load_zero : (w : Job → ℕ) (x : Carrier) → load x ≡ 0 → carried w x ≡ 0
unfolding load carried
load_zero w (seeking job) h = absurd (omega (arith, h))
load_zero w (holding bench job) h = absurd (omega (arith, h))

busy_zero : (w : Job → ℕ) (x : Worker) → busy x ≡ 0 → in_hand w x ≡ 0
unfolding busy in_hand
busy_zero w registering h = refl
busy_zero w selecting h = refl
busy_zero w finished h = refl
busy_zero w (playing job) h = absurd (omega (arith, h))

empty : (w : Job → ℕ) (jobs : List Job) → length jobs ≡ 0 → total w jobs ≡ 0
unfolding total
empty w [] h = refl
empty w (j ∷ js) h = absurd (omega (arith, h))

-- Without work left every accepted job has been played.
no_work :
    {d : Dispatcher} → Inv d → work d ≡ 0 → (w : Job → ℕ) → total w d.accepted ≡ total w d.played
unfolding work weight
no_work {d} inv z w =
    let c = total_zero load (carried w) d.carriers (load_zero w) (omega (arith, z)) in
    let b = total_zero busy (in_hand w) d.workers (busy_zero w) (omega (arith, z)) in
    omega (arith, inv.kept w, c, b, empty w d.job_queue (omega (arith, z)))

-- A worker who is neither busy nor returned is at the select.
idle : (x : Worker) → busy x ≡ 0 → returned x ≡ 0 → x ≡ selecting
unfolding busy returned
idle registering b r = absurd (omega (arith, b))
idle selecting b r = refl
idle finished b r = absurd (omega (arith, r))
idle (playing job) b r = absurd (omega (arith, b))

idle_offered : (x : Worker) → 1 ≤ offered x + busy x
unfolding offered busy
idle_offered registering = omega arith
idle_offered selecting = omega arith
idle_offered finished = omega arith
idle_offered (playing job) = omega arith

not_stray : (n bench : ℕ) → stray n bench ≡ 0 → bench < n
unfolding stray
not_stray n bench h = elim (Bool-cases (ltb bench n)) [
  | inl lt ↦ ltb→lt bench n lt
  | inr ge ↦ absurd (cc (rw ge at h))
]

Moving : Dispatcher → Type 0
Moving d = (e : Dispatcher) × Move d e

-- A carrier that holds a workbench can send, where every worker waits at the select.
deliverable :
    {d : Dispatcher} (k bench : ℕ) (job : Job)
    → Inv d
    → total returned d.workers ≡ 0
    → total busy d.workers ≡ 0
    → get_elem? d.carriers k ≡ some (holding bench job)
    → Moving d
unfolding Moving held_stray
deliverable {d} k bench job inv none_returned none_busy h =
    let s = get_elem?-total (held_stray d.max_workers) d.carriers k (holding bench job) h in
    let lt = not_stray d.max_workers bench (omega (arith, s, inv.known)) in
    let (x, at) = below_get_elem? d.workers bench (omega (arith, lt, inv.size)) in
    let b = get_elem?-total busy d.workers bench x at in
    let r = get_elem?-total returned d.workers bench x at in
    let free : x ≡ selecting =
      idle x (omega (arith, b, none_busy)) (omega (arith, r, none_returned)) in
    (_, deliver k bench job h (at ∙ ap some free))

-- Every worker waits at the select and a carrier has a job.
carried_on :
    {d : Dispatcher} (k : ℕ) (c : Carrier)
    → Inv d
    → 0 < d.max_workers
    → total returned d.workers ≡ 0
    → total busy d.workers ≡ 0
    → get_elem? d.carriers k ≡ some c
    → Moving d
unfolding Moving holds
carried_on {d} k (holding bench job) inv some_worker none_returned none_busy h =
    deliverable k bench job inv none_returned none_busy h
carried_on {d} k (seeking job) inv some_worker none_returned none_busy h =
    with_benches d.workbench_queue refl
  where
    with_benches : (benches : List ℕ) → d.workbench_queue ≡ benches → Moving d
    with_benches (bench ∷ rest) q = (_, take_workbench k bench rest job h q)
    with_benches [] q = elim (total-cases holds d.carriers) [
      | inl none_held ↦
          let queue : length d.workbench_queue ≡ 0 = rw q refl in
          let all = length-total offered busy d.workers idle_offered in
          absurd (omega (arith, all, inv.benches, inv.size, none_held, queue))
      | inr (j, c, at, held) ↦ holder j c at held
    ]
      where
        holder : (j : ℕ) (c : Carrier) → get_elem? d.carriers j ≡ some c → 0 < holds c → Moving d
        holder j (seeking other) at held = absurd (omega (arith, held))
        holder j (holding bench other) at held =
            deliverable j bench other inv none_returned none_busy at

-- A worker who is busy moves.
worker_moves :
    (max_workers max_queue : ℕ) {d : Dispatcher} (i : ℕ) (x : Worker)
    → Reach max_workers max_queue d
    → get_elem? d.workers i ≡ some x
    → 0 < busy x
    → Moving d
unfolding Moving busy
worker_moves n q i registering r h b = (_, register i h (register_has_room n q i r h))
worker_moves n q i selecting r h b = absurd (omega (arith, b))
worker_moves n q i finished r h b = absurd (omega (arith, b))
worker_moves n q i (playing job) r h b = (_, play i job h)

progress :
    (max_workers max_queue : ℕ) {d : Dispatcher}
    → Reach max_workers max_queue d
    → 0 < d.max_workers
    → d.phase ≡ dispatching
    → (work d ≡ 0) ⊎ Moving d
unfolding Moving work
progress n q {d} r some_worker run = with_jobs d.job_queue refl
  where
    inv : Inv d
    inv = Reach-Inv n q r

    with_jobs : (jobs : List Job) → d.job_queue ≡ jobs → (work d ≡ 0) ⊎ Moving d
    with_jobs (job ∷ rest) e = inr (_, take_job job rest run e)
    with_jobs [] e = elim (total-cases busy d.workers) [
      | inr (i, x, h, b) ↦ inr (worker_moves n q i x r h b)
      | inl none_busy ↦ elim (total-cases load d.carriers) [
        | inr (k, c, h, l) ↦ inr (carried_on k c inv some_worker (inv.running run).0 none_busy h)
        | inl none_carried ↦
            let queue : length d.job_queue ≡ 0 = rw e refl in
            inl (omega (arith, queue, none_busy, none_carried))
      ]
    ]

-- While the queue is open Dispatch runs on, and the moves take no job from outside.
Open : Dispatcher → Dispatcher → Type 0
Open d e =
    (e.phase ≡ dispatching)
    × (e.job_queue_closed ≡ false)
    × (e.accepted ≡ d.accepted)
    × (e.max_workers ≡ d.max_workers)

Move-Open : (d : Dispatcher) {e f : Dispatcher} → Open d e → Move e f → Open d f
unfolding Open
Move-Open d o (take_job job rest run q) = o
Move-Open d o (stop_workers run q c) = absurd (cc (o.1, c))
Move-Open d o (take_workbench k bench rest job h q) = o
Move-Open d o (deliver k bench job h s) = o
Move-Open d o (play i job s) = o
Move-Open d o (register i s room) = o
Move-Open d o (finish k i h s) = o

Moves-Open :
    {n : ℕ} (d : Dispatcher) {e : Dispatcher}
    → d.phase ≡ dispatching
    → d.job_queue_closed ≡ false
    → Moves n d e
    → Open d e
unfolding Open
Moves-Open d run opened none_left = (run, opened, refl, refl)
Moves-Open d run opened (and_move ms m) = Move-Open d (Moves-Open d run opened ms) m

Moves-Steps : {n : ℕ} {c d e : Dispatcher} → Steps c d → Moves n d e → Steps c e
Moves-Steps r none_left = r
Moves-Steps r (and_move ms m) = then_step (Moves-Steps r ms) (moved m)

-- A pool with a worker whose queue is open plays every job that it has accepted, however its
-- goroutines are scheduled: from a state that can be reached there are at most as many moves as
-- remain there, and after any of them either another move is possible, or the jobs that had been
-- accepted are, counted by any weight, the jobs played.
pub Moves-played :
    (max_workers max_queue : ℕ) {n : ℕ} {d e : Dispatcher}
    → Reach max_workers max_queue d
    → 0 < d.max_workers
    → d.phase ≡ dispatching
    → d.job_queue_closed ≡ false
    → Moves n d e
    → (n + remaining e ≤ remaining d)
      × (((w : Job → ℕ) → total w d.accepted ≡ total w e.played) ⊎ ((f : Dispatcher) × Move e f))
unfolding Open Moving
Moves-played n q {d = d} {e = e} r some_worker run opened ms =
    let after = Moves-Steps r ms in
    let (run2, opened2, same, size) = Moves-Open d run opened ms in
    (
      Moves-remaining ms,
      elim (progress n q after (rw (sym size) at some_worker) run2) [
        | inl z ↦ inl (λ w. ap (total w) (sym same) ∙ no_work (Reach-Inv n q after) z w)
        | inr m ↦ inr m
      ],
    )

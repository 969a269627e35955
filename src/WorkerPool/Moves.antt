-- ===== src/WorkerPool/Moves.antt =====
-- Every step of a goroutine of goroutine_pool/pool/pool.go keeps the invariant.
use go_util.Prelude.{
  ℕ, suc, ◌+◌, ◌<◌, ◌≡◌, refl, [], ◌∷◌, length, arith, lt→ltb, length-append, ◌∙◌,
}
use go_util.WorkerPool.Parts.{
  registering, selecting, finished, playing, seeking, holding, Dispatcher,
}
use go_util.WorkerPool.Step.{
  Move, take_job, stop_workers, take_workbench, deliver, play, register, finish,
}
use go_util.WorkerPool.Total.{
  total, total-append, total-set_at, total-remove_at, length-set_at, get_elem?_below,
}
use go_util.WorkerPool.Weight.{
  carried, in_hand, holds, offered, returned, stray, held_stray, weight, Inv,
}

own_bench :
    (d : Dispatcher) (i : ℕ)
    → length d.workers ≡ d.max_workers
    → i < length d.workers
    → stray d.max_workers i ≡ 0
unfolding stray
own_bench d i size lt = rw (lt→ltb i d.max_workers (omega (arith, size, lt))) refl

pub Move-Inv : {d e : Dispatcher} → Inv d → Move d e → Inv e
unfolding weight total carried in_hand holds offered returned held_stray
Move-Inv {d} inv (take_job job rest run q) = record {
  kept = λ w.
      let queue : total w d.job_queue ≡ w job + total w rest = rw q refl in
      omega (arith, inv.kept w, queue);
  benches = omega (arith, inv.benches);
  size = inv.size;
  known = omega (arith, inv.known);
  running = inv.running;
}
Move-Inv {d} inv (stop_workers run q c) = record {
  kept = inv.kept;
  benches = inv.benches;
  size = inv.size;
  known = inv.known;
  running = λ h. absurd (cc h);
}
Move-Inv {d} inv (take_workbench k bench rest job h q) = record {
  kept = λ w.
      let c = total-set_at (carried w) d.carriers k (seeking job) (holding bench job) h in
      omega (arith, inv.kept w, c);
  benches =
      let c = total-set_at holds d.carriers k (seeking job) (holding bench job) h in
      let queue : length d.workbench_queue ≡ suc (length rest) = rw q refl in
      omega (arith, inv.benches, c, queue);
  size = inv.size;
  known =
      let n = d.max_workers in
      let c = total-set_at (held_stray n) d.carriers k (seeking job) (holding bench job) h in
      let queue : total (stray n) d.workbench_queue ≡ stray n bench + total (stray n) rest =
        rw q refl in
      omega (arith, inv.known, c, queue);
  running = inv.running;
}
Move-Inv {d} inv (deliver k bench job h s) = record {
  kept = λ w.
      let c = total-remove_at (carried w) d.carriers k (holding bench job) h in
      let t = total-set_at (in_hand w) d.workers bench selecting (playing job) s in
      omega (arith, inv.kept w, c, t);
  benches =
      let c = total-remove_at holds d.carriers k (holding bench job) h in
      let t = total-set_at offered d.workers bench selecting (playing job) s in
      omega (arith, inv.benches, c, t);
  size = length-set_at d.workers bench (playing job) ∙ inv.size;
  known =
      let c = total-remove_at (held_stray d.max_workers) d.carriers k (holding bench job) h in
      omega (arith, inv.known, c);
  running = λ run.
      let t = total-set_at returned d.workers bench selecting (playing job) s in
      let (none_returned, no_stops) = inv.running run in
      (omega (arith, none_returned, t), no_stops);
}
Move-Inv {d} inv (play i job s) = record {
  kept = λ w.
      let t = total-set_at (in_hand w) d.workers i (playing job) registering s in
      omega (arith, inv.kept w, t);
  benches =
      let t = total-set_at offered d.workers i (playing job) registering s in
      omega (arith, inv.benches, t);
  size = length-set_at d.workers i registering ∙ inv.size;
  known = inv.known;
  running = λ run.
      let t = total-set_at returned d.workers i (playing job) registering s in
      let (none_returned, no_stops) = inv.running run in
      (omega (arith, none_returned, t), no_stops);
}
Move-Inv {d} inv (register i s room) = record {
  kept = λ w.
      let t = total-set_at (in_hand w) d.workers i registering selecting s in
      omega (arith, inv.kept w, t);
  benches =
      let t = total-set_at offered d.workers i registering selecting s in
      omega (arith, inv.benches, t, length-append d.workbench_queue (i ∷ []));
  size = length-set_at d.workers i selecting ∙ inv.size;
  known =
      let n = d.max_workers in
      let queue = total-append (stray n) d.workbench_queue (i ∷ []) in
      let own : stray n i ≡ 0 =
        own_bench d i inv.size (get_elem?_below d.workers i registering s) in
      omega (arith, inv.known, queue, own);
  running = λ run.
      let t = total-set_at returned d.workers i registering selecting s in
      let (none_returned, no_stops) = inv.running run in
      (omega (arith, none_returned, t), no_stops);
}
Move-Inv {d} inv (finish k i h s) = record {
  kept = λ w.
      let t = total-set_at (in_hand w) d.workers i selecting finished s in
      omega (arith, inv.kept w, t);
  benches =
      let t = total-set_at offered d.workers i selecting finished s in
      omega (arith, inv.benches, t);
  size = length-set_at d.workers i finished ∙ inv.size;
  known = inv.known;
  running = λ run. absurd (cc (h, (inv.running run).1));
}

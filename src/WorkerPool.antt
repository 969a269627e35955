-- ===== src/WorkerPool.antt =====
-- goroutine_pool/pool/pool.go: the dispatcher, its workers and the goroutines that carry jobs.
pub mod Parts
pub mod Step
pub mod Total
pub mod Weight
pub mod Moves
pub mod Invariant
pub mod Progress
pub mod Liveness

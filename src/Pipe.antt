-- ===== src/Pipe.antt =====
-- channel_pipe/pipe.go: the stages Scan, Read and Merge, joined by channels, and Wait.
pub mod Parts
pub mod Moves
pub mod Flow
pub mod Written
pub mod Honest
pub mod Ends
pub mod Ended
pub mod Outcome
pub mod Work
pub mod Runs
pub mod Able
pub mod Progress

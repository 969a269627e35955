-- ===== src/ReadFile.antt =====
-- multithreadReadfile/multiThreadRead.go: the words of a file, counted by two readers.
pub mod Words
pub mod Counts

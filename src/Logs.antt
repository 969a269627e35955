-- ===== src/Logs.antt =====
-- log/logrus/hook/logs: the log file that rotates.
pub mod Disk
pub mod Writer
pub mod Hook

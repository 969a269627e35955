-- ===== src/Stats.antt =====
-- gracefull_server/http: the server that tells clients how often to sample, and stores what they report.
pub mod Data
pub mod Library
pub mod Config
pub mod Handlers
pub mod Reports

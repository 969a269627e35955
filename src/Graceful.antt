-- ===== src/Graceful.antt =====
-- gracefull_server/tcp/server.go: a server that hands its listener to a child.
pub mod System
pub mod Server
pub mod Signals

-- ===== src/Scan.antt =====
-- scan_ip_net/main.go: the countries of addresses, asked for in batches and kept in a cache.
pub mod Cache
pub mod Run
pub mod Main

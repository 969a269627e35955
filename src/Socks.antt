-- ===== src/Socks.antt =====
-- socks/socks.go: a SOCKS5 proxy for CONNECT without authentication.
pub mod Conn
pub mod Request
pub mod Reply
pub mod Proxy

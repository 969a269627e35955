-- ===== src/Wire.antt =====
-- Bytes and slices as Go has them, for the parts that read and write network data
-- (p2p/go-stun/stun, socks). A byte is a number below 256.
pub mod Slices
pub mod Bits

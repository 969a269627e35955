-- ===== src/Stun.antt =====
-- p2p/go-stun/stun: a STUN client that finds out what NAT it is behind.
pub mod Consts
pub mod Tables
pub mod Library
pub mod Ends
pub mod Align
pub mod Host
pub mod Attribute
pub mod Packet
pub mod Response
pub mod Network
pub mod Send
pub mod Discover
pub mod Client

-- ===== src/Rpc.antt =====
-- reflect/typeReflectCall.go: services whose methods are found and called by reflection.
pub mod Types
pub mod Pools
pub mod Register
pub mod Handle

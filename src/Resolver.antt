-- ===== src/Resolver.antt =====
-- grpc-lb/etcdv3: register.go, where a server puts its address into etcd and takes it out, and
-- resolver.go, whose watch keeps a client's list of addresses.
pub mod Watch
pub mod Register

-- ===== src/JsonRpc.antt =====
-- rpc/rpc/codec: the JSON codecs of a net/rpc server and client.
pub mod Codec

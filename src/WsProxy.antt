-- ===== src/WsProxy.antt =====
-- websocket_proxy/server.go: handler, which joins a websocket to a TCP connection.
pub mod Handler

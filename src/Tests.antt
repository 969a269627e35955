-- ===== src/Tests.antt =====
-- Runs of the definitions at concrete inputs, and the theorems at such inputs.
mod Stun
mod StunNetwork
mod Socks
mod Logs
mod Hook
mod Hanu
mod Register
mod Stats
mod Rpc
mod WorkerPool
mod Graceful
mod Scan
mod ScanMain
mod Wechat
mod Pipe
mod ReadFile
mod JsonRpc
mod WsProxy

-- ===== src/Lib.antt =====
-- go_util: a verification library for the Go utilities of this repository.
--
-- Parts and files. Prelude holds the shared base: booleans, the native numbers, lists
-- over them, dictionaries for Go's maps (Prelude/Dict), and Outcome, the result of a Go
-- function that may return an error, panic or not end. Wire models Go's byte slices (a
-- slice is its content and the spare capacity behind it, so that reslicing past the length
-- but within the capacity behaves as in Go) and the bit operations on bytes and uint16.
--
-- Stun models the STUN client, p2p/go-stun/stun:
--   Stun/Consts      const.go: constants of the protocol, NATType and its names
--   Stun/Tables      const.go: its tables of error codes, attribute types and message types
--   Stun/Align       utils.go: align and padding
--   Stun/Host        host.go and isLocalAddress of utils.go
--   Stun/Attribute   attribute.go: attributes, their constructors and rawAddr, xorAddr
--   Stun/Packet      packet.go: newPacket, newPacketFromBytes, addAttribute, bytes
--   Stun/Response    response.go: newResponse
--   Stun/Network     a connection as the list of what each read and write will do
--   Stun/Send        net.go and tests.go: sendBindingReq, send, test1, test2, test3
--   Stun/Discover    discover.go: discover, the decision tree
--   Stun/Client      client.go: Client, Discover, Keepalive
-- Discover calls the tests of Send; these write and parse packets of Packet, and
-- Response reads the attributes of Attribute from them.
--
-- Socks models the proxy of socks/socks.go:
--   Socks/Conn       a connection as what its reads bring; io.ReadAtLeast and io.ReadFull
--   Socks/Request    handShake and parseTarget
--   Socks/Reply      the reply that pipeWhenClose writes
--   Socks/Proxy      netCopy, pipeWhenClose, handleConnection and the list of connections
-- A read of the proxy may bring any part of what the client sent, which the theorems of
-- Socks/Request/Reading put together again.
--
-- Logs models the rotating writer of log/logrus/hook/logs/file.go:
--   Logs/Disk        the files by date and number, the search for a free name, renaming
--   Logs/Writer      LogWriter: Init, docheck, DoRotate, WriteMsg, deleteOldLog, Destroy
--   Logs/Hook        hook.go, caller.go: Fire, with the message and the caller of an entry
-- What the system's calls bring is an argument of each operation. A removed file stays in the list of
-- files as history, with the time of its removal; deleteOldLog runs as a step of its own at any time.
--
-- Hanu models the Slack bot of hanu:
--   Hanu/Message     message.go: what a message is for, its mention and its links
--   Hanu/Bot         main.go, command.go, conversation.go: process, sendHelp, searchCommand
-- A text is its bytes. What the bot does on a message is a list of actions.
--
-- Resolver models grpc-lb/etcdv3: Resolver/Watch is the loop of watch of resolver.go, with the
-- dictionary of addresses, the events that change it and the lists that UpdateState gets,
-- Resolver/Register is register.go, where etcd, the goroutines and the calls of UnRegister are one
-- state. What Register puts and deletes are the events of the watch.
--
-- Stats models the sampling server of gracefull_server/http/http_server.go:
--   Stats/Data       the messages, the configuration and the stored rows
--   Stats/Library    the codecs, the numbers' texts and the file, which are parameters
--   Stats/Config     get_sample_rate_by_uid, _by_country and get_sample_all_rate, over a memory
--                    of cells, since a response holds pointers
--   Stats/Handlers   the handlers that read and change the configuration, Dump and Load
--   Stats/Reports    save_db, WritesPoints, save_sample_rtt_stat and the reporting handlers
--
-- Rpc models the services of reflect/typeReflectCall.go:
--   Rpc/Types        what reflect tells of types and methods
--   Rpc/Pools        typePools: Init, Put, Get
--   Rpc/Register     suitableMethods and register
--   Rpc/Handle       call and handleRequest
--
-- WorkerPool models goroutine_pool/pool/pool.go:
--   WorkerPool/Parts    Dispatcher, Worker and the goroutines that carry jobs; NewDispatcher,
--                       AddJob, the signal and CloseWorkFlow
--   WorkerPool/Step     one constructor for each channel operation of Start, Stop and Dispatch
--   WorkerPool/Weight   the invariant: where the jobs and the workbenches are
-- Any order of the steps is a run of the pool, so that nothing is assumed of the scheduler.
--
-- Pipe models channel_pipe/pipe.go:
--   Pipe/Parts       ReaderItem, Report, doRead, the state of a run, and what Wait and
--                    MergeLogs return
--   Pipe/Moves       the steps of the goroutines of Scan, Read, Merge and Wait, and doMerge
-- The calls of filepath.Walk are a list; the context may be cancelled at any time.
--
-- Graceful models gracefull_server/tcp/server.go:
--   Graceful/System     the calls of the system, which are parameters
--   Graceful/Server     importListener, createListener, createOrImportListener,
--                       getListenerFile, forkChild
--   Graceful/Signals    waitForSignals, over the list of the signals that arrive
-- The environment and the descriptors that forkChild makes are what the child's
-- importListener reads.
--
-- Scan models scan_ip_net/main.go: Scan/Cache is saveGEOToCache, saveCache and getNoCacheIp,
-- Scan/Run the loop of run, over the list of what each post brings, Scan/Main the loading of the
-- cache and the lines, and main.
--
-- Wechat models the test of a callback in wechat_alarm/callback_alarm.go: Wechat/Auth is
-- PKCS5UnPadding, AesDecrypt and WxAuth, with the bounds that Go checks against the
-- capacity of a slice and a length that wraps as an int32.
--
-- ReadFile models multithreadReadfile/multiThreadRead.go: ReadFile/Words is read, over the
-- bytes of the file, ReadFile/Counts the goroutine that counts the words of two readers.
-- The readers start where the variable `current` of main stands when they read it; the code does not
-- make sure that each reads it in its own round, which the theorem assumes.
--
-- WsProxy models handler of websocket_proxy/server.go after both connections are made:
-- WsProxy/Handler has a step for each call of its two loops on a connection or the context.
--
-- JsonRpc models the codecs of rpc/rpc/codec: JsonRpc/Codec is WriteRequest, WriteResponse, Close
-- and the reading of a header with its body, over the bytes of the connection.
--
-- Fuel. The loop of newPacketFromBytes runs on fuel that is the number of bytes of
-- the datagram; each round moves at least four bytes, which holds while a datagram has
-- at most 65532 bytes, as one over UDP has. The read loop of send runs on the list of
-- what the reads will give; where that ends, the read deadline passes.
--
-- Parameters. Code outside the repository is a parameter: hash/crc32, crypto/rand, crypto/aes,
-- encoding/json, package net, the environment, the files and the sockets are arguments of the
-- definitions that call them, each with what is documented of it where a theorem needs that.
-- Not modelled: printing and logging, the bot's network handshake, two goroutines that change one
-- list at once, and the directories that are examples of a library's use, generated code or plain
-- I/O.

pub mod Prelude
pub mod Wire
pub mod Stun
pub mod Graceful
pub mod Hanu
pub mod JsonRpc
pub mod Logs
pub mod Pipe
pub mod ReadFile
pub mod Resolver
pub mod Rpc
pub mod Scan
pub mod Socks
pub mod Stats
pub mod Wechat
pub mod WorkerPool
pub mod WsProxy
pub mod Tests

-- ===== src/Lib.antt =====
-- SkyAccel: the overlay tunnel of the data proxies and the routing graph of the control plane.
--
-- A proxy takes requests of clients, packs those for one route into frames (the aggregator), and sends
-- the frames over QUIC tunnels from relay to relay. The last relay hands each request to its origin,
-- packs the responses in the same way, and sends them back; the first proxy hands each response to the
-- client who waits (the disaggregator). The control plane keeps the graph that routes come from.
--
-- Files, and the code that each models:
--  Packet       data-proxy/tunnel-packet/tunnel-packet.go: NewPacket, the setters, AppendUserPacket,
--               SerializeHead, TotalBytes, ParseHeader and Parse, on lists of bytes. A slice out of range
--               is `panic`.
--  Util         data-proxy/util/util.go and req-id.go: HopIPToNet, Uint32ToIP, GenShortReqID.
--  Tunnel       data-proxy/tunnel-handler.go: HandleQUICPacket (`handle_packet`); the stream reader of
--               data-proxy/tunnel-manager/tunnel-listener.go (`read_frame`); the way back of
--               data-proxy/backsourcer/backsourcer.go (`response_hops`, `next_hop`).
--  Aggregator   data-proxy/aggregator/aggregator.go: handleMsg, checkTimeout, flush and
--               evictStaleBatches of a worker. A batch is an object that the route map, the queue and a
--               handler share: it stands in `store` under its number.
--  Aggregator.V2  data-proxy/aggregator/aggregator_v2.go: the same over 16 shards, with pooled buffers.
--  Pool         data-proxy/backsourcer/tcp_pool.go: Get, Put, cleanup, Close and DoRequest.
--  TunnelManager  data-proxy/tunnel-manager/tunnel-manager.go: SendPacket, GetOrCreateTunnel, CloseTunnel.
--  Disaggregator  data-proxy/disaggregator/disaggregator.go: Register with its cleanup, and Deliver.
--  RateLimiter  data-proxy/server/rate-limiter.go: GetLimiter, cleanupLoop, Allow, Stop.
--  BackSourcer  data-proxy/backsourcer/backsourcer.go: doOriginRequest, with DoRequest as a parameter.
--  Request      data-proxy/server/routing.go and handler.go, and from tcp-server.go and udp-server.go:
--               handleConnection, handleConnectionKeepAlive, handleUDPConnection up to its wait,
--               shouldLogAccess (Request.Connection), NewTCPServer, StartServerRun and InitWorkerPool
--               (Request.Admission). A handler is two parts, before and behind its wait; what other
--               goroutines do meanwhile is a parameter.
--  Graph        control-plane/routing/graph/update-graph.go: AddNode, RemoveNode and the getters.
--  Paths        control-plane/routing/core-domain/k-shortest.go: isInPath, hasDuplicateNodes,
--               removeConsecutiveDuplicates, pathsSharePrefix and selectTopPaths; PriorityQueue with
--               container/heap (Paths.Heap), findShortestPath (Paths.Search), yensAlgorithm (Paths.Yen) and
--               Computing (Paths.Computing).
--  Servers      data-proxy/server/server-manager.go, tcp-server.go and udp-server.go: the start, list and
--               stop requests, StartServerWithMgr and StopServer.
--  SafeMap      control-plane/util/safe-map.go: every operation.
--  Base         lists, maps, tests and calls that may panic, on the native numbers.
--  Examples     the theorems on small values.
--
-- Bounds and fuel: bytes and words are numbers with the wrap-around of their Go types written out where
-- a value is narrowed (PayloadLen, the length of a sub-packet, request ids). `int` does not overflow:
-- lengths are those of buffers in memory. Parse reads its payload with a fuel of one more than its length;
-- each turn takes at least six bytes. The loop of a keep-alive connection has one turn more than the connection has chunks; each turn reads one.
-- The two loops of findShortestPath have a fuel each; a theorem says that some amount of it is enough.
-- yensAlgorithm has one turn more than the k paths it is to find; each turn but the last adds one. Times
-- are numbers, in milliseconds or as a file says; the pool's Get and Put have one
-- for each call of time.Now(), a handler of the aggregator has one for all of them.
--
-- Costs are an abstract type with an order (Paths.Search.Costs.IsOrder): float64 without NaN is meant, which
-- has finitely many values, and weights that make no cost smaller.
--
-- Interleavings: a critical section is one step. A handler of the aggregator runs its sections in order
-- with no step of another goroutine between them; the shared channel of the second aggregator is an explicit
-- sequence of the goroutine that takes each message.
--
-- Not modelled: sockets, QUIC, HTTP, etcd, configuration files and logs, which the code only calls; the
-- goroutines and tickers that call the steps; the scores in floating point (EdgeRisk, EWMA,
-- Lyapunov); the other path solvers; the direct requests to an origin without relays (directOriginProxy);
-- the data plane's collectors.
pub mod Base
pub mod Packet
pub mod Util
pub mod Tunnel
pub mod Aggregator
pub mod Pool
pub mod TunnelManager
pub mod Disaggregator
pub mod RateLimiter
pub mod BackSourcer
pub mod Request
pub mod Graph
pub mod Examples
pub mod Paths
pub mod Servers
pub mod SafeMap

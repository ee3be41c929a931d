-- ===== src/Lib.antt =====
-- A verification library for rediska, a Redis server in Go (module github.com/vinayhpandya/rediska).
--
-- The program and its parts. A client's bytes are decoded as RESP values (core/resp.go) and parsed into
-- commands (commands/command.go). The loop of a connection (server/tcp_server.go) gives each command to
-- the transaction state of that connection (server/transaction.go), gathers plain commands into
-- pipelines, and sends requests to one dispatch worker. The worker looks a command's handler up
-- (commands/registry.go), checks in cluster mode that this node owns the slot of its keys
-- (commands/keyspecs.go, commands/route.go, cluster/), makes room in memory, runs the handler on the
-- store (store/), and appends a write to the append-only file. Counts of distinct values are
-- HyperLogLogs (store/hll/).
--
-- Which file models which part:
--   Common/*            numbers, bytes, lists, bits of words, int64 and its decimal text
--   Hll/Opcode          store/hll/hll_sparse.go, the opcodes of the sparse form
--   Hll/Sparse          store/hll/hll_sparse.go, walkSparse, sparseGet, sparseHisto, sparseSet
--   Hll/Dense           store/hll/hll.go, the packed registers of the dense form
--   Hll/Murmur          store/hll/murmur.go, and hllPatLen of store/hll/hll.go
--   Hll/Sketch          store/hll/hll.go, New, Add, Merge, promote and Count
--   Cluster/Slot        cluster/slot.go, CRC16 and KeyHashSlot
--   Cluster/Layout      cluster/config.go, Layout and Owner
--   Cluster/Parse       cluster/config.go, ParseLayout and parseRange
--   Store/Entry         core/sds/sds.go, and the entries of store/store.go with their size (store/lru.go)
--   Store/Lfu           store/lfu.go, and the clock of store/lru.go
--   Store/Keys          store/store.go, the Store, its map and its counters
--   Store/Contents      what a store holds, without clocks, capacities and counters, and what the
--                       writes of store/store.go do to it
--   Store/Strings       store/store.go, Set, Append, Get, GetInt, GetEncoding, GetFreq, TTL and Delete;
--                       store/expire.go, DeleteExpired
--   Store/Sketches      store/store.go, PFAdd, PFCount and PFMerge
--   Store/Eviction      store/lru.go, the eviction pool and PerformEvictions
--   Core/Encode         core/encode.go
--   Core/Decode         core/resp.go, Decode and what it calls; core/decode.go, DecodeInteger
--   Core/Frame          the replies that the encoders of core/encode.go build
--   Core/Aof            core/aof.go, Write and Recover
--   Commands/Command    commands/command.go and commands/keyspecs.go
--   Commands/Route      commands/route.go
--   Commands/Registry   commands/registry.go, with DispatchBatch and DispatchPipeline
--   Commands/Handlers   the handlers of commands/set.go, get.go, append.go, del.go, expire.go, ttl.go,
--                       incr.go, pfadd.go, pfcount.go, pfmerge.go, object.go, ping.go, info.go and
--                       debug.go, and _EXPIRY of commands/registry.go
--   Commands/ClusterCommand  commands/cluster.go
--   Commands/Table      the table of the handlers, as the init functions of commands/ fill it
--   Server/Transaction  server/transaction.go
--   Server/Worker       server/tcp_server.go, dispatchWorker
--   Server/Connection   server/tcp_server.go, the loop of handleConnection
--   Server/Stream       server/tcp_server.go, handleConnection on the bytes that a client sends
--   Server/Startup      server/tcp_server.go, replayAOFCommand, the start of Run, and one tick of
--                       startActiveExpiry
-- The functions have the names of the source in lower case. The modules under a component hold its
-- theorems; a module Tests runs a component on concrete inputs.
--
-- How code is modelled. A method takes the state and returns the new one beside its result. A panic is
-- the `none` of an Option. Words wrap: `% 2 ^ w` is written out, and int64 counters are words in two's
-- complement. A Go map is an association list. A pointer to a node is its position in the layout. Times
-- are nanoseconds since 1970, and expiry times that are zero are `none`.
--
-- Bounds and fuel. Reads and writes of slices are checked, so a theorem that says `some` also says that
-- no index is out of range. PerformEvictions runs on fuel of two rounds a key and two more, which is
-- enough: a round removes a key, or empties the pool, and then the next one removes a key. KeysOf runs
-- on fuel of one round an argument and two more. Decode runs on fuel of one level of nesting a byte and
-- one more; Recover and the loop of a connection on one round a byte and one more: each level and each
-- round takes a byte. A tick of the active expiry runs on fuel above the number of keys, since each
-- round but the last removes five keys or more. The decimal text of a number has 20 rounds, one for
-- each digit of a 64-bit number. Everything else is structural recursion.
--
-- Parameters. The arithmetic of float64 (record Float), rand.Float64, the time (a handler reads it
-- once), the order in which a map yields its keys, the capacity that the runtime gives to a slice that
-- must grow, what a write adds to the append-only file, net.SplitHostPort, the hash of nodeID, whether
-- the scanner of a layout file ends with an error, whether more bytes have come when reader.Buffered is
-- tested, and the texts of the errors of ParseCommand. The dispatch takes any table of handlers;
-- Commands/Table gives it that of the program. An allocation above 2^48 bytes panics, as on a 64-bit
-- system.
--
-- Not modelled. NewAOF, Sync, Close and LoadLayout, which only call the file system. The goroutines,
-- sockets, ticker, logs and the shutdown of server/tcp_server.go, the flags and signals of main.go and
-- config/config.go, which have no logic of their own, and the documents, scripts and dashboards. Upper
-- case, lower case and white space beyond ASCII. The scratch buffer of a Decoder is left out, as are
-- the line numbers in the errors of ParseLayout. The order among candidates of equal score, which
-- sort.Slice leaves open, is that of an insertion sort.
pub mod Common
pub mod Hll
pub mod Cluster
pub mod Store
pub mod Core
pub mod Commands
pub mod Server

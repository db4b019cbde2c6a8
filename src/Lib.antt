-- ===== src/Lib.antt =====
-- Fleare: an in-memory key-value store that is split into shards, with expiring keys, typed
-- commands and a write-ahead log.
--
-- A client connects to server/eventloop, logs in (internal/auth), and sends requests as frames,
-- which the loop of its connection reads one after the other and hands to
-- server/service_manager.go. A request goes to a handler of commander/. The handler checks its arguments, asks the shard
-- manager (internal/shard/shard_manager.go) for the shard of its key, which the ring of
-- internal/helper/consistent_hash.go chooses, reads and changes that shard's memory
-- (internal/store/mem.go), and sends an entry to the write-ahead log (internal/wal/wal.go). At the
-- start of the server the log's files are read back into the memories.
--
-- Files:
-- - Prelude: the helpers that all share: lists over the native numbers, bytes (Prelude/Bytes), Go
--   maps as association lists (Prelude/Dict), int64, int32 and int8 with their wrap-around
--   (Prelude/Int), decimal numerals of strconv (Prelude/Decimal).
-- - Store: internal/store/mem.go and object.go. A Memory is its map; a method takes the readings of
--   the clock that it makes. Store/View says what a reader sees, Store/Expiry is about TTL, Expire
--   and CleanupExpired, Store/Unique about a map that holds each key once.
-- - Ring: internal/helper/consistent_hash.go. Ring/Search is about the binary search, Ring/Order
--   about sorting, Ring/Assign about GetNode, AddNode and RemoveNode, Ring/Fill about the loops
--   that fill a ring.
-- - Wal: internal/wal/wal.go, the goroutine of one shard as steps on a WalShard: an entry is sent,
--   or a round of `run` is made. Wal/Run is about what reaches the file. Wal/Recover models
--   recoverShard and Recover; Wal/Recover/Frame, RoundTrip and Torn are about reading back.
--   Wal/System is WALSystem, the goroutines and files of all shards.
-- - Exec: the outcome of a handler (a reply, an error, a panic) with the state after it.
-- - Json: the values of encoding/json and the parameters that stand for it; Json/Path is
--   readNestedKey of commander/common/get.go, Json/Edit has the functions of commander/json_cmd that
--   change an object.
-- - Shard: internal/shard/shard_manager.go. Shard/Access and Shard/Durable relate what is stored to
--   what the log says, Shard/Recovery and Shard/Restart are about RecoverMemory.
-- - Command: the handlers. Command/Common (SET, GET, DELETE, EXISTS), Command/Expiry (TTL.EXPIRE,
--   TTL, ParseDurationToSeconds), Command/Text (STR.*), Command/Num (NUM.*), Command/Lists (LIST.*
--   but LIST.FIND), Command/Find (LIST.FIND; Meaning and Chosen describe what its queries find),
--   Command/Maps (MAP.*), Command/Documents (JSON.*). Command/Durable is about the agreement of the
--   log and the memory, Command/Requests serves requests one after the other, Command/RoundTrip
--   follows a key through several commands.
-- - Server/Framing: ReadSync, WriteSync and StartSync of server/eventloop/netcon.go and
--   io_thread.go. Server/Sessions: internal/auth and RequestAuth; Server/Sessions/Granted says who
--   is let in, Server/Sessions/History who has a session. Server/Handshake: AuthenticateClient of
--   server/eventloop/authentication.go. Server/Connections: io_thread_manager.go and the life of a
--   connection in main.go, as steps. Server/Traffic: OnTraffic, Execute with the table of commands,
--   and the commands PING, SESSION and STATUS; Server/Traffic/Restart puts requests, the log's
--   files and a restart together. Server/Multiplexer: epoll_linux.go and kqueue_darwin.go of
--   server/eventloop/multiplexer. Server/Listener: AcceptNewConnection of main.go over both of them;
--   Settled is about what becomes of one connection, Starved about epoll, Level and Drained about
--   kqueue.
-- - Config: MergeConfigs of config/config.go; Config/Merge is about the accounts.
-- The modules Runs apply theorems at concrete inputs.
--
-- Correspondence. Definitions have the names of the source's functions in snake case (`get`,
-- `add_node`, `encode_append`, `recover_shard`, `str_append`, …). A method on a shard's memory is
-- one step, but `Get` is two, since it deletes an expired key behind its lock: `get_read` and
-- `get_drop`, which `get` puts together; `TTL` deletes under the read lock, and is taken as one
-- step. Handlers run one after the other, so that nothing comes between the two, and read one
-- second of the clock throughout; of requests that run at the same time only the connections' steps
-- are modelled (Server/Connections). A panic ends the process. A connection's bytes come in chunks,
-- one for each arrival; a read returns bytes of the first chunk. The log of a shard manager is the
-- list of entries that its channels took; an entry is logged with the object as it is when it is
-- sent, while the code hands over a pointer and encodes it later. The map from hashes to ids is a
-- function; a file is the list of its bytes.
--
-- Parameters: the hash of keys (CRC-32), the marshalling of entries and the checksum of records
-- (`Codec`), encoding/json, the parsing of floats and truth values, float64 arithmetic, fmt's `%v`
-- and the decoding of UTF-8 (`Library`), the clock, the strict mode and whether the log's channel
-- takes an entry in time (`Env`), the decoding of requests, upper-casing and the text of sessions
-- and of the status (`Outside`), the kernel's queues of events (`EpollKernel`, `KqueueKernel`) and
-- unix.Accept, with laws of their manual pages.
--
-- Fuel: `search_loop` gets the length of the ring, and each round shortens the interval;
-- `read_records` gets one more than the length of the file, and each round but the last reads eight
-- bytes; `close_rounds` gets the length of the queue, and each round takes an entry; `digits` gets
-- one more than the number, and each round divides it by ten; `read_full_loop` and `read_exactly`
-- get the number of bytes to read, and each round reads one at least; `start_sync` gets any number
-- above that of the requests.
--
-- Not modelled: the system calls of sockets and of the multiplexer, and errors of a connection other
-- than its end; the thread manager's contexts; the reading of configuration files and flags;
-- logging and the command line; write errors of the log's file; the text of error messages; and
-- internal/store/ttl_manager.go, which is commented out.
pub mod Prelude
pub mod Store
pub mod Ring
pub mod Wal
pub mod Exec
pub mod Json
pub mod Shard
pub mod Command
pub mod Server
pub mod Config

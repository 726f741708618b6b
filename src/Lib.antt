-- ===== src/Lib.antt =====
-- A server of the Redis protocol, written in C++ on one thread: its codec, its keyspace with expiry
-- times, its string, key, list, hash, set and sorted set commands, its skip list, its append-only file,
-- its snapshot file, its connections and its restart.
--
-- The bytes of a connection reach `RespCodec::Feed`, which keeps what is incomplete in a buffer and
-- gives commands. A command is run by its handler on the keyspace, a `Dict` of objects, at the time
-- of the event loop; the reply is a text of the protocol. The server appends each write command to a
-- log; at its end it saves the keyspace as a snapshot, and at its start it loads the snapshot and runs
-- the commands of the log again.
--
-- The files and what they model:
--   * Base and its child modules: lists and integers over the native numbers, the wrap-around of
--     `int64_t` (`wrap`), texts as lists of byte codes, and `std::unordered_map` as a list of
--     entries (`find`, `put`, `erase`). C++ leaves the order of the entries open.
--   * Text: `std::strtoll` and `std::to_string` as the program uses them, and `ParseInt` of
--     src/command/string_cmd.cpp and src/command/list_cmd.cpp (`parse_int`).
--   * Resp: src/resp_codec.h and src/resp_codec.cpp. `feed` is `Feed` on `read_buf_`; `round` is a
--     round of its `while` loop, at a position that is given by the text behind it.
--   * Ds.LinkedList: the class `List` of src/ds/list.h and src/ds/list.cpp (`range` is `Range`).
--   * Ds.Double: the comparisons of `double`, on the 64 bits of its pattern. Ds.SkipList:
--     src/ds/skiplist.h and src/ds/skiplist.cpp. The `forward` pointers of each level are the chain of
--     the nodes that they lead through (`chains`), a node has the number of its allocation for an
--     address, and `update[i]` is a place beside the chain of its level (`search`). Queries
--     has `GetScore`, `GetRank` and the ranges. The other child modules prove: Chains, Levels and Search
--     find the places, Placed and Insert, TakenOut, Trimmed and Delete keep the levels, Valid is the
--     invariant, Kept is about `Insert` and `Delete` and Ranks about the queries.
--   * Object, Dict and Expire: src/object.h, src/common.h, src/dict.h and src/expire.cpp. An object
--     is reached by its key alone, so that a write through its pointer is `Dict.store`. Times are
--     nanoseconds in `int64_t`. `view` of Expire.View is what a client sees of
--     a key at a time. Expire.Periodic is `PeriodicCheck`.
--   * Command.Context: `CheckExpire` and the look-up by type of each command file. Handlers are
--     functions of the arguments, the time and the keyspace to the reply and the keyspace.
--   * Command.Strings, Command.Keys, Command.Lists, Command.Hashes, Command.Sets and
--     Command.SortedSets: the handlers of src/command/string_cmd.cpp, list_cmd.cpp, hash_cmd.cpp,
--     set_cmd.cpp and zset_cmd.cpp, `SetCmd` as `set_cmd` and so on. Command.Keys.Glob is `MatchGlob`
--     of KEYS. Command.WellFormed and its child modules follow a keyspace through every handler.
--   * Router: src/command/router.cpp, the registrations of the command files, the built-in commands of
--     src/server.cpp and the table that its constructor fills (`server_commands`).
--   * EventLoop: the table of src/event_loop.cpp, the calls of `epoll_ctl` and the events that are
--     dispatched, as the program is built on Linux; EventLoop.Told is about the calls.
--     EventLoop.Sockets has `SetNonBlocking` and `CreateListenSocket`.
--   * Server: `ProcessCommand`, the commands of `OnClientEvent` and `LoadPersistedData` of
--     src/server.cpp, on the keyspace, the router and the log (`RedisServer`). Recovery, Restart and
--     Packets are about them. Server.Lifecycle has the snapshot at the start and in `Stop`.
--   * Server.Host: the whole class `RedisServer` (`Host`): that data with the clients, the event loop
--     and the listening socket. A callback of the loop is a constructor, `accepts` for `OnAccept` and
--     `serves fd` for `OnClientEvent` of a socket; `call` runs it, and `on_client_event` is made of
--     `on_readable` (the reading), `answer` (what is behind it), `flush_write_buf` and `settle` (the
--     closing). Program has the constructor, `Init`, `Tick`, `PeriodicExpireCheck` and `Stop`. Flush
--     is about `FlushWriteBuf`; Sound, Tables, Keeps and Calls follow the table of the loop through
--     each callback; Reached has the steps of the program and the states that they reach; Keyspace
--     follows the keyspace through them, by Data, and Logged the log, by Writes, which has what a callback
--     has to log; Nearer, Drains and Delivered follow what a client waits for.
--   * Aof: src/storage/aof.cpp and `AppendToAof` of src/server.cpp; the file is the list of its bytes.
--   * Rdb: src/storage/rdb.cpp. `save` gives the bytes of the file and `load` reads any bytes, on a
--     stream that keeps what is left of the file and whether a read has failed (Rdb.Words). Numbers
--     stand in the file with their lowest byte first. Rdb.Reads, Rdb.RoundTrip and Rdb.Saved take a
--     saved file apart, Rdb.Rebuilt is about sorted sets, Rdb.Loaded about one key and
--     Rdb.Rounds about the loop of `Load`.
--   * Main: src/main.cpp. `main_loop` has the rounds that go by before a signal is seen. Main.Ends is
--     about what is left when `main` has ended, Main.Files about the snapshot until then, and
--     Main.Restarts about the run after it.
--   * Tests: the theorems at concrete inputs.
--
-- Bounds. `feed_loop` has a bound on its rounds, the length of the buffer: each round drops a byte,
-- and a larger bound gives the same result (Resp.Chunks). `glob_loop` has `glob_fuel` rounds, by the
-- lengths of the text and the pattern: the loop ends within them. `print_ℕ` has a digit more than
-- its number. `load` has a bound on the rounds of its loop, the length of the file: a round takes a
-- byte at least (Rdb.Rounds). `random_level` has the 31 rounds that `kMaxLevel` leaves. Where C++
-- leaves an overflow of `int64_t` undefined, `* 1000` in SET and the sums of times, the model wraps
-- around, and the theorems on times are under bounds that exclude it.
--
-- Parameters. What the random generator draws is an argument of `spop_cmd` and of
-- `periodic_check`, what the generator of a skip list gives is an argument of `insert` and of what
-- calls it (`Rolls`), and what `Clock::now()` gives is an argument of the handlers and of the server.
-- The draws of one SPOP are those of any other in a run, and so are what ZADD inserts with, where the
-- generators of the program go on; the theorems on whole runs are for each such function.
-- `std::strtod` and the writing of a `double` to a stream are a record of functions (`DoubleText`).
-- What `accept`, `recv`, `send`, `epoll_wait` and the clock give at each callback is a record of
-- functions (`System`), so that a client may send anything at any time; what `socket`, `bind` and
-- `listen` give is another (`Network`), and `std::atoi` is an argument of `main`.
--
-- Not modelled: `span`, `rank`, `backward` and `tail_` of the skip list, which nothing reads for a
-- result; the `select` branch of src/event_loop.cpp, which Linux does not compile; the handlers of the
-- signals in src/main.cpp, which only set a flag; src/ds/intset.h, which nothing uses; the failures of
-- the file system; the messages on the console; and the benchmark and the tests.
pub mod Base
pub mod Text
pub mod Resp
pub mod Ds
pub mod Object
pub mod Dict
pub mod Expire
pub mod Command
pub mod Router
pub mod Aof
pub mod Rdb
pub mod EventLoop
pub mod Server
pub mod Main
pub mod Tests

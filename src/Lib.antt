-- ===== src/Lib.antt =====
-- mini-kv-db-server: a key-value store with strings, lists and sets, expiry, a memory budget with
-- LRU eviction, an append-only log, replication and a thread pool.
--
-- The parts and the files that model them:
--
--   Prelude              numbers, lists, texts and integers that the parts share
--   Status               the status codes of include/kv.h
--   Env                  the test hooks of src/kv.c, and the outcomes of the library calls that may
--                        fail, one after the other; any sequence of outcomes is allowed
--   Key                  validate_key, validate_value, hash_key, copy_string_bounded of src/kv.c
--   Table                the hash table of src/kv.c: a list of chains with the counters beside it.
--                        Table.Ops has the lookup and deletion, Table.Resize kv_resize_unlocked,
--                        Table.Evict kv_evict_lru_unlocked of src/eviction.c, Table.Init the
--                        initialisation without a log, Table.Locks the choice of a key's lock. Table.Laws
--                        has the invariant IsValid and `view`, the map from keys to entries that a
--                        table stands for
--   World                the state that a command changes: table, log, replicas, environment
--   Aof                  the records of src/aof.c, the rewrite buffer of src/kv.c, and
--                        replication_broadcast of src/replication.c
--   Kv                   kv_set, kv_get, kv_delete, kv_exists of src/kv.c; its children relate them
--                        to the map and to the log
--   Payload, Lists, Sets the commands of src/list.c and src/set.c; Lists.Queue and Lists.Push relate the
--                        lists to queues
--   Ttl                  the expiry commands and the sweep of src/eviction.c
--   ThreadPool           src/thread_pool.c; ThreadPool.Fifo relates the ring buffer to a queue
--   CString              the string functions of the C library that the code calls
--   Replay               replay_aof_log of src/aof.c; Replay.Changes relates a log to the changes that its
--                        records stand for
--   Startup              kv_init_full of src/kv.c with a log, and the setters of a store; Startup.Outcome
--                        describes its results
--   Rewrite              kv_sync, kv_bgrewriteaof, kv_merge_aof_rewrite of src/aof.c; Rewrite.Merge relates
--                        the rewritten log to the table
--   Snapshot             the file of src/snapshot.c; Snapshot.Load reads it, and Snapshot.Load.Outcome
--                        says which commands that amounts to
--   Sync                 replication_handle_sync of src/replication.c; Sync.Stream the records that a
--                        replica reads
--   Protocol             protocol_execute_command of src/protocol.c: Protocol.Verbs its words,
--                        Protocol.Commands its commands
--   Server               client_handle_read of src/server.c; Server.Framing the requests it takes out
--   Tests                the theorems at concrete values
--
-- Commands take a world and return their result with the world after it. They hold their locks from
-- beginning to end, so a command is one step; the locks are not part of the state. The clock is an
-- argument. Pointers to keys and values are texts without a zero byte, or none for NULL; a store
-- pointer is never NULL. A pointer to an entry is its bucket and its place in the chain.
--
-- Bounds and fuel: `size_t` counters count what is on the heap and are unbounded numbers here, which
-- the commands narrow to `int` in their replies (Payload.to_int); times are integers, and arithmetic
-- on them that leaves `int64_t` is a result of its own. The LRU clock, the hash and the random
-- generator wrap around at their width. The loop of evictions has the number of entries as fuel, which
-- is enough since each round deletes one. The sampling loops have the bounds of the source. The
-- doublings of the rewrite buffer have the wanted size as fuel, and 20 digits print every 64-bit
-- number. The replay and the load of a snapshot have the length of the file as fuel, which is enough
-- since each round reads a byte; so has the stream of a replica.
--
-- Not modelled: the connection of a replica to its master, the rest of the server's event loop, the command
-- line and the benchmark, which are input and output.
pub mod Prelude
pub mod Status
pub mod Env
pub mod Key
pub mod Table
pub mod World
pub mod Aof
pub mod Kv
pub mod Payload
pub mod Lists
pub mod Sets
pub mod Ttl
pub mod ThreadPool
pub mod CString
pub mod Replay
pub mod Startup
pub mod Rewrite
pub mod Snapshot
pub mod Sync
pub mod Protocol
pub mod Server
pub mod Tests

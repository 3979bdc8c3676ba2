-- ===== src/Lib.antt =====
-- redistill: a verification library for the core of the redistill server, a cache that speaks the
-- Redis protocol. It models src/protocol.rs, src/store.rs, src/aof.rs, src/persistence.rs, src/config.rs,
-- the store of the library crate in src/lib.rs, and of src/main.rs and src/server.rs the command
-- execution, the connections, the listener, the start and the shutdown.
--
-- How the program works. A connection's bytes reach a `RespParser` (src/protocol.rs), which cuts
-- them into commands. `execute_command` (src/main.rs) hands a command to its handler; the handler
-- reads and writes the `ShardedStore` (src/store.rs), and appends its reply with a `RespWriter`. What
-- changes the store is appended to the log (src/aof.rs), and a snapshot of the store is saved from time
-- to time (src/persistence.rs); at startup the snapshot is loaded and the log replayed. The
-- store counts the sizes of its entries in MEMORY_USED, and writes make room with `evict_if_needed`
-- before they store.
--
-- The modules:
--   Resp: src/protocol.rs. Resp/Decimal has the numbers (`write_u64`, `parse_u64`, `parse_i64`),
--     Resp/Writer the `RespWriter`, Resp/Parser `try_parse` and Resp/Stream the read loop of
--     `parse_command`. A buffer is a list of octets. `try_parse` returns a frame with what is left
--     of the buffer, `more` for `Ok(None)` or `invalid` for `Err(())`. A stream is the list of what
--     its reads return, and a run that uses them up is still reading.
--   Queues: `S3FifoQueues` of src/store.rs. Queues/Fifo is a queue with its set, for the Small and
--     the Main queue; Queues/Ghost the Ghost queue.
--   Store: the rest of src/store.rs. Store/State has the state: the shards with their queues,
--     MEMORY_USED, EVICTED_KEYS, the count of random numbers drawn, and the clock. Store/Access has
--     what an access does beside the value, Store/Strings `set`, `get`, `key_type`, `delete` and
--     `exists`, Store/Hashes `hset`, `hget`, `hgetall` and `hdel`, Store/Evict the eviction and
--     `expire_random_keys`, Store/Scan `scan` and `matches_pattern`. Store/Laws and Store/Quiet are
--     lemmas on one step, and Store/Balance says what it means that the accounts are kept.
--     Store/View is the map from keys to values that the store stands for, with Store/View/Traces on
--     sequences of operations; Store/View/Tables is that map with the fields of a hash as a finite map
--     of its own, and Store/View/FieldSets and Store/View/Meaning lead from one to the other. Store/Dash is the interface of a shard and Store/Assoc a map that meets
--     it.
--   Commands: the handlers of src/main.rs, which take the store, the command, the reply buffer and
--     the time, and return the buffer and the store. Commands/Flush is the code of FLUSHDB and
--     FLUSHALL in `execute_command`. Commands/Run puts the commands and the background expiry in any
--     order, as the steps of one store, Commands/Balance has the accounts of each, and
--     Commands/Visible what clients see of the keys, which Commands/Promised puts on finite maps.
--   Aof: src/aof.rs. Aof/Policy is `FsyncPolicy`, Aof/Frame the records, Aof/Log the state with
--     `append`, `sync` and `should_rewrite`, Aof/Snapshot `write_store_snapshot` and Aof/Rewrite
--     `rewrite`, Aof/Reader `next_command`, and Aof/Replay the loop of `main` that replays a log.
--     Aof/RoundTrip reads whole records, Aof/Cut ones that were cut off, Aof/Progress is on the length
--     of what is left; Aof/History puts the operations in any order and Aof/Durable is on what is on
--     disk.
--   Persistence: src/persistence.rs. Persistence itself has `save_snapshot_sync`, Persistence/Load
--     `load_snapshot`, Persistence/Stream is on the entries of the file, Persistence/Restored on what
--     is brought back, and Persistence/RoundTrip on the two together.
--   Server: Server itself has what the connections share and what one keeps, Server/Words the names
--     of the commands, Server/Execute `execute_command` with a branch per command, Server/Auth
--     `handle_auth` and `check_rate_limit`, Server/Rate the latter in a row, Server/Info
--     `handle_info`, Server/Keyspace `keys` and `len` of the store, Server/Link the loop of
--     `handle_connection`, Server/Link/Stale the time that it gives to a command, and
--     Server/Startup what `main` does to bring the store back, with the tasks that commands spawn.
--     Server/Listener is the accept loop, and Server/Shutdown what `main` saves at the end.
--     Store/Buffers is the pool of reply buffers.
--   Config: src/config.rs. Config itself has the settings with their defaults, Config/Policy `from_str`
--     and `as_str` of `EvictionPolicy`, Config/Load `load` with the variables and `validate`,
--     Config/Numbers is on the numbers in variables, Config/Sound on what is loaded, Config/Effective
--     spells it field by field for Config/Reading, and Config/Opening
--     has `ShardedStore::new` of src/store.rs, which `main` calls with the settings.
--   Embedded: src/lib.rs. Embedded itself has the store of the library crate, Embedded/Settings its
--     settings, Embedded/Grouped is on `delete`, Embedded/Steps on each operation and the map that the
--     store stands for, and Embedded/Traces on this store beside that of the server.
--   Base: lists, octets, integers and tests over the native numbers. Examples: each result at work.
--
-- What stands outside the program is a parameter. `DashMap` is what the code relies on of a shard
-- of the crate `dashmap`: lookups after insertions and removals, and an iteration that lists each
-- key once. `HashMaps` is std's `HashMap` as far as its iteration goes: each pair once, in an order
-- of each map's own. `Env` adds the hash function of `ahash`, the numbers of `fastrand`, the settings and
-- the start time. `Bincode` is the encoding of a snapshot's entry, and `System` the process's
-- number, its uptime and the text of a float. The TOML parser with serde is the function
-- `from_toml`, `Floats` the floats that the capacities are computed with, `Unicode` what
-- `to_lowercase` does beyond ASCII, and `SegQueue` the queue of the pool of buffers. What the disk
-- answers is an argument of each operation that asks it: whether a write, a flush with its sync, a
-- rename or an open succeeds.
--
-- Bounds. u64 counters wrap around, as the atomics do, and so does the sum of an expiry (the release
-- profile does not check overflow). Sizes and lengths are usize, and are not wrapped: they are
-- bounded by the memory of the process. A number that `next_command` reads from a log is not: where it
-- exceeds the capacity that a `Vec` can have, the panic is the error `capacity_overflow`, and the process
-- ends. A capacity that a `Vec` can have is taken to be there: the abort of an allocator that has no more
-- memory is not modelled. The eviction loop has the 100 attempts of the source as its
-- bound, the sampling loops their counts. The loop of `matches_pattern` runs on fuel: a mismatch
-- moves the key's backup position on by one byte, and between two of them each round takes a byte of
-- the pattern, so there are at most as many rounds as the product of the two lengths, each increased
-- by one, and the fuel exceeds it. `None` stands for fuel that ran out. The replay of a log runs on fuel
-- that counts records; one more than the length of the file is enough, since each record has bytes.
--
-- Not modelled. An operation is one step: the locks of a shard and of its queues make it so for one
-- thread, and interleavings within an operation are left out, among them a write between the snapshot
-- and the rename of a rewrite. A hash's fields are stored in its entry, not behind a shared pointer;
-- nothing but its entry keeps that pointer between operations. TLS, the health endpoint, the sockets, the
-- banner and the draining of the connections at the shutdown, which goes by the clock, are left out.
pub mod Base
pub mod Resp
pub mod Queues
pub mod Store
pub mod Commands
pub mod Examples
pub mod Aof
pub mod Persistence
pub mod Server
pub mod Config
pub mod Embedded

-- ===== src/Store/State.antt =====
-- The state of src/store.rs: the shards with their queues, and the global counters. Beside it, what
-- the code reads and does not decide: the crates `dashmap`, `ahash` and `fastrand`, and the settings.
use redistill.Base.{ℕ, ◌+◌, ◌-◌, ◌%◌, ◌^◌, ◌<◌, ◌≡◌, Option, List, Bytes, length, get_or, set}
use redistill.Queues.Fifo.{Fifo}
use redistill.Queues.Ghost.{Ghost}
use redistill.Store.Dash.{DashMap}
use redistill.Store.Entry.{HashMaps, Entry}

pub data EvictionPolicy : Type 0 where
  no_eviction all_keys_lru all_keys_random all_keys_s3_fifo : EvictionPolicy

-- The settings of `CONFIG.memory` that the store reads.
pub record MemoryConfig : Type 0 where
  pub max_memory : ℕ
  pub eviction_policy : EvictionPolicy
  pub eviction_sample_size : ℕ

-- `fastrand n` is the n-th number that the generator draws, and `ahash` the hash of a key.
pub record Env : Type 1 where
  pub dash : DashMap Entry
  pub hash_maps : HashMaps
  pub ahash : Bytes → ℕ
  pub fastrand : ℕ → ℕ
  pub start_time : ℕ
  pub config : MemoryConfig

pub record S3FifoQueues : Type 0 where
  pub small_fifo : Fifo
  pub main_fifo : Fifo
  pub ghost : Ghost

-- `ShardedStore`, the counters MEMORY_USED and EVICTED_KEYS, how many random numbers were drawn, and
-- the clock in seconds.
pub record Store (E : Env) : Type 0 where
  pub shards : List E.dash.Shard
  pub s3fifo_queues : List S3FifoQueues
  pub num_shards : ℕ
  pub memory_used : ℕ
  pub evicted_keys : ℕ
  pub draws : ℕ
  pub clock : ℕ

-- `fetch_add` and `fetch_sub` of an `AtomicU64` wrap around.
abbrev pub fetch_add : ℕ → ℕ → ℕ
fetch_add a b = (a + b) % 2 ^ 64

abbrev pub fetch_sub : ℕ → ℕ → ℕ
fetch_sub a b = (a + 2 ^ 64 - b % 2 ^ 64) % 2 ^ 64

module _ (E : Env) where
  open E.dash use {Shard, get, insert, remove, iter}

  -- `ShardedStore::hash`
  unfoldable pub hash : Store E → Bytes → ℕ
  hash s key = E.ahash key % s.num_shards

  -- `&self.shards[self.hash(key)]`
  unfoldable pub shard_of : Store E → Bytes → Shard
  shard_of s key = get_or s.shards (hash s key) E.dash.empty

  -- `shard.get(key)`
  unfoldable pub find : Store E → Bytes → Option Entry
  find s key = get (shard_of s key) key

  -- `shard.insert(key, entry)`, and a write through `get_mut` or to an atomic field of an entry
  unfoldable pub put : Store E → Bytes → Entry → Store E
  put s key e = record s { shards = set s.shards (hash s key) (insert (shard_of s key) key e) }

  -- `shard.remove(key)`
  unfoldable pub drop_key : Store E → Bytes → Store E
  drop_key s key = record s { shards = set s.shards (hash s key) (remove (shard_of s key) key) }

  unfoldable pub sub_memory : Store E → ℕ → Store E
  sub_memory s size = record s { memory_used = fetch_sub s.memory_used size }

  unfoldable pub add_memory : Store E → ℕ → Store E
  add_memory s size = record s { memory_used = fetch_add s.memory_used size }

  -- the next number of the generator
  unfoldable pub draw : Store E → ℕ × Store E
  draw s = (E.fastrand s.draws, record s { draws = s.draws + 1 })

  -- `get_uptime_seconds`: a difference of u64, cast to u32
  unfoldable pub get_uptime_seconds : Store E → ℕ
  get_uptime_seconds s = fetch_sub s.clock E.start_time % 2 ^ 32

  -- There is a shard, with its queues, for every index that `hash` gives.
  pub record IsWf (s : Store E) : Type 0 where
    pub some_shard : 0 < s.num_shards
    pub shard_count : length s.shards ≡ s.num_shards
    pub queue_count : length s.s3fifo_queues ≡ s.num_shards

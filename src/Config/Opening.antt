-- ===== src/Config/Opening.antt =====
-- `ShardedStore::new` of src/store.rs, which `main` calls with the loaded settings, and the start of the
-- server from them.
use redistill.Base.{
  replicate, length-replicate, get_or-replicate, All-replicate, ℕ, zero, suc, ◌/◌, ◌%◌, ◌<◌, max,
  ◌≡◌, refl, ap, ◌∙◌, false, Option, none, [], arith, ltb, if◌then◌else◌, Bytes, All, lt→ltb,
}
use redistill.Config.{Text, Config}
use redistill.Config.Load.{Vars, File, ok, load}
use redistill.Config.Policy.{Unicode, from_str}
use redistill.Config.Sound.{load-base, validate-IsUsable}
use redistill.Queues.Fifo.{Fifo}
use redistill.Queues.Sync.{IsValid}
use redistill.Store.View.Traces.{Ascending}
use redistill.Commands.Visible.{Timeline}
use redistill.Commands.Promised.{AllMeet, run-AllMeet}
use redistill.Store.View.Meaning.{absent}
use redistill.Store.State
use redistill.Store.State.{Env, Store, IsWf, S3FifoQueues, find, shard_of}
use redistill.Store.Entry.{HashMaps, Entry, size_of}
use redistill.Store.Dash.{DashMap, total, lookup}
use redistill.Store.Laws.{total_size, sum_of}
use redistill.Store.Balance.{IsAccounted}
use redistill.Commands.Run.{Run, Run-IsAccounted}

-- f64, as the capacities use it: `as f64`, the two literals, the product, and `ceil` with `as usize`.
pub record Floats : Type 1 where
  pub Float : Type 0
  pub as_f64 : ℕ → Float
  pub one_tenth : Float
  pub nine_tenths : Float
  pub times : Float → Float → Float
  pub ceil_as_usize : Float → ℕ

unfoldable pub new_queue : ℕ → Fifo
new_queue capacity = record { queue = []; members = λ key. false; capacity = capacity }

-- `S3FifoQueues::new`
unfoldable pub new_queues : ℕ → ℕ → ℕ → S3FifoQueues
new_queues small_capacity main_capacity ghost_capacity = record {
  small_fifo = new_queue small_capacity;
  main_fifo = new_queue main_capacity;
  ghost = record { queue = []; hashes = λ h. false; capacity = ghost_capacity };
}

module _ (fl : Floats) where
  open fl use {as_f64, one_tenth, nine_tenths, times, ceil_as_usize}

  -- The capacities of the Small, the Main and the Ghost queue.
  unfoldable pub capacities : ℕ → ℕ → ℕ × (ℕ × ℕ)
  capacities max_memory num_shards =
      let estimated_entries = max (max_memory / num_shards / 256) 100 in
      let small_cap = ceil_as_usize (times (as_f64 estimated_entries) one_tenth) in
      let main_cap = ceil_as_usize (times (as_f64 estimated_entries) nine_tenths) in
      let ghost_cap = ceil_as_usize (times (as_f64 estimated_entries) one_tenth) in
      if ltb 0 max_memory
      then (max small_cap 10, (max main_cap 10, max ghost_cap 10))
      else (100, (900, 100))

  -- `ShardedStore::new`, with the statics as they are at the start.
  unfoldable pub new : (E : Env) → ℕ → ℕ → Store E
  new E num_shards clock =
      let (small_cap, (main_cap, ghost_cap)) = capacities E.config.max_memory num_shards in
      record {
        shards = replicate num_shards E.dash.empty;
        s3fifo_queues = replicate num_shards (new_queues small_cap main_cap ghost_cap);
        num_shards = num_shards;
        memory_used = 0;
        evicted_keys = 0;
        draws = 0;
        clock = clock;
      }

-- The store's surroundings, as the settings decide them: EVICTION_POLICY is parsed once.
unfoldable pub env_of :
    {F : Type 0} → Unicode → DashMap Entry → HashMaps → (Bytes → ℕ) → (ℕ → ℕ) → ℕ → Config F → Env
env_of unicode dash hash_maps ahash fastrand start_time c = record {
  dash = dash;
  hash_maps = hash_maps;
  ahash = ahash;
  fastrand = fastrand;
  start_time = start_time;
  config = record {
    max_memory = c.memory.max_memory;
    eviction_policy = from_str unicode c.memory.eviction_policy;
    eviction_sample_size = c.memory.eviction_sample_size;
  };
}

-- The Small and the Main queue are valid, and the Ghost queue has room.
pub record HasRoom (q : S3FifoQueues) : Type 0 where
  pub small_valid : IsValid q.small_fifo
  pub main_valid : IsValid q.main_fifo
  pub ghost_room : 0 < q.ghost.capacity

-- A store to start from: well-formed and empty, its queues ready, nothing accounted.
pub record IsReady (E : Env) (s : Store E) : Type 0 where
  pub wf : IsWf E s
  pub empty : (key : Bytes) → find E s key ≡ none
  pub right : IsAccounted E s
  pub rooms : All HasRoom s.s3fifo_queues

new_queue-IsValid : (capacity : ℕ) → 0 < capacity → IsValid (new_queue capacity)
unfolding new_queue
new_queue-IsValid capacity h = record {
  sync = record { agree = λ j. refl; distinct = tt };
  room = h;
  bounded = omega arith;
}

module _ (fl : Floats) (E : Env) where
  total_size_replicate :
      (n : ℕ) → sum_of (λ x. total size_of (E.dash.iter x)) (replicate n E.dash.empty) ≡ 0
  total_size_replicate zero = refl
  total_size_replicate (suc n) = rw (E.dash.iter-empty) (omega (arith, total_size_replicate n))

  capacities_pos :
      (m n : ℕ)
      → (0 < (capacities fl m n).0) × (0 < (capacities fl m n).1.0) × (0 < (capacities fl m n).1.1)
  unfolding capacities
  capacities_pos m n = ground arith

  pub new-IsReady : (num_shards clock : ℕ) → 0 < num_shards → IsReady E (new fl E num_shards clock)
  unfolding new find shard_of State.hash total_size new_queues
  new-IsReady num_shards clock h =
      let (small, main, ghost) = capacities_pos E.config.max_memory num_shards in
      record {
        wf = record {
          some_shard = h;
          shard_count = length-replicate num_shards _;
          queue_count = length-replicate num_shards _;
        };
        empty = λ key.
            ap (λ x. E.dash.get x key)
              (get_or-replicate num_shards (E.ahash key % num_shards) E.dash.empty)
            ∙ (E.dash.get-iter E.dash.empty key ∙ ap (lookup key) E.dash.iter-empty);
        right = rw (total_size_replicate num_shards);
        rooms = All-replicate HasRoom num_shards _ (record {
          small_valid = new_queue-IsValid _ small;
          main_valid = new_queue-IsValid _ main;
          ghost_room = ghost;
        });
      }

-- A server that starts with loaded settings and a memory limit is right from the start on: in the
-- store that ShardedStore::new makes for them, and along any commands and rounds of the background
-- expiry behind it, the store is well-formed and MEMORY_USED is the sum of the entries' sizes, as a
-- u64. The commands have no FLUSHDB, no FLUSHALL, and no HDEL that takes the last field of a hash.
pub load-new-IsAccounted :
    {F : Type 0} (fl : Floats) (unicode : Unicode) (dash : DashMap Entry) (hash_maps : HashMaps)
    (ahash : Bytes → ℕ) (fastrand : ℕ → ℕ) (start_time clock : ℕ) (tenth : F)
    (from_toml : Text → Option (Config F)) (vars : Vars) (files : Text → File) (c : Config F)
    {t : Store (env_of unicode dash hash_maps ahash fastrand start_time c)}
    → load tenth from_toml vars files ≡ ok c
    → 0 < c.memory.max_memory
    → Run
        (env_of unicode dash hash_maps ahash fastrand start_time c)
        (new fl
          (env_of unicode dash hash_maps ahash fastrand start_time c)
          c.server.num_shards
          clock)
        t
    → IsWf (env_of unicode dash hash_maps ahash fastrand start_time c) t
      × IsAccounted (env_of unicode dash hash_maps ahash fastrand start_time c) t
unfolding env_of
load-new-IsAccounted fl unicode dash hash_maps ahash fastrand start_time clock tenth from_toml vars
      files c e m run =
    let E = env_of unicode dash hash_maps ahash fastrand start_time c in
    let (base, read, same, valid) = load-base tenth from_toml vars files c e in
    let ready = new-IsReady fl E c.server.num_shards clock (validate-IsUsable c valid).some_shard in
    Run-IsAccounted E (lt→ltb 0 c.memory.max_memory m) run ready.wf ready.right

-- A server that starts with loaded settings is the empty map: any sequence of set, get, key_type,
-- delete, exists, hset, hget, hgetall and hdel, and of TTL, PTTL, EXPIRE and PERSIST on their
-- parsed arguments, at times that do not decrease, on the store that ShardedStore::new makes for
-- the settings, gets the answers that it gets from the map without keys, whose hashes are finite
-- maps of fields; hgetall lists each field with its value once, in whatever order.
pub load-new-AllMeet :
    {F : Type 0} (fl : Floats) (unicode : Unicode) (dash : DashMap Entry) (hash_maps : HashMaps)
    (ahash : Bytes → ℕ) (fastrand : ℕ → ℕ) (start_time clock : ℕ) (tenth : F)
    (from_toml : Text → Option (Config F)) (vars : Vars) (files : Text → File) (c : Config F)
    (commands : Timeline)
    → load tenth from_toml vars files ≡ ok c
    → Ascending 0 commands
    → AllMeet
        (env_of unicode dash hash_maps ahash fastrand start_time c)
        (new fl
          (env_of unicode dash hash_maps ahash fastrand start_time c)
          c.server.num_shards
          clock)
        (λ key. none)
        commands
load-new-AllMeet fl unicode dash hash_maps ahash fastrand start_time clock tenth from_toml vars
      files c commands e up =
    let E = env_of unicode dash hash_maps ahash fastrand start_time c in
    let (base, read, same, valid) = load-base tenth from_toml vars files c e in
    let ready = new-IsReady fl E c.server.num_shards clock (validate-IsUsable c valid).some_shard in
    run-AllMeet E 0 (new fl E c.server.num_shards clock) (λ key. none) (λ key. none) commands
      (record { wf = ready.wf; same = λ j later h. rw (ready.empty j) }) (λ key. absent) up

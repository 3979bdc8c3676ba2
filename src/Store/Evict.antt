-- ===== src/Store/Evict.antt =====
-- Eviction and the background expiry of src/store.rs. A random number below a bound is a number drawn
-- from `fastrand`, taken modulo the bound.
pub mod Balance
pub mod Removal
pub mod Expiry
use redistill.Base.{
  ℕ, zero, suc, ◌+◌, ◌%◌, ◌^◌, Bool, true, false, ◌||◌, Option, none, some, List, [], ◌∷◌, ltb, leb,
  ◌==◌, if◌then◌else◌, Bytes, length, get_elem?, get_or, set,
}
use redistill.Queues.Fifo.{pop_front}
use redistill.Queues.Ghost.{add_to_ghost}
use redistill.Store.Entry.{Entry, is_expired, calculate_entry_size}
use redistill.Store.State.{
  Env, Store, S3FifoQueues, EvictionPolicy, no_eviction, all_keys_lru, all_keys_random,
  all_keys_s3_fifo, sub_memory, draw, fetch_add,
}
use redistill.Store.Access.{no_queues}

-- A sampled key: its shard and when it was last accessed.
pub record Sampled : Type 0 where
  pub key : Bytes
  pub time : ℕ
  pub shard_idx : ℕ

-- The sampled entry replaces the oldest one so far if it is older, or the first.
unfoldable pub older : Option Sampled → ℕ → Bytes × Entry → Option Sampled
older none idx (key, e) = some (record { key = key; time = e.last_accessed; shard_idx = idx })
older (some o) idx (key, e) =
    if ltb e.last_accessed o.time
    then some (record { key = key; time = e.last_accessed; shard_idx = idx })
    else some o

unfoldable pub pick : Option Sampled → ℕ → Option (Bytes × Entry) → Option Sampled
pick oldest idx none = oldest
pick oldest idx (some entry) = older oldest idx entry

unfoldable pub pop_main : S3FifoQueues → Option Bytes × S3FifoQueues
pop_main q = let (key, f) = pop_front q.main_fifo in (key, record q { main_fifo = f })

abbrev pub max_attempts : ℕ
max_attempts = 100

unfoldable pub is_no_eviction : EvictionPolicy → Bool
is_no_eviction no_eviction = true
is_no_eviction _ = false

module _ (E : Env) where
  open E.dash use {Shard, get, remove, iter}

  unfoldable pub shard_at : Store E → ℕ → Shard
  shard_at s i = get_or s.shards i E.dash.empty

  unfoldable pub find_at : Store E → ℕ → Bytes → Option Entry
  find_at s i key = get (shard_at s i) key

  unfoldable pub drop_at : Store E → ℕ → Bytes → Store E
  drop_at s i key = record s { shards = set s.shards i (remove (shard_at s i) key) }

  -- `fastrand::usize(..n)`
  unfoldable pub draw_below : Store E → ℕ → ℕ × Store E
  draw_below s n = let (r, s') = draw E s in (r % n, s')

  -- `shard.remove(&key)`, and what it frees
  unfoldable pub evict_key : Store E → ℕ → Bytes → ℕ × Store E
  evict_key s i key = elim (find_at s i key) [
    | none ↦ (0, s)
    | some e ↦
        let size = calculate_entry_size (length key) e.value in
        (
          size,
          record (sub_memory E (drop_at s i key) size) {
            evicted_keys = fetch_add s.evicted_keys 1;
          },
        )
  ]

  -- One round of the sampling loop.
  unfoldable pub sample_round : Store E → Option Sampled → Option Sampled × Store E
  sample_round s oldest =
      let (idx, s1) = draw_below s s.num_shards in
      let entries = iter (shard_at s1 idx) in
      if length entries == 0
      then (oldest, s1)
      else (let (skip, s2) = draw_below s1 (length entries) in
          (pick oldest idx (get_elem? entries skip), s2))

  unfoldable pub sample : ℕ → Store E → Option Sampled → Option Sampled × Store E
  sample zero s oldest = (oldest, s)
  sample (suc n) s oldest = let (o, s1) = sample_round s oldest in sample n s1 o

  unfoldable pub evict_sampled : Store E → Option Sampled → ℕ × Store E
  evict_sampled s none = (0, s)
  evict_sampled s (some o) = evict_key s o.shard_idx o.key

  unfoldable pub evict_lru : Store E → ℕ × Store E
  evict_lru s =
      let (oldest, s1) = sample E.config.eviction_sample_size s none in evict_sampled s1 oldest

  unfoldable pub evict_entry : Store E → ℕ → Option (Bytes × Entry) → ℕ × Store E
  evict_entry s idx none = (0, s)
  evict_entry s idx (some (key, e)) = evict_key s idx key

  unfoldable pub evict_random : Store E → ℕ × Store E
  evict_random s =
      let (idx, s1) = draw_below s s.num_shards in
      let entries = iter (shard_at s1 idx) in
      if length entries == 0
      then (0, s1)
      else (let (skip, s2) = draw_below s1 (length entries) in
          evict_entry s2 idx (get_elem? entries skip))

  -- A key from the front of the Small queue, which the Ghost queue then remembers, or else from the
  -- front of the Main queue.
  unfoldable pub pop_small : S3FifoQueues → ℕ → Option Bytes × S3FifoQueues
  pop_small q now = elim ((pop_front q.small_fifo).0) [
    | none ↦ pop_main q
    | some key ↦ (
      some key,
      record q {
        small_fifo = (pop_front q.small_fifo).1;
        ghost = add_to_ghost q.ghost (E.ahash key) now;
      },
    )
  ]

  unfoldable pub evict_popped : Store E → ℕ → Option Bytes → ℕ × Store E
  evict_popped s idx none = (0, s)
  evict_popped s idx (some key) = evict_key s idx key

  -- One round: a random shard. An entry counts for 64 bytes and more, so 0 says that none was evicted.
  unfoldable pub s3fifo_round : Store E → ℕ × Store E
  s3fifo_round s =
      let (idx, s1) = draw_below s s.num_shards in
      let (key, q) = pop_small (get_or s1.s3fifo_queues idx no_queues) s1.clock in
      evict_popped (record s1 { s3fifo_queues = set s1.s3fifo_queues idx q }) idx key

  unfoldable pub s3fifo_rounds : ℕ → Store E → ℕ × Store E
  s3fifo_rounds zero s = (0, s)
  s3fifo_rounds (suc n) s =
      let (size, s1) = s3fifo_round s in
      let rest = s3fifo_rounds n s1 in if size == 0 then rest else (size, s1)

  unfoldable pub evict_s3fifo : Store E → ℕ × Store E
  evict_s3fifo s = s3fifo_rounds s.num_shards s

  unfoldable pub evict_by : EvictionPolicy → Store E → ℕ × Store E
  evict_by no_eviction s = (0, s)
  evict_by all_keys_lru s = evict_lru s
  evict_by all_keys_random s = evict_random s
  evict_by all_keys_s3_fifo s = evict_s3fifo s

  -- `while freed < needed_size && attempts < max_attempts`, with the attempts that are left
  unfoldable pub evict_loop : ℕ → Store E → ℕ → ℕ → Store E
  evict_loop zero s needed freed = s
  evict_loop (suc attempts) s needed freed =
      let (evicted, s1) = evict_by E.config.eviction_policy s in
      let rest = evict_loop attempts s1 needed (freed + evicted) in
      if ltb freed needed then (if evicted == 0 then s1 else rest) else s

  -- `MEMORY_USED + needed_size <= max_memory`, in u64
  unfoldable pub fits : Store E → ℕ → Bool
  fits s needed = leb ((s.memory_used + needed) % 2 ^ 64) E.config.max_memory

  unfoldable pub evict_if_needed : Store E → ℕ → Bool × Store E
  evict_if_needed s needed =
      let s1 = evict_loop max_attempts s needed 0 in
      if E.config.max_memory == 0
      then (true, s)
      else if fits s needed
      then (true, s)
      else if is_no_eviction E.config.eviction_policy
      then (false, s)
      else (fits s1 needed, s1)

  -- One round of `expire_random_keys`: `remove_if` finds the sampled entry expired still.
  unfoldable pub expire_entry : Store E → ℕ → ℕ → Option (Bytes × Entry) → ℕ × Store E
  expire_entry s idx now none = (0, s)
  expire_entry s idx now (some (key, e)) =
      if is_expired now e.expiry
      then (elim (find_at s idx key) [
        | none ↦ (0, s)
        | some removed ↦
            if is_expired now removed.expiry
            then (
              1,
              if ltb 0 E.config.max_memory
                  then sub_memory E (drop_at s idx key)
                      (calculate_entry_size (length key) removed.value)
                  else drop_at s idx key,
            )
            else (0, s)
      ])
      else (0, s)

  unfoldable pub expire_round : Store E → ℕ → ℕ × Store E
  expire_round s now =
      let (idx, s1) = draw_below s s.num_shards in
      let entries = iter (shard_at s1 idx) in
      if length entries == 0
      then (0, s1)
      else (let (skip, s2) = draw_below s1 (length entries) in
          expire_entry s2 idx now (get_elem? entries skip))

  unfoldable pub expire_rounds : ℕ → Store E → ℕ → ℕ → ℕ × Store E
  expire_rounds zero s now expired_count = (expired_count, s)
  expire_rounds (suc count) s now expired_count =
      let (n, s1) = expire_round s now in expire_rounds count s1 now (expired_count + n)

  unfoldable pub expire_random_keys : Store E → ℕ → ℕ × Store E
  expire_random_keys s count = expire_rounds count s s.clock 0

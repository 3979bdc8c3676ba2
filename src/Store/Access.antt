-- ===== src/Store/Access.antt =====
-- What src/store.rs does on an access beside the value: the S3-FIFO queues, the access time, and the
-- removal of an entry that has expired.
use redistill.Base.{
  ℕ, ◌+◌, ◌%◌, ◌^◌, Bool, true, false, none, some, [], ltb, ◌==◌, if◌then◌else◌, Bytes, length,
  get_or, set,
}
use redistill.Queues.Fifo.{Fifo, remove_from, add_to, reinsert_tail}
use redistill.Queues.Ghost.{is_in_ghost, remove_from_ghost}
use redistill.Store.Entry.{
  Entry, QueueType, small, main, as_u8, queue_type_from, is_expired, calculate_entry_size,
}
use redistill.Store.State.{
  Env, Store, S3FifoQueues, EvictionPolicy, all_keys_s3_fifo, hash, find, put, drop_key, sub_memory,
  draw, get_uptime_seconds,
}

abbrev no_fifo : Fifo
no_fifo = record { queue = []; members = λ k. false; capacity = 0 }

-- Stands for a queue index out of range, which panics in the source.
abbrev pub no_queues : S3FifoQueues
no_queues = record {
  small_fifo = no_fifo;
  main_fifo = no_fifo;
  ghost = record { queue = []; hashes = λ h. false; capacity = 0 };
}

unfoldable pub is_s3fifo : EvictionPolicy → Bool
is_s3fifo all_keys_s3_fifo = true
is_s3fifo _ = false

-- Leave the queue that the entry is marked with.
unfoldable pub leave : QueueType → Bytes → S3FifoQueues → S3FifoQueues
leave small key q = record q { small_fifo = (remove_from q.small_fifo key).0 }
leave main key q = record q { main_fifo = (remove_from q.main_fifo key).0 }

-- A key that the Ghost queue remembers joins the Main queue, any other the Small queue.
unfoldable pub join : ℕ → Bytes → S3FifoQueues → QueueType × S3FifoQueues
join key_hash key q =
    if is_in_ghost q.ghost key_hash
    then (
      main,
      record q { ghost = remove_from_ghost q.ghost key_hash; main_fifo = add_to q.main_fifo key },
    )
    else (small, record q { small_fifo = add_to q.small_fifo key })

-- From the Small to the Main queue.
unfoldable pub promote : Bytes → S3FifoQueues → S3FifoQueues
promote key q = record q {
  small_fifo = (remove_from q.small_fifo key).0;
  main_fifo = add_to q.main_fifo key;
}

unfoldable pub reinsert : Bytes → S3FifoQueues → S3FifoQueues
reinsert key q = record q { main_fifo = reinsert_tail q.main_fifo key }

module _ (E : Env) where
  unfoldable pub queues_of : Store E → Bytes → S3FifoQueues
  queues_of s key = get_or s.s3fifo_queues (hash E s key) no_queues

  unfoldable pub set_queues : Store E → Bytes → S3FifoQueues → Store E
  set_queues s key q = record s { s3fifo_queues = set s.s3fifo_queues (hash E s key) q }

  -- `fastrand::u32(..).is_multiple_of(10)`
  unfoldable pub one_in_ten : Store E → Bool × Store E
  one_in_ten s = let (r, s') = draw E s in (r % 2 ^ 32 % 10 == 0, s')

  -- The access time of a new entry.
  unfoldable pub first_access : Store E → ℕ × Store E
  first_access s = let (hit, s') = one_in_ten s in (if hit then get_uptime_seconds E s' else 0, s')

  -- `maybe_update_access_time`
  unfoldable pub maybe_update_access_time : Store E → Entry → Entry × Store E
  maybe_update_access_time s e =
      let (hit, s') = one_in_ten s in
      (if hit then record e { last_accessed = get_uptime_seconds E s' } else e, s')

  -- `shard.remove_if(key, expired)`, and what it frees
  unfoldable pub expire_key : Store E → Bytes → ℕ → Store E
  expire_key s key now = elim (find E s key) [
    | none ↦ s
    | some e ↦
        if is_expired now e.expiry
        then (if ltb 0 E.config.max_memory
            then sub_memory E (drop_key E s key) (calculate_entry_size (length key) e.value)
            else drop_key E s key)
        else s
  ]

  -- The old entry of the key, if there is one, leaves its queue.
  unfoldable pub leave_queue : Store E → Bytes → Store E
  leave_queue s key =
      if is_s3fifo E.config.eviction_policy
      then (elim (find E s key) [
        | none ↦ s
        | some old ↦ set_queues s key (leave (queue_type_from old.queue_type) key (queues_of s key))
      ])
      else s

  -- The queue of a new entry.
  unfoldable pub join_queue : Store E → Bytes → ℕ × Store E
  join_queue s key =
      if is_s3fifo E.config.eviction_policy
      then (let (qt, q) = join (E.ahash key) key (queues_of s key) in
          (as_u8 qt, set_queues s key q))
      else (0, s)

  -- An access to an entry of the Small queue: its counter is a u8.
  unfoldable pub access_small : Store E → Bytes → Entry → Entry × Store E
  access_small s key e =
      let count = (e.access_count + 1) % 256 in
      if ltb 1 count
      then (
        record e { access_count = count; queue_type = as_u8 main },
        set_queues s key (promote key (queues_of s key)),
      )
      else (record e { access_count = count }, s)

  unfoldable pub access_main : Store E → Bytes → Entry → Entry × Store E
  access_main s key e = (e, set_queues s key (reinsert key (queues_of s key)))

  unfoldable pub access_in : QueueType → Store E → Bytes → Entry → Entry × Store E
  access_in small s key e = access_small s key e
  access_in main s key e = access_main s key e

  -- What `get`, `hget` and `hgetall` do to an entry that they find: its access time, and its queue.
  unfoldable pub track_access : Store E → Bytes → Entry → Store E
  track_access s key e =
      let (e1, s1) = maybe_update_access_time s e in
      if is_s3fifo E.config.eviction_policy
      then (let (e2, s2) = access_in (queue_type_from e1.queue_type) s1 key e1 in put E s2 key e2)
      else put E s1 key e1

-- ===== src/Store/Hashes.antt =====
-- `hset`, `hget`, `hgetall` and `hdel` of `ShardedStore` in src/store.rs. The fields stand in the entry:
-- what the source writes through the shared pointer is a `put` of the entry with the new fields.
pub mod Balance
pub mod Shrink
use redistill.Base.{
  ℕ, ◌+◌, ◌-◌, Bool, true, false, Option, none, some, List, [], ◌∷◌, ltb, leb, ◌==◌, if◌then◌else◌,
  Bytes, length,
}
use redistill.Store.Entry.{
  Entry, EntryValue, string, hash, Fields, is_expired, calculate_entry_size, field_get,
  field_insert, field_remove,
}
use redistill.Store.State.{Env, Store, find, put, drop_key, sub_memory, add_memory}
use redistill.Store.Access.{expire_key, leave_queue, join_queue, first_access, track_access}

-- `Result<A, &'static str>`, whose only error is WRONGTYPE.
pub data Reply {ℓ} (A : Type ℓ) : Type ℓ where
  ok : A → Reply A
  wrong_type : Reply A

-- the loop `if map.insert(field, value).is_none() { new_count += 1 }`
unfoldable pub insert_fields : Fields → Fields → ℕ → ℕ × Fields
insert_fields [] map new_count = (new_count, map)
insert_fields ((f, v) ∷ fields) map new_count =
    insert_fields fields (field_insert f v map)
      (elim (field_get f map) [ none ↦ new_count + 1 | some old ↦ new_count ])

-- the loop `if map.remove(field).is_some() { removed += 1 }`
unfoldable pub remove_fields : List Bytes → Fields → ℕ → ℕ × Fields
remove_fields [] map removed = (removed, map)
remove_fields (f ∷ fields) map removed =
    remove_fields fields (field_remove f map)
      (elim (field_get f map) [ none ↦ removed | some old ↦ removed + 1 ])

-- the reply of HGETALL on the pairs in the order of the iteration: field, value, field, value, …
unfoldable pub flatten_fields : Fields → List Bytes
flatten_fields [] = []
flatten_fields ((k, v) ∷ map) = k ∷ v ∷ flatten_fields map

unfoldable pub is_empty : Fields → Bool
is_empty [] = true
is_empty (x ∷ map) = false

unfoldable pub is_empty_hash : EntryValue → Bool
unfolding is_empty
is_empty_hash (string bytes) = false
is_empty_hash (hash map) = is_empty map

module _ (E : Env) where
  -- MEMORY_USED, in one step
  unfoldable pub settle : Store E → Option ℕ → ℕ → Store E
  settle s none new_size = if ltb 0 E.config.max_memory then add_memory E s new_size else s
  settle s (some old_size) new_size =
      if ltb 0 E.config.max_memory
      then (if leb old_size new_size
          then add_memory E s (new_size - old_size)
          else sub_memory E s (old_size - new_size))
      else s

  -- The fields are set in the map of the entry `e`, which is in the store.
  unfoldable pub fill_hash : Store E → Bytes → Entry → Fields → Option ℕ → Fields → ℕ × Store E
  fill_hash s key e map old_size fields =
      let (new_count, map') = insert_fields fields map 0 in
      (
        new_count,
        settle (put E s key (record e { value = hash map' })) old_size
            (calculate_entry_size (length key) (hash map')),
      )

  abbrev pub new_hash : ℕ → ℕ → Entry
  new_hash timestamp queue_type = record {
    value = hash [];
    expiry = none;
    last_accessed = timestamp;
    queue_type = queue_type;
    access_count = 0;
  }

  -- `Entry::Vacant`
  unfoldable pub hset_vacant : Store E → Bytes → ℕ → Fields → ℕ × Store E
  hset_vacant s key timestamp fields =
      let (queue_type, s1) = join_queue E s key in
      let e = new_hash timestamp queue_type in fill_hash (put E s1 key e) key e [] none fields

  -- An expired entry leaves its queue and the shard; the next round of the loop finds the key vacant.
  unfoldable pub hset_expired : Store E → Bytes → Entry → Store E
  hset_expired s key e =
      let s1 = drop_key E (leave_queue E s key) key in
      if ltb 0 E.config.max_memory
      then sub_memory E s1 (calculate_entry_size (length key) e.value)
      else s1

  unfoldable pub hset_occupied : EntryValue → Store E → Bytes → Entry → Fields → Reply ℕ × Store E
  hset_occupied (string bytes) s key e fields = (wrong_type, s)
  hset_occupied (hash map) s key e fields =
      let (n, s') =
        fill_hash s key e map (some (calculate_entry_size (length key) (hash map))) fields in
      (ok n, s')

  unfoldable pub hset : Store E → Bytes → Fields → ℕ → Reply ℕ × Store E
  hset s key fields now =
      let (timestamp, s1) = first_access E s in
      elim (find E s1 key) [
        | none ↦ (let (n, s') = hset_vacant s1 key timestamp fields in (ok n, s'))
        | some e ↦
            if is_expired now e.expiry
            then (let (n, s') = hset_vacant (hset_expired s1 key e) key timestamp fields in
                (ok n, s'))
            else hset_occupied e.value s1 key e fields
      ]

  unfoldable pub field_of : Bytes → EntryValue → Reply (Option Bytes)
  field_of field (string bytes) = wrong_type
  field_of field (hash map) = ok (field_get field map)

  unfoldable pub hget : Store E → Bytes → Bytes → ℕ → Reply (Option Bytes) × Store E
  hget s key field now = elim (find E s key) [
    | none ↦ (ok none, s)
    | some e ↦
        if is_expired now e.expiry
        then (ok none, expire_key E s key now)
        else (field_of field e.value, track_access E s key e)
  ]

  unfoldable pub all_fields : Bytes → ℕ → EntryValue → Reply (List Bytes)
  all_fields key now (string bytes) = wrong_type
  all_fields key now (hash map) = ok (flatten_fields (E.hash_maps.order key now map))

  unfoldable pub hgetall : Store E → Bytes → ℕ → Reply (List Bytes) × Store E
  hgetall s key now = elim (find E s key) [
    | none ↦ (ok [], s)
    | some e ↦
        if is_expired now e.expiry
        then (ok [], expire_key E s key now)
        else (all_fields key now e.value, track_access E s key e)
  ]

  -- `remove_if` found the hash repopulated: the fields that went are still accounted for.
  unfoldable pub repopulated : Store E → Bytes → ℕ → Store E
  repopulated s key old_size =
      let empty_overhead = length key + 64 + 128 in
      if ltb 0 E.config.max_memory
      then (if ltb empty_overhead old_size then sub_memory E s (old_size - empty_overhead) else s)
      else s

  -- The hash is empty: `remove_if` drops the key if the hash is empty still, and the entry that it
  -- returns is the emptied one.
  unfoldable pub drop_empty : Store E → Bytes → ℕ → Store E
  drop_empty s key old_size = elim (find E s key) [
    | none ↦ repopulated s key old_size
    | some e ↦
        if is_empty_hash e.value
        then (if ltb 0 E.config.max_memory
            then sub_memory E (drop_key E s key) (calculate_entry_size (length key) e.value)
            else drop_key E s key)
        else repopulated s key old_size
  ]

  -- Fields are left: the difference of the sizes is freed.
  unfoldable pub shrink : Store E → Bytes → ℕ → ℕ → Store E
  shrink s key old_size new_size =
      if ltb 0 E.config.max_memory
      then (if ltb new_size old_size then sub_memory E s (old_size - new_size) else s)
      else s

  unfoldable pub hdel_in : EntryValue → Store E → Bytes → Entry → List Bytes → Reply ℕ × Store E
  hdel_in (string bytes) s key e fields = (wrong_type, s)
  hdel_in (hash map) s key e fields =
      let (removed, map') = remove_fields fields map 0 in
      let old_size = calculate_entry_size (length key) (hash map) in
      let s1 = put E s key (record e { value = hash map' }) in
      (
        ok removed,
        if ltb 0 removed
            then (if is_empty map'
                then drop_empty s1 key old_size
                else shrink s1 key old_size (calculate_entry_size (length key) (hash map')))
            else s1,
      )

  unfoldable pub hdel : Store E → Bytes → List Bytes → ℕ → Reply ℕ × Store E
  hdel s key fields now = elim (find E s key) [
    | none ↦ (ok 0, s)
    | some e ↦
        if is_expired now e.expiry
        then (ok 0, expire_key E s key now)
        else hdel_in e.value s key e fields
  ]

-- ===== src/Embedded.antt =====
-- The store of the library crate, src/lib.rs: the `ShardedStore` without accounts, queues and eviction.
-- `Entry` and `EntryValue` are declared there as in src/store.rs.
use redistill.Base.{
  ℕ, zero, suc, ◌+◌, ◌-◌, ◌*◌, ◌/◌, ◌%◌, ◌^◌, ◌≤◌, ◌<◌, min, max, ◌≡◌, refl, sym, ap, ◌∙◌, ◌≢◌, ◌↔◌,
  ◌⊎◌, inl, inr, Bool, true, false, ◌&&◌, ◌||◌, not, Option, none, some, List, [], ◌∷◌, ◌++◌,
  append_assoc, append-nil, arith, ltb, leb, ◌==◌, if◌then◌else◌, Bytes, codes, beq, length, take,
  drop, All, length-append, take-append, Bool-cases, Option-cases, le→ltb, lt→ltb, beq_iff,
  beq_refl, get_or, set as list_set, replicate,
}
pub mod Grouped
pub mod Settings
pub mod Traces
pub mod Steps
use redistill.Store.Dash.{DashMap}
use redistill.Store.Entry.{HashMaps, Entry, EntryValue, string, hash, Fields, is_expired, field_get}
use redistill.Store.Strings.{expiry_of, KeyType, no_key, string_key, hash_key}
use redistill.Store.Hashes.{
  Reply, ok, wrong_type, insert_fields, remove_fields, flatten_fields, is_empty,
}

-- The crates `dashmap` and `ahash`.
pub record Crates : Type 1 where
  pub dash : DashMap Entry
  pub hash_maps : HashMaps
  pub ahash : Bytes → ℕ

pub record ShardedStore (C : Crates) : Type 0 where
  pub shards : List C.dash.Shard
  pub num_shards : ℕ

abbrev pub new_entry : EntryValue → Option ℕ → Entry
new_entry value expiry = record {
  value = value;
  expiry = expiry;
  last_accessed = 0;
  queue_type = 0;
  access_count = 0;
}

module _ (C : Crates) where
  unfoldable pub new : ℕ → ShardedStore C
  new num_shards = record { shards = replicate num_shards C.dash.empty; num_shards = num_shards }

  unfoldable pub shard_index : ShardedStore C → Bytes → ℕ
  shard_index s key = C.ahash key % s.num_shards

  unfoldable pub shard_of : ShardedStore C → Bytes → C.dash.Shard
  shard_of s key = get_or s.shards (shard_index s key) C.dash.empty

  unfoldable pub find : ShardedStore C → Bytes → Option Entry
  find s key = C.dash.get (shard_of s key) key

  unfoldable pub put : ShardedStore C → Bytes → Entry → ShardedStore C
  put s key e = record s {
    shards = list_set s.shards (shard_index s key) (C.dash.insert (shard_of s key) key e);
  }

  unfoldable pub drop_key : ShardedStore C → Bytes → ShardedStore C
  drop_key s key = record s {
    shards = list_set s.shards (shard_index s key) (C.dash.remove (shard_of s key) key);
  }

  unfoldable pub set : ShardedStore C → Bytes → Bytes → Option ℕ → ℕ → ShardedStore C
  set s key value ttl now = put s key (new_entry (string value) (expiry_of ttl now))

  -- A hash is no string: the answer is `None`, as for a missing key.
  unfoldable pub get_value : EntryValue → Option Bytes
  get_value (string val) = some val
  get_value (hash fields) = none

  unfoldable pub get : ShardedStore C → Bytes → ℕ → Option Bytes × ShardedStore C
  get s key now = elim (find s key) [
    | none ↦ (none, s)
    | some e ↦ if is_expired now e.expiry then (none, drop_key s key) else (get_value e.value, s)
  ]

  unfoldable pub type_name : EntryValue → KeyType
  type_name (string val) = string_key
  type_name (hash fields) = hash_key

  unfoldable pub key_type : ShardedStore C → Bytes → ℕ → KeyType × ShardedStore C
  key_type s key now = elim (find s key) [
    | none ↦ (no_key, s)
    | some e ↦ if is_expired now e.expiry then (no_key, drop_key s key) else (type_name e.value, s)
  ]

  -- `shard_keys[self.hash(key)].push(key)`
  unfoldable pub push_key : List (List Bytes) → ℕ → Bytes → List (List Bytes)
  push_key groups i key = list_set groups i (get_or groups i [] ++ key ∷ [])

  unfoldable pub group_keys : ShardedStore C → List Bytes → List (List Bytes) → List (List Bytes)
  group_keys s [] groups = groups
  group_keys s (key ∷ keys) groups = group_keys s keys (push_key groups (shard_index s key) key)

  -- `if shard.remove(key).is_some() { count += 1 }`
  unfoldable pub one_if_some : Option Entry → ℕ
  one_if_some none = 0
  one_if_some (some e) = 1

  unfoldable pub remove_in : C.dash.Shard → List Bytes → ℕ × C.dash.Shard
  remove_in x [] = (0, x)
  remove_in x (key ∷ keys) =
      let (n, y) = remove_in (C.dash.remove x key) keys in (one_if_some (C.dash.get x key) + n, y)

  -- A shard after the other, each with its group of keys.
  unfoldable pub remove_groups : List (List Bytes) → List C.dash.Shard → ℕ × List C.dash.Shard
  remove_groups [] shards = (0, shards)
  remove_groups (keys ∷ groups) [] = (0, [])
  remove_groups (keys ∷ groups) (x ∷ shards) =
      let (n, y) = remove_in x keys in
      let (m, rest) = remove_groups groups shards in (n + m, y ∷ rest)

  unfoldable pub delete : ShardedStore C → List Bytes → ℕ × ShardedStore C
  delete s keys =
      let (n, shards) = remove_groups (group_keys s keys (replicate s.num_shards [])) s.shards in
      (n, record s { shards = shards })

  unfoldable pub exists_one : ShardedStore C → Bytes → ℕ → ℕ
  exists_one s key now = elim (find s key) [
    | none ↦ 0
    | some e ↦ if is_expired now e.expiry then 0 else 1
  ]

  unfoldable pub exists : ShardedStore C → List Bytes → ℕ → ℕ
  exists s [] now = 0
  exists s (key ∷ keys) now = exists_one s key now + exists s keys now

  -- The keys of a shard's iteration that have not expired.
  unfoldable pub live_keys : List (Bytes × Entry) → ℕ → List Bytes
  live_keys [] now = []
  live_keys ((key, e) ∷ entries) now =
      let rest = live_keys entries now in if is_expired now e.expiry then rest else key ∷ rest

  unfoldable pub keys_of : List C.dash.Shard → ℕ → List Bytes
  keys_of [] now = []
  keys_of (x ∷ shards) now = live_keys (C.dash.iter x) now ++ keys_of shards now

  unfoldable pub keys : ShardedStore C → ℕ → List Bytes
  unfolding keys_of
  keys s now = keys_of s.shards now

  unfoldable pub len_of : List C.dash.Shard → ℕ
  len_of [] = 0
  len_of (x ∷ shards) = C.dash.len x + len_of shards

  unfoldable pub len : ShardedStore C → ℕ
  unfolding len_of
  len s = len_of s.shards

  unfoldable pub clear_all : List C.dash.Shard → List C.dash.Shard
  clear_all [] = []
  clear_all (x ∷ shards) = C.dash.clear x ∷ clear_all shards

  unfoldable pub clear : ShardedStore C → ShardedStore C
  clear s = record s { shards = clear_all s.shards }

  -- The fields are set in the map of the entry `e`, which is in the store.
  unfoldable pub fill : ShardedStore C → Bytes → Entry → Fields → Fields → Reply ℕ × ShardedStore C
  fill s key e map fields =
      let (new_count, map') = insert_fields fields map 0 in
      (ok new_count, put s key (record e { value = hash map' }))

  -- A vacant entry gets an empty hash.
  unfoldable pub hset_vacant : ShardedStore C → Bytes → Fields → Reply ℕ × ShardedStore C
  hset_vacant s key fields = let e = new_entry (hash []) none in fill (put s key e) key e [] fields

  unfoldable pub hset_live :
      EntryValue → ShardedStore C → Bytes → Entry → Fields → Reply ℕ × ShardedStore C
  hset_live (string val) s key e fields = (wrong_type, s)
  hset_live (hash map) s key e fields = fill s key e map fields

  -- Once an expired entry is removed, the next round of the loop finds the key vacant.
  unfoldable pub hset : ShardedStore C → Bytes → Fields → ℕ → Reply ℕ × ShardedStore C
  hset s key fields now = elim (find s key) [
    | none ↦ hset_vacant s key fields
    | some e ↦
        if is_expired now e.expiry
        then hset_vacant (drop_key s key) key fields
        else hset_live e.value s key e fields
  ]

  unfoldable pub field_of : Bytes → EntryValue → Reply (Option Bytes)
  field_of f (string val) = wrong_type
  field_of f (hash map) = ok (field_get f map)

  unfoldable pub hget : ShardedStore C → Bytes → Bytes → ℕ → Reply (Option Bytes) × ShardedStore C
  hget s key f now = elim (find s key) [
    | none ↦ (ok none, s)
    | some e ↦
        if is_expired now e.expiry then (ok none, drop_key s key) else (field_of f e.value, s)
  ]

  unfoldable pub all_fields : Bytes → ℕ → EntryValue → Reply (List Bytes)
  all_fields key now (string val) = wrong_type
  all_fields key now (hash map) = ok (flatten_fields (C.hash_maps.order key now map))

  unfoldable pub hgetall : ShardedStore C → Bytes → ℕ → Reply (List Bytes) × ShardedStore C
  hgetall s key now = elim (find s key) [
    | none ↦ (ok [], s)
    | some e ↦
        if is_expired now e.expiry then (ok [], drop_key s key) else (all_fields key now e.value, s)
  ]

  unfoldable pub hdel_live :
      EntryValue → ShardedStore C → Bytes → Entry → List Bytes → Reply ℕ × ShardedStore C
  hdel_live (string val) s key e fields = (wrong_type, s)
  hdel_live (hash map) s key e fields =
      let (removed, map') = remove_fields fields map 0 in
      let s1 = put s key (record e { value = hash map' }) in
      (ok removed, if ltb 0 removed && is_empty map' then drop_key s1 key else s1)

  unfoldable pub hdel : ShardedStore C → Bytes → List Bytes → ℕ → Reply ℕ × ShardedStore C
  hdel s key fields now = elim (find s key) [
    | none ↦ (ok 0, s)
    | some e ↦
        if is_expired now e.expiry then (ok 0, drop_key s key) else hdel_live e.value s key e fields
  ]

-- ===== src/Store/Strings.antt =====
-- `set`, `get`, `get_existing_size`, `key_type`, `delete` and `exists` of `ShardedStore` in
-- src/store.rs. Each returns its result and the store.
pub mod Balance
pub mod Lookup
use redistill.Base.{
  ℕ, ◌+◌, ◌%◌, ◌^◌, Bool, true, false, not, Option, none, some, List, [], ◌∷◌, ltb, if◌then◌else◌,
  Bytes, length,
}
use redistill.Store.Entry.{Entry, EntryValue, string, hash, is_expired, calculate_entry_size}
use redistill.Store.State.{Env, Store, find, put, drop_key, sub_memory}
use redistill.Store.Access.{expire_key, leave_queue, join_queue, first_access, track_access}

-- `ttl.map(|s| now + s)`, in u64
abbrev pub expiry_of : Option ℕ → ℕ → Option ℕ
expiry_of none now = none
expiry_of (some s) now = some ((now + s) % 2 ^ 64)

unfoldable pub as_string : EntryValue → Option Bytes
as_string (string val) = some val
as_string (hash fields) = none

-- The replies of TYPE.
pub data KeyType : Type 0 where
  no_key string_key hash_key : KeyType

unfoldable pub type_of : EntryValue → KeyType
type_of (string bytes) = string_key
type_of (hash fields) = hash_key

module _ (E : Env) where
  unfoldable pub size_in : Bytes → Option Entry → Option ℕ
  size_in key none = none
  size_in key (some e) = some (calculate_entry_size (length key) e.value)

  unfoldable pub set : Store E → Bytes → Bytes → Option ℕ → ℕ → Option ℕ × Store E
  set s key value ttl now =
      let (timestamp, s1) = first_access E s in
      let (queue_type, s2) = join_queue E (leave_queue E s1 key) key in
      (
        size_in key (find E s2 key),
        put E s2 key (record {
          value = string value;
          expiry = expiry_of ttl now;
          last_accessed = timestamp;
          queue_type = queue_type;
          access_count = 0;
        }),
      )

  unfoldable pub get_existing_size : Store E → Bytes → ℕ → Option ℕ
  get_existing_size s key now = elim (find E s key) [
    | none ↦ none
    | some e ↦
        if is_expired now e.expiry then none else some (calculate_entry_size (length key) e.value)
  ]

  unfoldable pub get : Store E → Bytes → ℕ → Option Bytes × Store E
  get s key now = elim (find E s key) [
    | none ↦ (none, s)
    | some e ↦
        if is_expired now e.expiry
        then (none, expire_key E s key now)
        else (as_string e.value, track_access E s key e)
  ]

  unfoldable pub key_type : Store E → Bytes → ℕ → KeyType × Store E
  key_type s key now = elim (find E s key) [
    | none ↦ (no_key, s)
    | some e ↦
        if is_expired now e.expiry then (no_key, expire_key E s key now) else (type_of e.value, s)
  ]

  -- One round of `delete`: the key leaves its queue, then the shard; a key that had expired is
  -- removed and not counted.
  unfoldable pub delete_one : Store E → Bytes → ℕ → ℕ × Store E
  delete_one s key now =
      let s1 = leave_queue E s key in
      elim (find E s1 key) [
        | none ↦ (0, s1)
        | some e ↦ (
          if is_expired now e.expiry then 0 else 1,
          if ltb 0 E.config.max_memory
              then sub_memory E (drop_key E s1 key) (calculate_entry_size (length key) e.value)
              else drop_key E s1 key,
        )
      ]

  unfoldable pub delete : Store E → List Bytes → ℕ → ℕ × Store E
  delete s [] now = (0, s)
  delete s (key ∷ keys) now =
      let (n, s1) = delete_one s key now in let (m, s2) = delete s1 keys now in (n + m, s2)

  unfoldable pub exists_one : Store E → Bytes → ℕ → ℕ
  exists_one s key now = elim (find E s key) [
    | none ↦ 0
    | some e ↦ if is_expired now e.expiry then 0 else 1
  ]

  unfoldable pub exists : Store E → List Bytes → ℕ → ℕ
  exists s [] now = 0
  exists s (key ∷ keys) now = exists_one s key now + exists s keys now

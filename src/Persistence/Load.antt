-- ===== src/Persistence/Load.antt =====
-- `load_snapshot` of src/persistence.rs. An error stands for the text of the source.
use redistill.Base.{
  ℕ, zero, suc, ◌+◌, ◌-◌, ◌*◌, ◌⊎◌, inl, inr, Option, none, some, List, [], ◌∷◌, ltb, ◌==◌,
  if◌then◌else◌, Bytes, beq, length, take, drop,
}
use redistill.Store.State.{Env, Store, put, fetch_add}
use redistill.Store.Entry.{
  EntryValue, string, hash, Fields, is_expired, field_insert, calculate_entry_size,
}
use redistill.Persistence.{Bincode, SnapshotValue, snapshot_magic, snapshot_version}

pub data LoadError : Type 0 where
  short_header bad_magic short_entry undecodable : LoadError
  unsupported_version : ℕ → LoadError

-- `from_le_bytes`
abbrev pub from_le_bytes : Bytes → ℕ
from_le_bytes [] = 0
from_le_bytes (b ∷ s) = b + 256 * from_le_bytes s

-- `read_exact`
unfoldable pub read_exact : ℕ → Bytes → Option (Bytes × Bytes)
read_exact n s = if ltb (length s) n then none else some (take n s, drop n s)

-- The loop `for (field, val) in fields`.
unfoldable pub insert_each : List (Bytes × Bytes) → Fields → Fields
insert_each [] map = map
insert_each ((field, val) ∷ fields) map = insert_each fields (field_insert field val map)

unfoldable pub loaded_value : SnapshotValue → EntryValue
loaded_value (SnapshotValue.string bytes) = string bytes
loaded_value (SnapshotValue.hash fields) = hash (insert_each fields [])

-- The key, the value and the expiry of an entry in either format.
abbrev pub Loaded : Type 0
Loaded = Bytes × (EntryValue × Option ℕ)

unfoldable pub decode_entry : Bincode → Bytes → Option Loaded
decode_entry B entry_data = elim (B.deserialize entry_data) [
  | some e ↦ some (e.key, (loaded_value e.value, e.expiry))
  | none ↦ elim (B.deserialize_legacy entry_data) [
    | some e ↦ some (e.key, (string e.value, e.expiry))
    | none ↦ none
  ]
]

-- `ttl.map(|t| now + t)`, where `ttl` is what is left until an expiry in the future
unfoldable pub loaded_expiry : ℕ → Option ℕ → Option ℕ
loaded_expiry now none = none
loaded_expiry now (some exp) = if ltb now exp then some (now + (exp - now)) else none

module _ (E : Env) where
  -- An entry that has not expired: the accounts, and the insertion.
  unfoldable pub insert_loaded : ℕ → Loaded → Store E → Store E
  insert_loaded now (key, (value, expiry)) s =
      let s1 =
        if ltb 0 E.config.max_memory
        then record s {
          memory_used = fetch_add s.memory_used (calculate_entry_size (length key) value);
        }
        else s in
      put E s1 key (record {
        value = value;
        expiry = loaded_expiry now expiry;
        last_accessed = 0;
        queue_type = 0;
        access_count = 0;
      })

  -- One round behind the decoding: an expired entry is passed over.
  unfoldable pub load_entry : ℕ → Loaded → Store E × ℕ → Store E × ℕ
  load_entry now (key, (value, expiry)) (s, loaded) =
      if is_expired now expiry
      then (s, loaded)
      else (insert_loaded now (key, (value, expiry)) s, loaded + 1)

  -- The store, and `Ok` of the count `loaded` or `Err`. What was loaded before an error stays.
  unfoldable pub load_entries : Bincode → ℕ → ℕ → Bytes → Store E × ℕ → Store E × (ℕ ⊎ LoadError)
  load_entries B now zero file (s, loaded) = (s, inl loaded)
  load_entries B now (suc entry_count) file (s, loaded) = elim (read_exact 4 file) [
    | none ↦ (s, inl loaded)
    | some (len_bytes, rest) ↦ elim (read_exact (from_le_bytes len_bytes) rest) [
      | none ↦ (s, inr short_entry)
      | some (entry_data, behind) ↦ elim (decode_entry B entry_data) [
        | none ↦ (s, inr undecodable)
        | some entry ↦ load_entries B now entry_count behind (load_entry now entry (s, loaded))
      ]
    ]
  ]

  -- The bytes of the time and of the count.
  unfoldable pub load_counted : Bincode → Bytes → Store E → Store E × (ℕ ⊎ LoadError)
  load_counted B file s = elim (read_exact 8 file) [
    | none ↦ (s, inr short_header)
    | some (timestamp_bytes, rest) ↦ elim (read_exact 8 rest) [
      | none ↦ (s, inr short_header)
      | some (count_bytes, behind) ↦
          load_entries B s.clock (from_le_bytes count_bytes) behind (s, 0)
    ]
  ]

  -- The byte of the version.
  unfoldable pub load_versioned : Bincode → Bytes → Store E → Store E × (ℕ ⊎ LoadError)
  load_versioned B [] s = (s, inr short_header)
  load_versioned B (version ∷ file) s =
      if version == snapshot_version
      then load_counted B file s
      else (s, inr (unsupported_version version))

  -- `none` is a path without a file.
  unfoldable pub load_snapshot : Bincode → Option Bytes → Store E → Store E × (ℕ ⊎ LoadError)
  load_snapshot B none s = (s, inl 0)
  load_snapshot B (some file) s = elim (read_exact 4 file) [
    | none ↦ (s, inr short_header)
    | some (magic, rest) ↦
        if beq magic snapshot_magic then load_versioned B rest s else (s, inr bad_magic)
  ]

-- ===== src/Persistence.antt =====
-- src/persistence.rs: the snapshot of a store in a file, written by `save_snapshot_sync`. The encoding
-- of an entry by the crate `bincode` is a parameter.
use redistill.Base.{
  ℕ, zero, suc, ◌+◌, ◌-◌, ◌*◌, ◌/◌, ◌%◌, ◌^◌, ◌≤◌, ◌<◌, min, max, ◌≡◌, refl, sym, ap, ◌∙◌, ◌≢◌, ◌↔◌,
  ◌⊎◌, inl, inr, Bool, true, false, ◌&&◌, ◌||◌, not, Option, none, some, List, [], ◌∷◌, ◌++◌,
  append_assoc, append-nil, arith, ltb, leb, ◌==◌, if◌then◌else◌, Bytes, codes, beq, length, take,
  drop, All, length-append, take-append, Bool-cases, Option-cases, le→ltb, lt→ltb, beq_iff,
  beq_refl, get_or, set,
}
pub mod Load
pub mod Restored
pub mod RoundTrip
pub mod Stream
use redistill.Store.State.{Env, Store}
use redistill.Store.Entry.{HashMaps, Entry, EntryValue, is_expired}

-- `SnapshotValue`
pub data SnapshotValue : Type 0 where
  string : Bytes → SnapshotValue
  hash : List (Bytes × Bytes) → SnapshotValue

pub record SnapshotEntry : Type 0 where
  pub key : Bytes
  pub value : SnapshotValue
  pub expiry : Option ℕ

-- The older format, of strings only.
pub record LegacySnapshotEntry : Type 0 where
  pub key : Bytes
  pub value : Bytes
  pub expiry : Option ℕ

-- `bincode::serialize`, which fails with a text, and `deserialize` at the two types.
pub record Bincode : Type 0 where
  pub serialize : SnapshotEntry → Bytes ⊎ Bytes
  pub deserialize : Bytes → Option SnapshotEntry
  pub deserialize_legacy : Bytes → Option LegacySnapshotEntry

-- SAVE_IN_PROGRESS, LAST_SAVE_TIME, and the file at the snapshot's path, if there is one.
pub record Saves : Type 0 where
  pub save_in_progress : Bool
  pub last_save_time : ℕ
  pub snapshot : Option Bytes

-- `to_le_bytes` of so many bytes
abbrev pub to_le_bytes : ℕ → ℕ → Bytes
to_le_bytes zero n = []
to_le_bytes (suc w) n = (n % 256) ∷ to_le_bytes w (n / 256)

abbrev pub snapshot_magic : Bytes
snapshot_magic = codes "RDST"

abbrev pub snapshot_version : ℕ
snapshot_version = 1

-- The fields are collected in the order of the map's iteration.
unfoldable pub to_snapshot_value : HashMaps → ℕ → Bytes → EntryValue → SnapshotValue
to_snapshot_value H now key (EntryValue.string bytes) = string bytes
to_snapshot_value H now key (EntryValue.hash fields) = hash (H.order key now fields)

unfoldable pub to_snapshot_entry : HashMaps → ℕ → Bytes → Entry → SnapshotEntry
to_snapshot_entry H now key val = record {
  key = key;
  value = to_snapshot_value H now key val.value;
  expiry = val.expiry;
}

-- The file so far with `count`, a u64; or the text of an error.
abbrev pub Streamed : Type 0
Streamed = (Bytes × ℕ) ⊎ Bytes

unfoldable pub write_encoded : Bytes × ℕ → Bytes ⊎ Bytes → Streamed
write_encoded (file, count) (inl encoded) =
    inl (file ++ (to_le_bytes 4 (length encoded) ++ encoded), (count + 1) % 2 ^ 64)
write_encoded (file, count) (inr e) = inr (codes "Failed to serialize entry: " ++ e)

module _ (B : Bincode) where
  -- One round of the loop over a shard.
  unfoldable pub stream_entry : HashMaps → ℕ → Bytes → Entry → Streamed → Streamed
  stream_entry H now key val (inr e) = inr e
  stream_entry H now key val (inl w) =
      if is_expired now val.expiry
      then inl w
      else write_encoded w (B.serialize (to_snapshot_entry H now key val))

  unfoldable pub stream_entries : HashMaps → ℕ → List (Bytes × Entry) → Streamed → Streamed
  stream_entries H now [] w = w
  stream_entries H now ((key, val) ∷ entries) w =
      stream_entries H now entries (stream_entry H now key val w)

  unfoldable pub stream_shards : (E : Env) → ℕ → List E.dash.Shard → Streamed → Streamed
  stream_shards E now [] w = w
  stream_shards E now (shard ∷ shards) w =
      stream_shards E now shards (stream_entries E.hash_maps now (E.dash.iter shard) w)

-- `seek`, then `write_all`
abbrev pub write_at : ℕ → Bytes → Bytes → Bytes
write_at pos bytes file = take pos file ++ (bytes ++ drop (pos + length bytes) file)

-- What stands before the entries, with a place for their count.
abbrev pub header : ℕ → ℕ → Bytes
header now count =
    snapshot_magic ++ ((snapshot_version ∷ []) ++ (to_le_bytes 8 now ++ to_le_bytes 8 count))

-- `Ok` of the count, or `Err` of a text.
abbrev pub SaveResult : Type 0
SaveResult = ℕ ⊎ Bytes

-- What stands behind the entries: the count, and the rename, unless a file operation failed.
unfoldable pub finish_save : Saves → ℕ → Option Bytes → Streamed → Saves × SaveResult
finish_save v now failure (inr e) = (v, inr e)
finish_save v now (some e) (inl (file, count)) = (v, inr e)
finish_save v now none (inl (file, count)) = (
  record v { snapshot = some (write_at 13 (to_le_bytes 8 count) file); last_save_time = now },
  inl count,
)

-- `failure` is the text of the file operation that fails, if one does.
unfoldable pub save_snapshot_sync :
    Bincode → (E : Env) → Store E → Saves → Option Bytes → Saves × SaveResult
save_snapshot_sync B E s v failure =
    let now = s.clock in
    let (v1, result) =
      finish_save (record v { save_in_progress = true }) now failure
        (stream_shards B E now s.shards (inl (header now 0, 0))) in
    if v.save_in_progress
    then (v, inr (codes "Background save already in progress"))
    else (record v1 { save_in_progress = false }, result)

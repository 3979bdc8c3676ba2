-- ===== src/Aof/Snapshot.antt =====
-- `write_store_snapshot` of src/aof.rs: the records of a store's live entries.
pub mod Records
use redistill.Base.{
  ℕ, zero, suc, ◌+◌, ◌-◌, ◌*◌, ◌/◌, ◌%◌, ◌^◌, ◌≤◌, ◌<◌, min, max, ◌≡◌, refl, sym, ap, ◌∙◌, ◌≢◌, ◌↔◌,
  ◌⊎◌, inl, inr, Bool, true, false, ◌&&◌, ◌||◌, not, Option, none, some, List, [], ◌∷◌, ◌++◌,
  append_assoc, append-nil, arith, ltb, leb, ◌==◌, if◌then◌else◌, Bytes, codes, beq, length, take,
  drop, All, length-append, take-append, Bool-cases, Option-cases, le→ltb, lt→ltb, beq_iff,
  beq_refl, get_or, set,
}
use redistill.Store.State.{Env, Store}
use redistill.Store.Entry.{HashMaps, Entry, EntryValue, string, hash, Fields, is_expired}
use redistill.Aof.Frame.{
  Written, write_resp_array, write_resp_array-write_array, emit_set, emit_hset, emit_expire,
  push_pairs,
}
use redistill.Resp.Decimal.{decimal}
use redistill.Resp.Writer.{write_array}

-- The file so far, with `keys` and `bytes`, which are u64.
pub record Progress : Type 0 where
  pub file : Bytes
  pub keys : ℕ
  pub bytes : ℕ

-- `let n = emit_...; bytes += n as u64`
unfoldable pub add_record : Progress → Written → Progress
add_record p (file, n) = record p { file = file; bytes = (p.bytes + n) % 2 ^ 64 }

-- The `EXPIRE` of an entry with an expiry, then `keys += 1`.
unfoldable pub snapshot_expiry : ℕ → Bytes → Option ℕ → Progress → Progress
snapshot_expiry now key none p = record p { keys = (p.keys + 1) % 2 ^ 64 }
snapshot_expiry now key (some exp) p =
    let remaining = exp - now in
    let p1 = if ltb 0 remaining then add_record p (emit_expire p.file key remaining) else p in
    record p1 { keys = (p1.keys + 1) % 2 ^ 64 }

-- The fields of a hash, collected; without any the entry is passed over.
unfoldable pub snapshot_pairs : ℕ → Bytes → Entry → List (Bytes × Bytes) → Progress → Progress
snapshot_pairs now key val [] p = p
snapshot_pairs now key val (f ∷ pairs) p =
    snapshot_expiry now key val.expiry (add_record p (emit_hset p.file key (f ∷ pairs)))

-- The match on the value; the pairs come in the order of the map's iteration.
unfoldable pub snapshot_value : HashMaps → ℕ → Bytes → Entry → EntryValue → Progress → Progress
snapshot_value H now key val (string v) p =
    snapshot_expiry now key val.expiry (add_record p (emit_set p.file key v))
snapshot_value H now key val (hash h) p = snapshot_pairs now key val (H.order key now h) p

-- One round of the loop over a shard.
unfoldable pub snapshot_entry : HashMaps → ℕ → Bytes → Entry → Progress → Progress
snapshot_entry H now key val p =
    if is_expired now val.expiry then p else snapshot_value H now key val val.value p

unfoldable pub snapshot_entries : HashMaps → ℕ → List (Bytes × Entry) → Progress → Progress
snapshot_entries H now [] p = p
snapshot_entries H now ((key, val) ∷ entries) p =
    snapshot_entries H now entries (snapshot_entry H now key val p)

module _ (E : Env) where
  open E.dash use {Shard, iter}

  unfoldable pub snapshot_shards : ℕ → List Shard → Progress → Progress
  snapshot_shards now [] p = p
  snapshot_shards now (shard ∷ shards) p =
      snapshot_shards now shards (snapshot_entries E.hash_maps now (iter shard) p)

  unfoldable pub write_store_snapshot : Store E → ℕ → Progress
  write_store_snapshot s now =
      snapshot_shards now s.shards (record { file = []; keys = 0; bytes = 0 })

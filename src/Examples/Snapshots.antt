-- ===== src/Examples/Snapshots.antt =====
-- The result on snapshots, with an encoding of the strings without an expiry.
use redistill.Base.{
  ℕ, ◌^◌, ◌<◌, ◌≡◌, refl, sym, ap, ◌⊎◌, inl, inr, false, Option, none, some, [], ◌∷◌, ◌++◌, arith,
  Bytes, codes, length, take, drop, All, take-append,
}
use mathlib.Core.Sum.{inl-injective, inl-ne-inr}
use redistill.Store.Dash.{without}
use redistill.Store.Assoc.{insert}
use redistill.Store.Entry.{string, is_expired}
use redistill.Store.State.{Store}
use redistill.Store.Access.{no_queues}
use redistill.Persistence.{
  Bincode, SnapshotEntry, SnapshotValue, Saves, to_snapshot_entry, to_snapshot_value,
  save_snapshot_sync, finish_save, stream_shards, stream_entries, stream_entry, write_encoded,
}
use redistill.Persistence.Load.{load_snapshot}
use redistill.Persistence.Stream.{all_live_entries}
use redistill.Persistence.Restored.{HasUniqueFields, restore_all}
use redistill.Persistence.RoundTrip.{IsFaithful, IsSmall, load_snapshot-save_snapshot_sync}
use redistill.Examples.Samples.{here, entry_of}

-- The length of the key, the key and the value.
abbrev encode : Bytes → SnapshotValue → Option ℕ → Bytes ⊎ Bytes
encode key (SnapshotValue.string v) none = inl (length key ∷ (key ++ v))
encode key _ _ = inr (codes "not encoded")

abbrev decode : Bytes → Option SnapshotEntry
decode [] = none
decode (n ∷ s) =
    some (record { key = take n s; value = SnapshotValue.string (drop n s); expiry = none })

abbrev pub plain : Bincode
plain = record {
  serialize = λ e. encode e.key e.value e.expiry;
  deserialize = decode;
  deserialize_legacy = λ s. none;
}

drop_whole : (xs ys : Bytes) → drop (length xs) (xs ++ ys) ≡ ys
drop_whole [] ys = refl
drop_whole (x ∷ xs) ys = drop_whole xs ys

decode_encoded :
    (key encoded : Bytes) (value : SnapshotValue) (expiry : Option ℕ)
    → encode key value expiry ≡ inl encoded
    → decode encoded ≡ some (record { key = key; value = value; expiry = expiry })
decode_encoded key encoded (SnapshotValue.string v) none h =
    rw (← inl-injective _ _ h, take-append key v, drop_whole key v)
decode_encoded key encoded (SnapshotValue.string v) (some x) h = absurd (inl-ne-inr (sym h))
decode_encoded key encoded (SnapshotValue.hash fields) none h = absurd (inl-ne-inr (sym h))
decode_encoded key encoded (SnapshotValue.hash fields) (some x) h = absurd (inl-ne-inr (sym h))

pub plain-IsFaithful : IsFaithful plain
plain-IsFaithful = record {
  decodes = λ e encoded h. decode_encoded e.key encoded e.value e.expiry h;
}

abbrev pub kept : Store here
kept = record {
  shards =
      insert ([], tt) (codes "ab") (entry_of (string (codes "1")) none)
      ∷ insert ([], tt) (codes "c") (entry_of (string (codes "41")) none)
      ∷ [];
  s3fifo_queues = no_queues ∷ no_queues ∷ [];
  num_shards = 2;
  memory_used = 133;
  evicted_keys = 0;
  draws = 0;
  clock = 7;
}

abbrev pub emptied : Store here
emptied = record kept { shards = ([], tt) ∷ ([], tt) ∷ []; memory_used = 0; clock = 9 }

abbrev pub no_saves : Saves
no_saves = record { save_in_progress = false; last_save_time = 0; snapshot = none }

pub saved : (save_snapshot_sync plain here kept no_saves none).1 ≡ inl 2
unfolding save_snapshot_sync finish_save stream_shards stream_entries stream_entry write_encoded
    to_snapshot_entry to_snapshot_value is_expired without
saved = refl

pub small : All (IsSmall plain here.hash_maps 7) (all_live_entries here 7 kept.shards)
unfolding is_expired without to_snapshot_entry to_snapshot_value
small = (
  λ encoded h. omega (arith, ap length (inl-injective _ _ h)),
  (λ encoded h. omega (arith, ap length (inl-injective _ _ h)), tt),
)

pub few : length (all_live_entries here 7 kept.shards) < 2 ^ 64
unfolding is_expired without
few = omega arith

pub fields_unique : All HasUniqueFields (all_live_entries here 7 kept.shards)
unfolding is_expired without
fields_unique = (tt, (tt, tt))

load_example :
    load_snapshot here plain (save_snapshot_sync plain here kept no_saves none).0.snapshot emptied
    ≡ (
      (restore_all here 7 9 (all_live_entries here 7 kept.shards) (emptied, 0)).0,
      inl (restore_all here 7 9 (all_live_entries here 7 kept.shards) (emptied, 0)).1,
    )
load_example =
    load_snapshot-save_snapshot_sync here plain plain-IsFaithful kept emptied no_saves 2 saved small
      fields_unique few

-- ===== src/Persistence/RoundTrip.antt =====
-- The snapshot that `save_snapshot_sync` of src/persistence.rs wrote, read by `load_snapshot`.
use redistill.Base.{
  ℕ, zero, suc, ◌/◌, ◌^◌, ◌<◌, ◌≡◌, refl, sym, ap, ◌∙◌, ◌≢◌, inl, inr, true, false, none, some,
  List, [], ◌∷◌, ◌++◌, arith, Bytes, beq, length, drop, All, length-append, take-append, Bool-cases,
  le→ltb,
}
use native.Mathlib.Nat.{pow-suc}
use mathlib.Core.Path.{subst}
use mathlib.Core.Sum.{inl-ne-inr}
use redistill.Store.State.{Env, Store}
use redistill.Store.Entry.{HashMaps, Entry, is_expired}
use redistill.Persistence.{
  Bincode, SnapshotEntry, Saves, to_le_bytes, to_snapshot_entry, stream_shards, header, write_at,
  finish_save, save_snapshot_sync, snapshot_magic,
}
use redistill.Persistence.Load.{
  from_le_bytes, read_exact, decode_entry, load_entries, load_counted, load_versioned,
  load_snapshot,
}
use redistill.Persistence.Restored.{
  loaded_of, HasUniqueFields, restore_all, load_entry-live, load_entry-expired,
}
use redistill.Persistence.Stream.{
  all_live_entries, Encodes, StreamsTo, stream_shards-StreamsTo, Sum-cases,
}

drop-append_self : (xs ys : Bytes) → drop (length xs) (xs ++ ys) ≡ ys
drop-append_self [] ys = refl
drop-append_self (x ∷ xs) ys = drop-append_self xs ys

read_exact-append : (s rest : Bytes) → read_exact (length s) (s ++ rest) ≡ some (s, rest)
unfolding read_exact
read_exact-append s rest = rw (
  le→ltb (length (s ++ rest)) (length s) (omega (arith, length-append s rest)),
  take-append s rest,
  drop-append_self s rest,
)

length-to_le_bytes : (w n : ℕ) → length (to_le_bytes w n) ≡ w
length-to_le_bytes zero n = refl
length-to_le_bytes (suc w) n = ap suc (length-to_le_bytes w (n / 256))

from_le_bytes-to_le_bytes : (w n : ℕ) → n < 256 ^ w → from_le_bytes (to_le_bytes w n) ≡ n
from_le_bytes-to_le_bytes zero n h = omega arith
from_le_bytes-to_le_bytes (suc w) n h =
    omega (arith, from_le_bytes-to_le_bytes w (n / 256) (omega (arith, pow-suc 256 w)))

read_exact-le :
    (w n : ℕ) (rest : Bytes) → read_exact w (to_le_bytes w n ++ rest) ≡ some (to_le_bytes w n, rest)
read_exact-le w n rest =
    subst (λ l. read_exact l (to_le_bytes w n ++ rest) ≡ some (to_le_bytes w n, rest))
      (length-to_le_bytes w n) (read_exact-append (to_le_bytes w n) rest)

-- What the code relies on of `bincode`: what was serialized is deserialized.
pub record IsFaithful (B : Bincode) : Type 0 where
  pub decodes :
      (e : SnapshotEntry) (encoded : Bytes)
      → B.serialize e ≡ inl encoded
      → B.deserialize encoded ≡ some e

-- The encoding of an entry has a length that a u32 holds.
abbrev pub IsSmall : Bincode → HashMaps → ℕ → Bytes × Entry → Type 0
IsSmall B H now (key, e) =
    (encoded : Bytes)
    → B.serialize (to_snapshot_entry H now key e) ≡ inl encoded
    → length encoded < 2 ^ 32

module _ (E : Env) where
  module _ (B : Bincode) (faithful : IsFaithful B) where
    decode_entry_lem :
        (saved_at : ℕ) (key : Bytes) (e : Entry) (encoded : Bytes)
        → B.serialize (to_snapshot_entry E.hash_maps saved_at key e) ≡ inl encoded
        → decode_entry B encoded ≡ some (loaded_of E.hash_maps saved_at key e)
    unfolding decode_entry to_snapshot_entry
    decode_entry_lem saved_at key e encoded x =
        rw (faithful.decodes (to_snapshot_entry E.hash_maps saved_at key e) encoded x, decode_entry)

    load_entries-Encodes :
        (saved_at now : ℕ) (entries : List (Bytes × Entry)) (body : Bytes) (t : Store E × ℕ)
        → Encodes B E saved_at entries body
        → All (IsSmall B E.hash_maps saved_at) entries
        → All HasUniqueFields entries
        → load_entries E B now (length entries) body t
          ≡ ((restore_all E saved_at now entries t).0, inl (restore_all E saved_at now entries t).1)
    unfolding load_entries Encodes
    load_entries-Encodes saved_at now [] body (t, loaded) e small us = refl
    load_entries-Encodes saved_at now ((key, x) ∷ entries) body (t, loaded) (encoded, rest, s, e, r)
          (one, small) (u, us) =
        let lt : length encoded < 256 ^ 4 = one encoded s in
        rw
          (
            e,
            load_entries,
            read_exact-le 4 (length encoded) (encoded ++ rest),
            from_le_bytes-to_le_bytes 4 (length encoded) lt,
            read_exact-append encoded rest,
            decode_entry_lem saved_at key x encoded s,
          )
          (elim (Bool-cases (is_expired now x.expiry)) [
            | inl over ↦
                rw
                  (
                    load_entry-expired E now (loaded_of E.hash_maps saved_at key x) (t, loaded)
                        over,
                    over,
                  )
                  (load_entries-Encodes saved_at now entries rest _ r small us)
            | inr live ↦
                rw (load_entry-live E saved_at now key x t loaded u live, live)
                  (load_entries-Encodes saved_at now entries rest _ r small us)
          ])

    load_snapshot-header :
        (t : Store E) (now count : ℕ) (body : Bytes)
        → count < 2 ^ 64
        → load_snapshot E B (some (header now count ++ body)) t
          ≡ load_entries E B t.clock count body (t, 0)
    unfolding load_snapshot beq load_versioned load_counted
    load_snapshot-header t now count body h =
        let lt : count < 256 ^ 8 = h in
        rw (
          read_exact-append snapshot_magic
              ((1 ∷ []) ++ (to_le_bytes 8 now ++ (to_le_bytes 8 count ++ body))),
          load_snapshot,
          read_exact-le 8 now (to_le_bytes 8 count ++ body),
          load_versioned,
          load_counted,
          read_exact-le 8 count body,
          from_le_bytes-to_le_bytes 8 count lt,
        )

    write_at-header :
        (now count : ℕ) (body : Bytes)
        → write_at 13 (to_le_bytes 8 count) (header now 0 ++ body) ≡ header now count ++ body
    write_at-header now count body = refl

    save_busy :
        (s : Store E) (v : Saves) (n : ℕ)
        → v.save_in_progress ≡ true
        → (save_snapshot_sync B E s v none).1 ≢ inl n
    unfolding save_snapshot_sync
    save_busy s v n busy = rw busy (λ e. inl-ne-inr (sym e))

    save_stuck :
        (s : Store E) (v : Saves) (n : ℕ) (e : Bytes)
        → v.save_in_progress ≡ false
        → stream_shards B E s.clock s.shards (inl (header s.clock 0, 0)) ≡ inr e
        → (save_snapshot_sync B E s v none).1 ≢ inl n
    unfolding save_snapshot_sync finish_save
    save_stuck s v n e idle x = rw (idle, x) (λ y. inl-ne-inr (sym y))

    save_streamed :
        (s : Store E) (v : Saves) (file : Bytes) (count : ℕ)
        → v.save_in_progress ≡ false
        → stream_shards B E s.clock s.shards (inl (header s.clock 0, 0)) ≡ inl (file, count)
        → (save_snapshot_sync B E s v none).0.snapshot
          ≡ some (write_at 13 (to_le_bytes 8 count) file)
    unfolding save_snapshot_sync finish_save
    save_streamed s v file count idle x = rw (idle, x)

    load_streamed :
        (s t : Store E) (file : Bytes) (count : ℕ)
        → StreamsTo B E s.clock
            (header s.clock 0, 0)
            (all_live_entries E s.clock s.shards)
            (inl (file, count))
        → All (IsSmall B E.hash_maps s.clock) (all_live_entries E s.clock s.shards)
        → All HasUniqueFields (all_live_entries E s.clock s.shards)
        → length (all_live_entries E s.clock s.shards) < 2 ^ 64
        → load_snapshot E B (some (write_at 13 (to_le_bytes 8 count) file)) t ≡ (
          (restore_all E s.clock t.clock (all_live_entries E s.clock s.shards) (t, 0)).0,
          inl (restore_all E s.clock t.clock (all_live_entries E s.clock s.shards) (t, 0)).1,
        )
    unfolding StreamsTo
    load_streamed s t file count st small us few =
        let lt : count < 2 ^ 64 = st.bound (omega arith) in
        let all : count ≡ length (all_live_entries E s.clock s.shards) = omega (arith, st.count) in
        rw (st.file, write_at-header s.clock count st.body)
          (load_snapshot-header t s.clock count st.body lt
            ∙ rw all (
                load_entries-Encodes s.clock t.clock (all_live_entries E s.clock s.shards) st.body
                  (t, 0) st.encodes small us))

    -- A snapshot that save_snapshot_sync wrote is loaded back: load_snapshot then stores each entry
    -- that was live at the save, in order, with its whole value and its expiry, never accessed, and
    -- accounts for its size where there is a memory limit; it passes over those that have expired
    -- by the time of the load, and counts the others. What bincode serializes it deserializes
    -- again, the encodings have lengths that a u32 holds, no hash has a field twice, and there are
    -- fewer than 2^64 entries.
    pub load_snapshot-save_snapshot_sync :
        (s t : Store E) (v : Saves) (n : ℕ)
        → (save_snapshot_sync B E s v none).1 ≡ inl n
        → All (IsSmall B E.hash_maps s.clock) (all_live_entries E s.clock s.shards)
        → All HasUniqueFields (all_live_entries E s.clock s.shards)
        → length (all_live_entries E s.clock s.shards) < 2 ^ 64
        → load_snapshot E B (save_snapshot_sync B E s v none).0.snapshot t ≡ (
          (restore_all E s.clock t.clock (all_live_entries E s.clock s.shards) (t, 0)).0,
          inl (restore_all E s.clock t.clock (all_live_entries E s.clock s.shards) (t, 0)).1,
        )
    load_snapshot-save_snapshot_sync s t v n saved small us few =
        elim (Bool-cases v.save_in_progress) [
          | inl busy ↦ absurd (save_busy s v n busy saved)
          | inr idle ↦
              elim (Sum-cases (stream_shards B E s.clock s.shards (inl (header s.clock 0, 0)))) [
                | inr (e, x) ↦ absurd (save_stuck s v n e idle x saved)
                | inl ((file, count), x) ↦ rw (save_streamed s v file count idle x) (
                    load_streamed s t file count
                      (subst
                        (StreamsTo B E s.clock (header s.clock 0, 0)
                          (all_live_entries E s.clock s.shards))
                        x (stream_shards-StreamsTo B E s.clock s.shards (header s.clock 0, 0)))
                      small us few)
              ]
        ]

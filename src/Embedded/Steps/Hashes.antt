-- ===== src/Embedded/Steps/Hashes.antt =====
-- Hashes of src/lib.rs against the map that the store stands for.
use redistill.Base.{
  ℕ, ◌≡◌, refl, inl, inr, ◌&&◌, Option, none, some, List, [], ltb, Bytes, Bool-cases, Option-cases,
}
use redistill.Store.Entry.{Entry, EntryValue, string, hash, Fields, is_expired}
use redistill.Store.Hashes.{ok, insert_fields, remove_fields, is_empty}
use redistill.Store.View.{Items, seen, update, with_fields, field_in, fields_in, without_fields}
use redistill.Embedded
use redistill.Embedded.{Crates, ShardedStore, new_entry, find, put, drop_key}
use redistill.Embedded.Steps.Moves.{
  Shows, put-Shows, drop_key-Shows, update_twice-Shows, expired-Shows, seen_found, seen_missing,
}

-- The operations of the store.
module _ (C : Crates) (now : ℕ) where
  field_of-field_in :
      (f : Bytes) (v : EntryValue) (expiry : Option ℕ)
      → Embedded.field_of C f v ≡ field_in f (some (v, expiry))
  unfolding Embedded.field_of
  field_of-field_in f (string v) expiry = refl
  field_of-field_in f (hash map) expiry = refl

  all_fields-fields_in :
      (key : Bytes) (now : ℕ) (v : EntryValue) (expiry : Option ℕ)
      → Embedded.all_fields C key now v ≡ fields_in C.hash_maps key now (some (v, expiry))
  unfolding Embedded.all_fields
  all_fields-fields_in key now (string v) expiry = refl
  all_fields-fields_in key now (hash map) expiry = refl

  pub hget-Shows :
      (s : ShardedStore C) (m : Items) (key f : Bytes)
      → Shows C now s m
      → ((Embedded.hget C s key f now).0 ≡ field_in f (seen now (m key)))
        × Shows C now (Embedded.hget C s key f now).1 m
  unfolding Embedded.hget
  hget-Shows s m key f sh = elim (Option-cases (find C s key)) [
    | inl e ↦ rw (e, Embedded.hget, seen_missing C now s m key sh e) (refl, sh)
    | inr (old, e) ↦ elim (Bool-cases (is_expired now old.expiry)) [
      | inl x ↦
          rw (e, Embedded.hget, x, seen_found C now s m key old sh e, x)
            (refl, expired-Shows C now s m key old sh e x)
      | inr x ↦
          rw (e, Embedded.hget, x, seen_found C now s m key old sh e, x)
            (field_of-field_in f old.value old.expiry, sh)
    ]
  ]

  pub hgetall-Shows :
      (s : ShardedStore C) (m : Items) (key : Bytes)
      → Shows C now s m
      → ((Embedded.hgetall C s key now).0 ≡ fields_in C.hash_maps key now (seen now (m key)))
        × Shows C now (Embedded.hgetall C s key now).1 m
  unfolding Embedded.hgetall
  hgetall-Shows s m key sh = elim (Option-cases (find C s key)) [
    | inl e ↦ rw (e, Embedded.hgetall, seen_missing C now s m key sh e) (refl, sh)
    | inr (old, e) ↦ elim (Bool-cases (is_expired now old.expiry)) [
      | inl x ↦
          rw (e, Embedded.hgetall, x, seen_found C now s m key old sh e, x)
            (refl, expired-Shows C now s m key old sh e x)
      | inr x ↦
          rw (e, Embedded.hgetall, x, seen_found C now s m key old sh e, x)
            (all_fields-fields_in key now old.value old.expiry, sh)
    ]
  ]

  fill-Shows :
      (s : ShardedStore C) (m : Items) (key : Bytes) (e : Entry) (map fields : Fields)
      → Shows C now s m
      → ((Embedded.fill C s key e map fields).0 ≡ ok (insert_fields fields map 0).0)
        × Shows C now
            (Embedded.fill C s key e map fields).1
            (update m key (some (hash (insert_fields fields map 0).1, e.expiry)))
  unfolding Embedded.fill
  fill-Shows s m key e map fields sh = (refl, put-Shows C now s m key _ sh)

  hset_vacant-Shows :
      (s : ShardedStore C) (m : Items) (key : Bytes) (fields : Fields)
      → Shows C now s m
      → ((Embedded.hset_vacant C s key fields).0 ≡ ok (insert_fields fields [] 0).0)
        × Shows C now
            (Embedded.hset_vacant C s key fields).1
            (update m key (some (hash (insert_fields fields [] 0).1, none)))
  unfolding Embedded.hset_vacant
  hset_vacant-Shows s m key fields sh =
      let (n, next) = fill-Shows _ _ key _ [] fields (put-Shows C now s m key _ sh) in
      (n, update_twice-Shows C now _ m key _ _ next)

  hset_live-Shows :
      (s : ShardedStore C) (m : Items) (key : Bytes) (e : Entry) (fields : Fields) (v : EntryValue)
      → Shows C now s m
      → ((Embedded.hset_live C v s key e fields).0
          ≡ (with_fields m key fields (some (v, e.expiry))).0)
        × Shows C now
            (Embedded.hset_live C v s key e fields).1
            (with_fields m key fields (some (v, e.expiry))).1
  unfolding Embedded.hset_live
  hset_live-Shows s m key e fields (string v) sh = (refl, sh)
  hset_live-Shows s m key e fields (hash map) sh = fill-Shows s m key e map fields sh

  pub hset-Shows :
      (s : ShardedStore C) (m : Items) (key : Bytes) (fields : Fields)
      → Shows C now s m
      → ((Embedded.hset C s key fields now).0 ≡ (with_fields m key fields (seen now (m key))).0)
        × Shows C now
            (Embedded.hset C s key fields now).1
            (with_fields m key fields (seen now (m key))).1
  unfolding Embedded.hset
  hset-Shows s m key fields sh = elim (Option-cases (find C s key)) [
    | inl e ↦
        rw (e, Embedded.hset, seen_missing C now s m key sh e) (hset_vacant-Shows s m key fields sh)
    | inr (old, e) ↦ elim (Bool-cases (is_expired now old.expiry)) [
      | inl x ↦
          rw (e, Embedded.hset, x, seen_found C now s m key old sh e, x)
            (hset_vacant-Shows (drop_key C s key) m key fields
              (expired-Shows C now s m key old sh e x))
      | inr x ↦
          rw (e, Embedded.hset, x, seen_found C now s m key old sh e, x)
            (hset_live-Shows s m key old fields old.value sh)
    ]
  ]

  hdel_live-Shows :
      (s : ShardedStore C) (m : Items) (key : Bytes) (e : Entry) (fields : List Bytes)
      (v : EntryValue)
      → Shows C now s m
      → ((Embedded.hdel_live C v s key e fields).0
          ≡ (without_fields m key fields (some (v, e.expiry))).0)
        × Shows C now
            (Embedded.hdel_live C v s key e fields).1
            (without_fields m key fields (some (v, e.expiry))).1
  unfolding Embedded.hdel_live
  hdel_live-Shows s m key e fields (string v) sh = (refl, sh)
  hdel_live-Shows s m key e fields (hash map) sh =
      let (n, left) = remove_fields fields map 0 in
      let p = put-Shows C now s m key (record e { value = hash left }) sh in
      elim (Bool-cases (ltb 0 n && is_empty left)) [
        | inl last ↦
            rw last (refl, update_twice-Shows C now _ m key _ none (drop_key-Shows C now _ _ key p))
        | inr more ↦ rw more (refl, p)
      ]

  pub hdel-Shows :
      (s : ShardedStore C) (m : Items) (key : Bytes) (fields : List Bytes)
      → Shows C now s m
      → ((Embedded.hdel C s key fields now).0 ≡ (without_fields m key fields (seen now (m key))).0)
        × Shows C now
            (Embedded.hdel C s key fields now).1
            (without_fields m key fields (seen now (m key))).1
  unfolding Embedded.hdel
  hdel-Shows s m key fields sh = elim (Option-cases (find C s key)) [
    | inl e ↦ rw (e, Embedded.hdel, seen_missing C now s m key sh e) (refl, sh)
    | inr (old, e) ↦ elim (Bool-cases (is_expired now old.expiry)) [
      | inl x ↦
          rw (e, Embedded.hdel, x, seen_found C now s m key old sh e, x)
            (refl, expired-Shows C now s m key old sh e x)
      | inr x ↦
          rw (e, Embedded.hdel, x, seen_found C now s m key old sh e, x)
            (hdel_live-Shows s m key old fields old.value sh)
    ]
  ]

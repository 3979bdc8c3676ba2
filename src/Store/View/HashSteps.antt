-- ===== src/Store/View/HashSteps.antt =====
-- `hset`, `hget` and `hgetall` of src/store.rs against the map that the store stands for.
use redistill.Base.{
  ℕ, ◌-◌, ◌≡◌, refl, ap, inl, inr, Option, none, some, [], ltb, leb, Bytes, Bool-cases,
  Option-cases,
}
use redistill.Store.Entry.{Entry, EntryValue, string, hash, Fields, is_expired}
use redistill.Store.State.{Env, Store, find}
use redistill.Store.Access.{leave_queue, first_access}
use redistill.Store.Quiet.{first_access-IsQuiet, leave_queue-IsQuiet, join_queue-IsQuiet}
use redistill.Store.Hashes.{
  ok, insert_fields, settle, fill_hash, hset_vacant, hset_expired, hset_occupied, hset, field_of,
  hget, all_fields, hgetall,
}
use redistill.Store.View.{Items, seen, update, with_fields, field_in, fields_in, Shows}
use redistill.Store.View.Moves.{
  quiet-Shows, sub_memory-Shows, add_memory-Shows, put-Shows, drop_key-Shows, update_twice-Shows,
  expire_key-Shows, track_access-Shows, seen_live, seen_dead, seen_missing,
}

module _ (E : Env) where
  settle-Shows :
      (now : ℕ) (s : Store E) (m : Items) (old : Option ℕ) (new_size : ℕ)
      → Shows E now s m
      → Shows E now (settle E s old new_size) m
  unfolding settle
  settle-Shows now s m none new_size sh = elim (Bool-cases (ltb 0 E.config.max_memory)) [
    | inl t ↦ rw t (add_memory-Shows E now s m new_size sh)
    | inr t ↦ rw t sh
  ]
  settle-Shows now s m (some old) new_size sh = elim (Bool-cases (ltb 0 E.config.max_memory)) [
    | inr t ↦ rw t sh
    | inl t ↦ elim (Bool-cases (leb old new_size)) [
      | inl l ↦ rw (t, l) (add_memory-Shows E now s m (new_size - old) sh)
      | inr l ↦ rw (t, l) (sub_memory-Shows E now s m (old - new_size) sh)
    ]
  ]

  fill_hash-Shows :
      (now : ℕ) (s : Store E) (m : Items) (key : Bytes) (e : Entry) (map : Fields) (old : Option ℕ)
      (fields : Fields)
      → Shows E now s m
      → Shows E now
          (fill_hash E s key e map old fields).1
          (update m key (some (hash (insert_fields fields map 0).1, e.expiry)))
  unfolding fill_hash
  fill_hash-Shows now s m key e map old fields sh =
      settle-Shows now _ _ old _ (put-Shows E now s m key _ sh)

  hset_vacant-Shows :
      (now : ℕ) (s : Store E) (m : Items) (key : Bytes) (timestamp : ℕ) (fields : Fields)
      → Shows E now s m
      → Shows E now
          (hset_vacant E s key timestamp fields).1
          (update m key (some (hash (insert_fields fields [] 0).1, none)))
  unfolding hset_vacant
  hset_vacant-Shows now s m key timestamp fields sh =
      let q = quiet-Shows E now m (join_queue-IsQuiet E s key) sh in
      update_twice-Shows E now _ m key _ _
        (fill_hash-Shows now _ _ key _ [] none fields (put-Shows E now _ m key _ q))

  hset_expired-Shows :
      (now : ℕ) (s : Store E) (m : Items) (key : Bytes) (e : Entry)
      → Shows E now s m
      → Shows E now (hset_expired E s key e) (update m key none)
  unfolding hset_expired
  hset_expired-Shows now s m key e sh =
      let q = quiet-Shows E now m (leave_queue-IsQuiet E s key) sh in
      let d = drop_key-Shows E now (leave_queue E s key) m key q in
      elim (Bool-cases (ltb 0 E.config.max_memory)) [
        | inl t ↦ rw t (sub_memory-Shows E now _ _ _ d)
        | inr t ↦ rw t d
      ]

  fill_hash-count :
      (s : Store E) (key : Bytes) (e : Entry) (map : Fields) (old : Option ℕ) (fields : Fields)
      → (fill_hash E s key e map old fields).0 ≡ (insert_fields fields map 0).0
  unfolding fill_hash
  fill_hash-count s key e map old fields = refl

  hset_vacant-count :
      (s : Store E) (key : Bytes) (timestamp : ℕ) (fields : Fields)
      → (hset_vacant E s key timestamp fields).0 ≡ (insert_fields fields [] 0).0
  unfolding hset_vacant fill_hash
  hset_vacant-count s key timestamp fields = refl

  hset_live-Shows :
      (now : ℕ) (s : Store E) (m : Items) (key : Bytes) (e : Entry) (fields : Fields)
      (v : EntryValue)
      → Shows E now s m
      → ((hset_occupied E v s key e fields).0 ≡ (with_fields m key fields (some (v, e.expiry))).0)
        × Shows E now
            (hset_occupied E v s key e fields).1
            (with_fields m key fields (some (v, e.expiry))).1
  unfolding hset_occupied
  hset_live-Shows now s m key e fields (string v) sh = (refl, sh)
  hset_live-Shows now s m key e fields (hash map) sh =
      (ap ok (fill_hash-count s key e map _ fields), fill_hash-Shows now s m key e map _ fields sh)

  pub hset-Shows :
      (now : ℕ) (s : Store E) (m : Items) (key : Bytes) (fields : Fields)
      → Shows E now s m
      → ((hset E s key fields now).0 ≡ (with_fields m key fields (seen now (m key))).0)
        × Shows E now (hset E s key fields now).1 (with_fields m key fields (seen now (m key))).1
  unfolding hset
  hset-Shows now s m key fields start =
      let s1 = (first_access E s).1 in
      let time = (first_access E s).0 in
      let sh = quiet-Shows E now m (first_access-IsQuiet E s) start in
      elim (Option-cases (find E s1 key)) [
        | inl e ↦
            rw (e, hset, seen_missing E now s1 m key sh e)
              (
                ap ok (hset_vacant-count s1 key time fields),
                hset_vacant-Shows now s1 m key time fields sh,
              )
        | inr (old, e) ↦ elim (Bool-cases (is_expired now old.expiry)) [
          | inl x ↦
              rw (e, hset, x, seen_dead E now s1 m key old sh e x)
                (
                  ap ok (hset_vacant-count _ key time fields),
                  update_twice-Shows E now _ m key none _ (
                      hset_vacant-Shows now _ _ key time fields
                        (hset_expired-Shows now s1 m key old sh)),
                )
          | inr x ↦
              rw (e, hset, x, seen_live E now s1 m key old sh e x)
                (hset_live-Shows now s1 m key old fields old.value sh)
        ]
      ]

  field_of-field_in :
      (f : Bytes) (v : EntryValue) (expiry : Option ℕ)
      → field_of E f v ≡ field_in f (some (v, expiry))
  unfolding field_of
  field_of-field_in f (string v) expiry = refl
  field_of-field_in f (hash map) expiry = refl

  all_fields-fields_in :
      (key : Bytes) (now : ℕ) (v : EntryValue) (expiry : Option ℕ)
      → all_fields E key now v ≡ fields_in E.hash_maps key now (some (v, expiry))
  unfolding all_fields
  all_fields-fields_in key now (string v) expiry = refl
  all_fields-fields_in key now (hash map) expiry = refl

  pub hget-Shows :
      (now : ℕ) (s : Store E) (m : Items) (key f : Bytes)
      → Shows E now s m
      → ((hget E s key f now).0 ≡ field_in f (seen now (m key)))
        × Shows E now (hget E s key f now).1 m
  unfolding hget
  hget-Shows now s m key f sh = elim (Option-cases (find E s key)) [
    | inl e ↦ rw (e, hget, seen_missing E now s m key sh e) (refl, sh)
    | inr (old, e) ↦ elim (Bool-cases (is_expired now old.expiry)) [
      | inl x ↦
          rw (e, hget, x, seen_dead E now s m key old sh e x)
            (refl, expire_key-Shows E now s m key old sh e x)
      | inr x ↦
          rw (e, hget, x, seen_live E now s m key old sh e x)
            (field_of-field_in f old.value old.expiry, track_access-Shows E now s m key old sh e)
    ]
  ]

  pub hgetall-Shows :
      (now : ℕ) (s : Store E) (m : Items) (key : Bytes)
      → Shows E now s m
      → ((hgetall E s key now).0 ≡ fields_in E.hash_maps key now (seen now (m key)))
        × Shows E now (hgetall E s key now).1 m
  unfolding hgetall
  hgetall-Shows now s m key sh = elim (Option-cases (find E s key)) [
    | inl e ↦ rw (e, hgetall, seen_missing E now s m key sh e) (refl, sh)
    | inr (old, e) ↦ elim (Bool-cases (is_expired now old.expiry)) [
      | inl x ↦
          rw (e, hgetall, x, seen_dead E now s m key old sh e x)
            (refl, expire_key-Shows E now s m key old sh e x)
      | inr x ↦
          rw (e, hgetall, x, seen_live E now s m key old sh e x)
            (
              all_fields-fields_in key now old.value old.expiry,
              track_access-Shows E now s m key old sh e,
            )
    ]
  ]

-- ===== src/Store/Hashes/Balance.antt =====
-- `hset`, `hget` and `hgetall` of src/store.rs and the accounts.
use redistill.Base.{
  ℕ, ◌+◌, ◌-◌, ◌≡◌, refl, ◌∙◌, true, Option, none, some, [], arith, ltb, leb, Bytes, length,
  Bool-cases, Option-cases, inl, inr, beq_refl,
}
use redistill.Store.Dash.{weight}
use redistill.Store.Entry.{
  Entry, EntryValue, string, hash, Fields, is_expired, size_of, calculate_entry_size,
}
use redistill.Store.State.{Env, Store, IsWf, find, put, drop_key}
use redistill.Store.Access.{leave_queue, join_queue, first_access}
use redistill.Store.Laws.{total_size, total_size-put, put-IsWf, find-put, find-drop_key}
use redistill.Store.Hashes.{
  insert_fields, new_hash, settle, fill_hash, hset_vacant, hset_expired, hset_occupied, hset, hget,
  hgetall,
}
use redistill.Store.Balance.{
  IsBalanced, IsQuiet-refl, find-IsQuiet, IsWf-IsQuiet, IsBalanced-IsQuiet, IsBalanced-trans,
  free-IsBalanced, total_size-IsQuiet, memory-put, num_shards-put, sub_memory-IsBalanced,
  add_memory-IsBalanced, find-sub_memory,
}
use redistill.Store.Quiet.{
  first_access-IsQuiet, leave_queue-IsQuiet, join_queue-IsQuiet, track_access-IsBalanced,
  expire_key-IsBalanced,
}

module _ (E : Env) (tracked : ltb 0 E.config.max_memory ≡ true) where
  -- HGET, on every branch, keeps the store well-formed and changes MEMORY_USED, as a u64, by what
  -- it changes the sum of the entries' sizes by. The store is well-formed and a memory limit is
  -- set.
  pub hget-IsBalanced :
      (s : Store E) (key field : Bytes) (now : ℕ)
      → IsWf E s
      → IsBalanced E s (hget E s key field now).1
  unfolding hget
  hget-IsBalanced s key field now wf = elim (Option-cases (find E s key)) [
    | inl e ↦ rw (e, hget) (IsBalanced-IsQuiet E wf (IsQuiet-refl E s))
    | inr (old, e) ↦ elim (Bool-cases (is_expired now old.expiry)) [
      | inl x ↦ rw (e, hget, x) (expire_key-IsBalanced E s key now tracked wf)
      | inr x ↦ rw (e, hget, x) (track_access-IsBalanced E s key old wf e)
    ]
  ]

  -- HGETALL, on every branch, keeps the store well-formed and changes MEMORY_USED, as a u64, by
  -- what it changes the sum of the entries' sizes by. The store is well-formed and a memory limit
  -- is set.
  pub hgetall-IsBalanced :
      (s : Store E) (key : Bytes) (now : ℕ) → IsWf E s → IsBalanced E s (hgetall E s key now).1
  unfolding hgetall
  hgetall-IsBalanced s key now wf = elim (Option-cases (find E s key)) [
    | inl e ↦ rw (e, hgetall) (IsBalanced-IsQuiet E wf (IsQuiet-refl E s))
    | inr (old, e) ↦ elim (Bool-cases (is_expired now old.expiry)) [
      | inl x ↦ rw (e, hgetall, x) (expire_key-IsBalanced E s key now tracked wf)
      | inr x ↦ rw (e, hgetall, x) (track_access-IsBalanced E s key old wf e)
    ]
  ]

  -- From a store `s0` in which the key counted for `old_size`, to one in which its entry was given the
  -- fields that it now has.
  settle-IsBalanced :
      (s0 s : Store E) (old_size : Option ℕ) (new_size : ℕ)
      → IsWf E s
      → s.num_shards ≡ s0.num_shards
      → s.memory_used ≡ s0.memory_used
      → total_size E s + weight (λ k n. n) [] old_size ≡ total_size E s0 + new_size
      → IsBalanced E s0 (settle E s old_size new_size)
  unfolding settle
  settle-IsBalanced s0 s none new_size wf count same grown =
      rw tracked (add_memory-IsBalanced E s0 s new_size wf count same (omega arith))
  settle-IsBalanced s0 s (some old_size) new_size wf count same grown =
      elim (Bool-cases (leb old_size new_size)) [
        | inl h ↦
            rw (tracked, h)
              (add_memory-IsBalanced E s0 s (new_size - old_size) wf count same (ground arith))
        | inr h ↦
            rw (tracked, h)
              (sub_memory-IsBalanced E s0 s (old_size - new_size) wf count same (ground arith))
      ]

  -- The entry `e` of the key is in the store, and counted for `old_size` in `s0`.
  fill_hash-IsBalanced :
      (s0 s : Store E) (key : Bytes) (e : Entry) (map : Fields) (old_size : Option ℕ)
      (fields : Fields)
      → IsWf E s
      → s.num_shards ≡ s0.num_shards
      → s.memory_used ≡ s0.memory_used
      → find E s key ≡ some e
      → total_size E s + weight (λ k n. n) [] old_size ≡ total_size E s0 + size_of key e
      → IsBalanced E s0 (fill_hash E s key e map old_size fields).1
  unfolding fill_hash
  fill_hash-IsBalanced s0 s key e map old_size fields wf count same found counted =
      let map' = (insert_fields fields map 0).1 in
      let e' : Entry = record e { value = hash map' } in
      let grown : total_size E (put E s key e') + size_of key e ≡ total_size E s + size_of key e' =
        rw found at (total_size-put E s key e' wf) in
      settle-IsBalanced s0 (put E s key e') old_size (calculate_entry_size (length key) (hash map'))
        (put-IsWf E s key e' wf) (num_shards-put E s key e' ∙ count) (memory-put E s key e' ∙ same)
        (unfold size_of in omega (arith, grown, counted))

  hset_vacant-IsBalanced :
      (s : Store E) (key : Bytes) (timestamp : ℕ) (fields : Fields)
      → IsWf E s
      → find E s key ≡ none
      → IsBalanced E s (hset_vacant E s key timestamp fields).1
  unfolding hset_vacant
  hset_vacant-IsBalanced s key timestamp fields wf vacant =
      let q = join_queue-IsQuiet E s key in
      let s1 = (join_queue E s key).1 in
      let e : Entry = new_hash E timestamp (join_queue E s key).0 in
      let wf1 : IsWf E s1 = IsWf-IsQuiet E q wf in
      let grown : total_size E (put E s1 key e) + 0 ≡ total_size E s1 + size_of key e =
        rw (find-IsQuiet E q key ∙ vacant) at (total_size-put E s1 key e wf1) in
      fill_hash-IsBalanced s (put E s1 key e) key e [] none fields (put-IsWf E s1 key e wf1)
        (num_shards-put E s1 key e ∙ q.num_shards) (memory-put E s1 key e ∙ q.memory)
        (find-put E s1 key e key wf1 ∙ rw (beq_refl key))
        (omega (arith, grown, total_size-IsQuiet E q))

  hset_expired-IsBalanced :
      (s : Store E) (key : Bytes) (e : Entry)
      → IsWf E s
      → find E s key ≡ some e
      → IsBalanced E s (hset_expired E s key e) × (find E (hset_expired E s key e) key ≡ none)
  unfolding hset_expired
  hset_expired-IsBalanced s key e wf found =
      let q = leave_queue-IsQuiet E s key in
      let s1 = leave_queue E s key in
      let wf1 : IsWf E s1 = IsWf-IsQuiet E q wf in
      rw tracked (
        IsBalanced-trans E (IsBalanced-IsQuiet E wf q)
            (unfold size_of in free-IsBalanced E s1 key e wf1 (find-IsQuiet E q key ∙ found)),
        find-sub_memory E (drop_key E s1 key) _ key
            ∙ find-drop_key E s1 key key wf1
            ∙ rw (beq_refl key),
      )

  hset_occupied-IsBalanced :
      (v : EntryValue) (s : Store E) (key : Bytes) (e : Entry) (fields : Fields)
      → e.value ≡ v
      → IsWf E s
      → find E s key ≡ some e
      → IsBalanced E s (hset_occupied E v s key e fields).1
  unfolding hset_occupied
  hset_occupied-IsBalanced (string bytes) s key e fields is wf found =
      IsBalanced-IsQuiet E wf (IsQuiet-refl E s)
  hset_occupied-IsBalanced (hash map) s key e fields is wf found =
      fill_hash-IsBalanced s s key e map (some (calculate_entry_size (length key) (hash map)))
        fields wf refl refl found (unfold size_of in rw is)

  -- HSET, on a missing, expired, live or wrong-typed key, keeps the store well-formed and changes
  -- MEMORY_USED, as a u64, by what it changes the sum of the entries' sizes by. The store is
  -- well-formed and a memory limit is set.
  pub hset-IsBalanced :
      (s : Store E) (key : Bytes) (fields : Fields) (now : ℕ)
      → IsWf E s
      → IsBalanced E s (hset E s key fields now).1
  unfolding hset
  hset-IsBalanced s key fields now wf =
      let q = first_access-IsQuiet E s in
      let s1 = (first_access E s).1 in
      let wf1 : IsWf E s1 = IsWf-IsQuiet E q wf in
      IsBalanced-trans E (IsBalanced-IsQuiet E wf q) (elim (Option-cases (find E s1 key)) [
        | inl e ↦ rw (e, hset) (hset_vacant-IsBalanced s1 key _ fields wf1 e)
        | inr (old, e) ↦ elim (Bool-cases (is_expired now old.expiry)) [
          | inl x ↦
              rw (e, hset, x)
                (let (b, gone) = hset_expired-IsBalanced s1 key old wf1 e in
                  IsBalanced-trans E b (hset_vacant-IsBalanced _ key _ fields b.wf gone))
          | inr x ↦
              rw (e, hset, x) (hset_occupied-IsBalanced old.value s1 key old fields refl wf1 e)
        ]
      ])

-- ===== src/Store/Strings/Balance.antt =====
-- The string operations of src/store.rs and the accounts.
use redistill.Base.{
  ℕ, ◌+◌, ◌≡◌, ◌∙◌, true, Option, List, [], ◌∷◌, arith, ltb, Bytes, length, Bool-cases,
  Option-cases, inl, inr,
}
use redistill.Store.Dash.{weight}
use redistill.Store.Entry.{Entry, string, is_expired, size_of, calculate_entry_size, entry_size}
use redistill.Store.State.{Env, Store, IsWf, find}
use redistill.Store.Access.{leave_queue, join_queue, first_access}
use redistill.Store.Laws.{total_size, total_size-put, put-IsWf}
use redistill.Store.Strings.{size_in, set, get, key_type, delete_one, delete, expiry_of}
use redistill.Store.Balance.{
  IsBalanced, IsQuiet, IsQuiet-refl, IsQuiet-trans, find-IsQuiet, IsWf-IsQuiet, IsBalanced-IsQuiet,
  IsBalanced-trans, free-IsBalanced, total_size-IsQuiet, memory-put, num_shards-put,
}
use redistill.Store.Quiet.{
  first_access-IsQuiet, leave_queue-IsQuiet, join_queue-IsQuiet, track_access-IsBalanced,
  expire_key-IsBalanced,
}

module _ (E : Env) (tracked : ltb 0 E.config.max_memory ≡ true) where
  IsBalanced-refl : (s : Store E) → IsWf E s → IsBalanced E s s
  IsBalanced-refl s wf = IsBalanced-IsQuiet E wf (IsQuiet-refl E s)

  -- Reading a key, which removes an entry that has expired and moves others between the queues,
  -- keeps the store well-formed and changes MEMORY_USED, as a u64, by what it changes the sum of
  -- the entries' sizes by. The store is well-formed and a memory limit is set.
  pub get-IsBalanced :
      (s : Store E) (key : Bytes) (now : ℕ) → IsWf E s → IsBalanced E s (get E s key now).1
  unfolding get
  get-IsBalanced s key now wf = elim (Option-cases (find E s key)) [
    | inl e ↦ rw (e, get) (IsBalanced-refl s wf)
    | inr (old, e) ↦ elim (Bool-cases (is_expired now old.expiry)) [
      | inl x ↦ rw (e, get, x) (expire_key-IsBalanced E s key now tracked wf)
      | inr x ↦ rw (e, get, x) (track_access-IsBalanced E s key old wf e)
    ]
  ]

  pub key_type-IsBalanced :
      (s : Store E) (key : Bytes) (now : ℕ) → IsWf E s → IsBalanced E s (key_type E s key now).1
  unfolding key_type
  key_type-IsBalanced s key now wf = elim (Option-cases (find E s key)) [
    | inl e ↦ rw (e, key_type) (IsBalanced-refl s wf)
    | inr (old, e) ↦ elim (Bool-cases (is_expired now old.expiry)) [
      | inl x ↦ rw (e, key_type, x) (expire_key-IsBalanced E s key now tracked wf)
      | inr x ↦ rw (e, key_type, x) (IsBalanced-refl s wf)
    ]
  ]

  delete_one-IsBalanced :
      (s : Store E) (key : Bytes) (now : ℕ) → IsWf E s → IsBalanced E s (delete_one E s key now).1
  unfolding delete_one
  delete_one-IsBalanced s key now wf =
      let q = leave_queue-IsQuiet E s key in
      let s1 = leave_queue E s key in
      let wf1 = IsWf-IsQuiet E q wf in
      IsBalanced-trans E (IsBalanced-IsQuiet E wf q) (elim (Option-cases (find E s1 key)) [
        | inl e ↦ rw (e, delete_one) (IsBalanced-refl s1 wf1)
        | inr (old, e) ↦
            rw (e, delete_one, tracked) (unfold size_of in free-IsBalanced E s1 key old wf1 e)
      ])

  -- DEL of any keys, expired ones and repeated ones among them, keeps the store well-formed and
  -- changes MEMORY_USED, as a u64, by what it changes the sum of the entries' sizes by. The store
  -- is well-formed and a memory limit is set.
  pub delete-IsBalanced :
      (s : Store E) (keys : List Bytes) (now : ℕ)
      → IsWf E s
      → IsBalanced E s (delete E s keys now).1
  unfolding delete
  delete-IsBalanced s [] now wf = IsBalanced-refl s wf
  delete-IsBalanced s (key ∷ keys) now wf =
      let b = delete_one-IsBalanced s key now wf in
      IsBalanced-trans E b (delete-IsBalanced (delete_one E s key now).1 keys now b.wf)

-- `set` leaves MEMORY_USED to its callers: it returns what the old entry counted for.
pub record IsStored (E : Env) (s : Store E) (key value : Bytes) (r : Option ℕ × Store E)
    : Type 0 where
  pub wf : IsWf E r.1
  pub num_shards : r.1.num_shards ≡ s.num_shards
  pub memory : r.1.memory_used ≡ s.memory_used
  pub old_size : r.0 ≡ size_in E key (find E s key)
  pub grown :
      total_size E r.1 + weight size_of key (find E s key)
      ≡ total_size E s + entry_size (length key) (length value)

module _ (E : Env) where
  pub set-IsStored :
      (s : Store E) (key value : Bytes) (ttl : Option ℕ) (now : ℕ)
      → IsWf E s
      → IsStored E s key value (set E s key value ttl now)
  unfolding set
  set-IsStored s key value ttl now wf =
      let s1 = (first_access E s).1 in
      let s2 = leave_queue E s1 key in
      let s3 = (join_queue E s2 key).1 in
      let q : IsQuiet E s s3 =
        IsQuiet-trans E (first_access-IsQuiet E s)
          (IsQuiet-trans E (leave_queue-IsQuiet E s1 key) (join_queue-IsQuiet E s2 key)) in
      let wf3 : IsWf E s3 = IsWf-IsQuiet E q wf in
      let e : Entry = record {
        value = string value;
        expiry = expiry_of ttl now;
        last_accessed = (first_access E s).0;
        queue_type = (join_queue E s2 key).0;
        access_count = 0;
      } in
      record {
        wf = put-IsWf E s3 key e wf3;
        num_shards = num_shards-put E s3 key e ∙ q.num_shards;
        memory = memory-put E s3 key e ∙ q.memory;
        old_size = rw (find-IsQuiet E q key);
        grown =
            let h = total_size-put E s3 key e wf3 in
            let f = find-IsQuiet E q key in
            rw (← f)
              (unfold size_of calculate_entry_size in omega (arith, total_size-IsQuiet E q, h));
      }

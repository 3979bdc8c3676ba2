-- ===== src/Store/Strings/Lookup.antt =====
-- What `get`, `set` and `delete` of src/store.rs do to the entries that are found.
use redistill.Base.{
  ◌∙◌, ℕ, ◌≡◌, ◌≢◌, refl, Bool, false, ◌||◌, Option, none, some, List, [], ◌∷◌, arith, ltb,
  if◌then◌else◌, Bytes, beq, beq_iff, beq_refl, Bool-cases, Option-cases, inl, inr, length,
}
use redistill.Store.Entry.{Entry, string, is_expired, calculate_entry_size}
use redistill.Store.State.{Env, Store, IsWf, find, drop_key}
use redistill.Store.Access.{leave_queue, join_queue, first_access}
use redistill.Store.Laws.{find-put, find-drop_key, drop_key-IsWf}
use redistill.Store.Balance.{
  IsQuiet, IsQuiet-trans, find-IsQuiet, IsWf-IsQuiet, find-sub_memory, sub_memory-IsWf,
}
use redistill.Store.Quiet.{first_access-IsQuiet, leave_queue-IsQuiet, join_queue-IsQuiet}
use redistill.Store.Strings.{expiry_of, as_string, set, get, delete_one, delete}

abbrev pub is_among : Bytes → List Bytes → Bool
is_among j [] = false
is_among j (k ∷ keys) = beq k j || is_among j keys

module _ (E : Env) where
  pub find-set :
      (s : Store E) (key value : Bytes) (ttl : Option ℕ) (now : ℕ)
      → IsWf E s
      → (e : Entry) × (e.value ≡ string value)
        × (e.expiry ≡ expiry_of ttl now)
        × ((j : Bytes)
            → find E (set E s key value ttl now).1 j ≡ (if beq key j then some e else find E s j))
  unfolding set
  find-set s key value ttl now wf =
      let s1 = (first_access E s).1 in
      let s2 = leave_queue E s1 key in
      let s3 = (join_queue E s2 key).1 in
      let q : IsQuiet E s s3 =
        IsQuiet-trans E (first_access-IsQuiet E s)
          (IsQuiet-trans E (leave_queue-IsQuiet E s1 key) (join_queue-IsQuiet E s2 key)) in
      let e : Entry = record {
        value = string value;
        expiry = expiry_of ttl now;
        last_accessed = (first_access E s).0;
        queue_type = (join_queue E s2 key).0;
        access_count = 0;
      } in
      (e, refl, refl, λ j. find-put E s3 key e j (IsWf-IsQuiet E q wf) ∙ rw (find-IsQuiet E q j))

  get_found :
      (s : Store E) (key : Bytes) (now : ℕ) (e : Entry)
      → find E s key ≡ some e
      → (get E s key now).0 ≡ (if is_expired now e.expiry then none else as_string e.value)
  unfolding get
  get_found s key now e found = elim (Bool-cases (is_expired now e.expiry)) [
    | inl x ↦ rw (found, get, x)
    | inr x ↦ rw (found, get, x)
  ]

  -- What set stored, get returns at any later or earlier moment, until the expiry that set computed
  -- in u64; whatever stood at the key before is gone. The store is well-formed.
  pub get-set :
      (s : Store E) (key value : Bytes) (ttl : Option ℕ) (now later : ℕ)
      → IsWf E s
      → (get E (set E s key value ttl now).1 key later).0
        ≡ (if is_expired later (expiry_of ttl now) then none else some value)
  get-set s key value ttl now later wf =
      let (e, v, x, f) = find-set s key value ttl now wf in
      let h : find E (set E s key value ttl now).1 key ≡ some e = f key ∙ rw (beq_refl key) in
      get_found (set E s key value ttl now).1 key later e h ∙ rw (v, x) (unfold as_string in refl)

  -- Setting a key leaves what is found at any other key as it was. The store is well-formed.
  pub find-set_other :
      (s : Store E) (key value : Bytes) (ttl : Option ℕ) (now : ℕ) (j : Bytes)
      → IsWf E s
      → key ≢ j
      → find E (set E s key value ttl now).1 j ≡ find E s j
  find-set_other s key value ttl now j wf ne =
      let (e, v, x, f) = find-set s key value ttl now wf in f j ∙ ground (arith, beq_iff key j, ne)

  lacking :
      (s : Store E) (key j : Bytes)
      → find E s key ≡ none
      → find E s j ≡ (if beq key j then none else find E s j)
  lacking s key j e = elim (Bool-cases (beq key j)) [
    | inl b ↦ let same : key ≡ j = (beq_iff key j).0 b in rw (b, ← same) e
    | inr b ↦ rw b
  ]

  pub find-delete_one :
      (s : Store E) (key : Bytes) (now : ℕ) (j : Bytes)
      → IsWf E s
      → (find E (delete_one E s key now).1 j ≡ (if beq key j then none else find E s j))
        × IsWf E (delete_one E s key now).1
  unfolding delete_one
  find-delete_one s key now j wf =
      let q = leave_queue-IsQuiet E s key in
      let s1 = leave_queue E s key in
      let wf1 = IsWf-IsQuiet E q wf in
      let same : find E s1 j ≡ find E s j = find-IsQuiet E q j in
      let gone = find-drop_key E s1 key j wf1 in
      elim (Option-cases (find E s1 key)) [
        | inl e ↦ (rw (e, delete_one) (lacking s1 key j e ∙ rw same), rw (e, delete_one) wf1)
        | inr (old, e) ↦ elim (Bool-cases (ltb 0 E.config.max_memory)) [
          | inl t ↦ (
            rw (e, delete_one, t)
                (find-sub_memory E (drop_key E s1 key) (calculate_entry_size (length key) old.value)
                    j
                  ∙ gone
                  ∙ rw same),
            rw (e, delete_one, t)
                (sub_memory-IsWf E (drop_key E s1 key) (calculate_entry_size (length key) old.value)
                  (drop_key-IsWf E s1 key wf1)),
          )
          | inr t ↦ (
            rw (e, delete_one, t) (gone ∙ rw same),
            rw (e, delete_one, t) (drop_key-IsWf E s1 key wf1),
          )
        ]
      ]

  -- After delete none of its keys is found, and every other key is found as before. The store is
  -- well-formed.
  pub find-delete :
      (s : Store E) (keys : List Bytes) (now : ℕ) (j : Bytes)
      → IsWf E s
      → find E (delete E s keys now).1 j ≡ (if is_among j keys then none else find E s j)
  unfolding delete
  find-delete s [] now j wf = refl
  find-delete s (key ∷ keys) now j wf =
      let (f, wf1) = find-delete_one s key now j wf in
      rw (find-delete (delete_one E s key now).1 keys now j wf1, f) (ground arith)

-- ===== src/Store/Hashes/Shrink.antt =====
-- `hdel` of src/store.rs and the accounts.
use redistill.Store.Laws.{find-drop_key}
use redistill.Base.{
  lt→ltb, beq_refl, ℕ, ◌+◌, ◌≤◌, ◌<◌, ◌%◌, ◌^◌, ◌≡◌, refl, ◌∙◌, true, false, none, some, List, [],
  ◌∷◌, arith, ltb, Bytes, length, Bool-cases, Option-cases, inl, inr,
}
use redistill.Store.Entry.{
  Entry, EntryValue, string, hash, Fields, is_expired, size_of, calculate_entry_size, add_sizes,
  field_get, field_remove,
}
use redistill.Store.State.{Env, Store, IsWf, find, put, drop_key, sub_memory}
use redistill.Store.Laws.{total_size, total_size-put, put-IsWf, find-put}
use redistill.Store.Hashes.{
  is_empty, is_empty_hash, drop_empty, shrink, remove_fields, hdel_in, hdel,
}
use redistill.Store.Balance.{
  IsBalanced, IsAccounted, IsQuiet-refl, IsBalanced-IsQuiet, put-IsBalanced, free-IsBalanced,
  memory-put, find-sub_memory, num_shards-put, sub_memory-IsBalanced,
}
use redistill.Store.Quiet.{expire_key-IsBalanced}

-- The bytes of the fields and values.
abbrev pub fields_size : Fields → ℕ
fields_size [] = 0
fields_size ((k, v) ∷ map) = length k + length v + fields_size map

add_sizes-fields_size : (n : ℕ) (map : Fields) → add_sizes n map ≡ n + fields_size map
unfolding add_sizes
add_sizes-fields_size n [] = omega arith
add_sizes-fields_size n ((k, v) ∷ map) =
    omega (arith, add_sizes-fields_size (n + (length k + length v)) map)

pub calculate_entry_size-hash :
    (n : ℕ) (map : Fields) → calculate_entry_size n (hash map) ≡ n + 64 + 128 + fields_size map
unfolding calculate_entry_size
calculate_entry_size-hash n map = add_sizes-fields_size (n + 64 + 128) map

fields_size-field_remove :
    (f : Bytes) (map : Fields) → fields_size (field_remove f map) ≤ fields_size map
unfolding field_remove
fields_size-field_remove f [] = omega arith
fields_size-field_remove f ((g, u) ∷ map) = ground (arith, fields_size-field_remove f map)

field_remove_of_lacking :
    (f : Bytes) (map : Fields) → field_get f map ≡ none → field_remove f map ≡ map
unfolding field_get field_remove
field_remove_of_lacking f [] h = refl
field_remove_of_lacking f ((g, u) ∷ map) h = ground (arith, field_remove_of_lacking f map)

-- The fields only shrink, and keep their size when nothing is counted as removed.
remove_fields_size :
    (fields : List Bytes) (map : Fields) (n : ℕ)
    → (n ≤ (remove_fields fields map n).0)
      × (fields_size (remove_fields fields map n).1 ≤ fields_size map)
      × ((remove_fields fields map n).0 ≡ n
          → fields_size (remove_fields fields map n).1 ≡ fields_size map)
unfolding remove_fields
remove_fields_size [] map n = (omega arith, omega arith, λ e. refl)
remove_fields_size (f ∷ fields) map n = elim (Option-cases (field_get f map)) [
  | inl e ↦ rw (remove_fields, e, field_remove_of_lacking f map e) (remove_fields_size fields map n)
  | inr (v, e) ↦
      let (more, less, _) = remove_fields_size fields (field_remove f map) (n + 1) in
      rw (remove_fields, e)
        (
          omega arith,
          omega (arith, less, fields_size-field_remove f map),
          λ same. absurd (omega (arith, more, same)),
        )
]

is_empty-size : (map : Fields) → is_empty map ≡ true → fields_size map ≡ 0
unfolding is_empty
is_empty-size [] h = refl
is_empty-size (f ∷ map) h = cc

module _ (E : Env) (tracked : ltb 0 E.config.max_memory ≡ true) where
  -- The entry of the key is written with fewer fields, and the difference freed.
  shrink-IsBalanced :
      (s : Store E) (key : Bytes) (e : Entry) (map map' : Fields)
      → IsWf E s
      → find E s key ≡ some e
      → e.value ≡ hash map
      → fields_size map' ≤ fields_size map
      → IsBalanced E s (
          shrink E
            (put E s key (record e { value = hash map' }))
            key
            (calculate_entry_size (length key) (hash map))
            (calculate_entry_size (length key) (hash map')))
  unfolding shrink
  shrink-IsBalanced s key e map map' wf found is less =
      let e' : Entry = record e { value = hash map' } in
      let old : size_of key e ≡ length key + 64 + 128 + fields_size map =
        unfold size_of in rw is (calculate_entry_size-hash (length key) map) in
      let new : size_of key e' ≡ length key + 64 + 128 + fields_size map' =
        unfold size_of in calculate_entry_size-hash (length key) map' in
      let grown : total_size E (put E s key e') + size_of key e ≡ total_size E s + size_of key e' =
        rw found at (total_size-put E s key e' wf) in
      let so = calculate_entry_size-hash (length key) map in
      let sn = calculate_entry_size-hash (length key) map' in
      elim (Bool-cases (
        ltb (calculate_entry_size (length key) (hash map'))
          (calculate_entry_size (length key) (hash map)))) [
            | inl h ↦
                rw (tracked, h)
                  (sub_memory-IsBalanced E s (put E s key e') _ (put-IsWf E s key e' wf)
                    (num_shards-put E s key e') (memory-put E s key e')
                    (ground (arith, grown, old, new, so, sn)))
            | inr h ↦
                rw (tracked, h)
                  (put-IsBalanced E s key e e' wf found (ground (arith, old, new, so, sn)))
          ]

  hdel_in-IsBalanced :
      (v : EntryValue) (s : Store E) (key : Bytes) (e : Entry) (fields : List Bytes)
      → IsWf E s
      → find E s key ≡ some e
      → e.value ≡ v
      → ((map : Fields) → v ≡ hash map → is_empty (remove_fields fields map 0).1 ≡ false)
      → IsBalanced E s (hdel_in E v s key e fields).1
  unfolding hdel_in
  hdel_in-IsBalanced (string bytes) s key e fields wf found is some_left =
      IsBalanced-IsQuiet E wf (IsQuiet-refl E s)
  hdel_in-IsBalanced (hash map) s key e fields wf found is some_left =
      let (_, less, same) = remove_fields_size fields map 0 in
      let map' = (remove_fields fields map 0).1 in
      let e' : Entry = record e { value = hash map' } in
      elim (Bool-cases (ltb 0 (remove_fields fields map 0).0)) [
        | inl h ↦ rw (h, some_left map refl) (shrink-IsBalanced s key e map map' wf found is less)
        | inr h ↦ rw h (
            put-IsBalanced E s key e e' wf found (
              unfold size_of in
              rw is (
                omega (
                  arith,
                  same (ground arith),
                  calculate_entry_size-hash (length key) map,
                  calculate_entry_size-hash (length key) map',
                ))))
      ]

  -- HDEL keeps the store well-formed and changes MEMORY_USED, as a u64, by what it changes the sum
  -- of the entries' sizes by, if the key, where it holds a hash, is left a field. The store is
  -- well-formed and a memory limit is set.
  pub hdel-IsBalanced :
      (s : Store E) (key : Bytes) (fields : List Bytes) (now : ℕ)
      → IsWf E s
      → ((e : Entry) (map : Fields)
          → find E s key ≡ some e
          → e.value ≡ hash map
          → is_empty (remove_fields fields map 0).1 ≡ false)
      → IsBalanced E s (hdel E s key fields now).1
  unfolding hdel
  hdel-IsBalanced s key fields now wf some_left = elim (Option-cases (find E s key)) [
    | inl e ↦ rw (e, hdel) (IsBalanced-IsQuiet E wf (IsQuiet-refl E s))
    | inr (old, e) ↦ elim (Bool-cases (is_expired now old.expiry)) [
      | inl x ↦ rw (e, hdel, x) (expire_key-IsBalanced E s key now tracked wf)
      | inr x ↦
          rw (e, hdel, x)
            (hdel_in-IsBalanced old.value s key old fields wf e refl
              λ map is. some_left old map e is)
    ]
  ]

  -- The emptied hash is dropped: what is freed is its size now, not what it counted for.
  drop_empty_lem :
      (s : Store E) (key : Bytes) (e : Entry) (old_size : ℕ)
      → IsWf E s
      → is_empty_hash e.value ≡ true
      → drop_empty E (put E s key e) key old_size
        ≡ sub_memory E (drop_key E (put E s key e) key) (size_of key e)
  unfolding drop_empty size_of
  drop_empty_lem s key e old_size wf empty =
      rw (drop_empty, find-put E s key e key wf, beq_refl key, tracked, empty)

  hdel_emptied :
      (s : Store E) (key : Bytes) (fields : List Bytes) (now : ℕ) (e : Entry) (map : Fields)
      → IsWf E s
      → find E s key ≡ some e
      → is_expired now e.expiry ≡ false
      → e.value ≡ hash map
      → 0 < (remove_fields fields map 0).0
      → is_empty (remove_fields fields map 0).1 ≡ true
      → let e' : Entry = record e { value = hash (remove_fields fields map 0).1 } in
        (hdel E s key fields now).1
        ≡ sub_memory E (drop_key E (put E s key e') key) (size_of key e')
  unfolding hdel hdel_in is_empty_hash
  hdel_emptied s key fields now e map wf found live is some_gone empty =
      rw (found, hdel, live, is, lt→ltb 0 (remove_fields fields map 0).0 some_gone, empty)
        (drop_empty_lem s key (record e { value = hash (remove_fields fields map 0).1 }) _ wf empty)

  -- When HDEL removes the last fields of a live hash, at least one of them, the key is gone and
  -- MEMORY_USED, which was right before, exceeds the sum of the sizes, as a u64, by the bytes of
  -- all its fields. The store is well-formed and a memory limit is set.
  pub hdel_leaks :
      (s : Store E) (key : Bytes) (fields : List Bytes) (now : ℕ) (e : Entry) (map : Fields)
      → IsWf E s
      → find E s key ≡ some e
      → is_expired now e.expiry ≡ false
      → e.value ≡ hash map
      → 0 < (remove_fields fields map 0).0
      → is_empty (remove_fields fields map 0).1 ≡ true
      → IsAccounted E s
      → (find E (hdel E s key fields now).1 key ≡ none)
        × ((hdel E s key fields now).1.memory_used % 2 ^ 64
            ≡ (total_size E (hdel E s key fields now).1 + fields_size map) % 2 ^ 64)
  hdel_leaks s key fields now e map wf found live is some_gone empty right =
      let map' = (remove_fields fields map 0).1 in
      let e' : Entry = record e { value = hash map' } in
      let s1 = put E s key e' in
      let wf1 : IsWf E s1 = put-IsWf E s key e' wf in
      let found1 : find E s1 key ≡ some e' = find-put E s key e' key wf ∙ rw (beq_refl key) in
      let old : size_of key e ≡ length key + 64 + 128 + fields_size map =
        unfold size_of in rw is (calculate_entry_size-hash (length key) map) in
      let new : size_of key e' ≡ length key + 64 + 128 + fields_size map' =
        unfold size_of in calculate_entry_size-hash (length key) map' in
      let grown : total_size E s1 + size_of key e ≡ total_size E s + size_of key e' =
        rw found at (total_size-put E s key e' wf) in
      let b = free-IsBalanced E s1 key e' wf1 found1 in
      rw (hdel_emptied s key fields now e map wf found live is some_gone empty) (
        find-sub_memory E (drop_key E s1 key) _ key
            ∙ find-drop_key E s1 key key wf1
            ∙ rw (beq_refl key),
        omega (arith, b.even, memory-put E s key e', grown, old, new, is_empty-size map' empty),
      )

-- ===== src/Store/View/Lookups.antt =====
-- What the operations of src/store.rs leave to be found of every key.
use redistill.Base.{
  ℕ, ◌≤◌, ◌≡◌, sym, ◌∙◌, inl, inr, true, Option, none, some, arith, ltb, if◌then◌else◌, Bytes, beq,
  length, Bool-cases, Option-cases, beq_iff,
}
use redistill.Store.Entry.{Entry, EntryValue, is_expired, calculate_entry_size}
use redistill.Store.State.{Env, Store, IsWf, find, drop_key}
use redistill.Store.Access.{expire_key, track_access}
use redistill.Store.Laws.{find-put, find-drop_key, put-IsWf, drop_key-IsWf}
use redistill.Store.Balance.{find-IsQuiet, IsWf-IsQuiet, find-sub_memory, sub_memory-IsWf}
use redistill.Store.Quiet.{track_access-IsTracked}
use redistill.Store.View.{item_of, seen}

-- Once expired, an item is not seen any more.
pub seen_expired :
    (now later : ℕ) (value : EntryValue) (expiry : Option ℕ)
    → is_expired now expiry ≡ true
    → now ≤ later
    → seen later (some (value, expiry)) ≡ none
unfolding is_expired
seen_expired now later value none x h = absurd (ground (arith, x))
seen_expired now later value (some exp) x h = ground arith

module _ (E : Env) where
  pub expire_key-IsWf :
      (s : Store E) (key : Bytes) (now : ℕ) → IsWf E s → IsWf E (expire_key E s key now)
  unfolding expire_key
  expire_key-IsWf s key now wf = elim (Option-cases (find E s key)) [
    | inl e ↦ rw (e, expire_key) wf
    | inr (old, e) ↦ elim (Bool-cases (is_expired now old.expiry)) [
      | inr x ↦ rw (e, expire_key, x) wf
      | inl x ↦ elim (Bool-cases (ltb 0 E.config.max_memory)) [
        | inl t ↦ rw (e, expire_key, x, t) (sub_memory-IsWf E _ _ (drop_key-IsWf E s key wf))
        | inr t ↦ rw (e, expire_key, x, t) (drop_key-IsWf E s key wf)
      ]
    ]
  ]

  find-expire_key :
      (s : Store E) (key : Bytes) (now : ℕ) (old : Entry) (j : Bytes)
      → IsWf E s
      → find E s key ≡ some old
      → is_expired now old.expiry ≡ true
      → find E (expire_key E s key now) j ≡ (if beq key j then none else find E s j)
  unfolding expire_key
  find-expire_key s key now old j wf e x = elim (Bool-cases (ltb 0 E.config.max_memory)) [
    | inl t ↦
        rw (e, expire_key, x, t)
          (find-sub_memory E (drop_key E s key) (calculate_entry_size (length key) old.value) j
            ∙ find-drop_key E s key j wf)
    | inr t ↦ rw (e, expire_key, x, t) (find-drop_key E s key j wf)
  ]

  -- Removing an expired key changes nothing that is seen from then on.
  pub seen-expire_key :
      (s : Store E) (key : Bytes) (now later : ℕ) (old : Entry) (j : Bytes)
      → IsWf E s
      → find E s key ≡ some old
      → is_expired now old.expiry ≡ true
      → now ≤ later
      → seen later (item_of (find E (expire_key E s key now) j)) ≡ seen later (item_of (find E s j))
  seen-expire_key s key now later old j wf e x h =
      let f = find-expire_key s key now old j wf e x in
      elim (Bool-cases (beq key j)) [
        | inr b ↦ rw (f, b)
        | inl b ↦
            let same : key ≡ j = (beq_iff key j).0 b in
            rw (f, b, ← same, e) (sym (seen_expired now later old.value old.expiry x h))
      ]

  -- An access leaves every item as it was.
  pub item_of-track_access :
      (s : Store E) (key : Bytes) (e : Entry) (j : Bytes)
      → IsWf E s
      → find E s key ≡ some e
      → item_of (find E (track_access E s key e) j) ≡ item_of (find E s j)
  item_of-track_access s key e j wf found =
      let t = track_access-IsTracked E s key e in
      let f = find-put E t.base key t.entry j (IsWf-IsQuiet E t.quiet wf) in
      elim (Bool-cases (beq key j)) [
        | inr b ↦ rw (t.result, f, b, find-IsQuiet E t.quiet j)
        | inl b ↦
            let same : key ≡ j = (beq_iff key j).0 b in
            rw (t.result, f, b, ← same, found, t.same_value, t.same_expiry)
      ]

  pub track_access-IsWf :
      (s : Store E) (key : Bytes) (e : Entry) → IsWf E s → IsWf E (track_access E s key e)
  track_access-IsWf s key e wf =
      let t = track_access-IsTracked E s key e in
      rw t.result (put-IsWf E t.base key t.entry (IsWf-IsQuiet E t.quiet wf))

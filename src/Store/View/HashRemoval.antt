-- ===== src/Store/View/HashRemoval.antt =====
-- `hdel` of src/store.rs against the map that the store stands for.
use redistill.Base.{
  ℕ, ◌≡◌, refl, ap, ◌∙◌, inl, inr, true, none, some, List, ltb, if◌then◌else◌, Bytes, Bool-cases,
  Option-cases, beq_refl,
}
use redistill.Store.Entry.{Entry, EntryValue, string, hash, is_expired}
use redistill.Store.State.{Env, Store, find, put}
use redistill.Store.Laws.{find-put}
use redistill.Store.Hashes.{
  remove_fields, is_empty, is_empty_hash, drop_empty, shrink, hdel_in, hdel,
}
use redistill.Store.View.{Items, seen, update, without_fields, Shows}
use redistill.Store.View.Moves.{
  sub_memory-Shows, put-Shows, drop_key-Shows, update_twice-Shows, expire_key-Shows, seen_live,
  seen_dead, seen_missing,
}

module _ (E : Env) where
  shrink-Shows :
      (now : ℕ) (s : Store E) (m : Items) (key : Bytes) (old_size new_size : ℕ)
      → Shows E now s m
      → Shows E now (shrink E s key old_size new_size) m
  unfolding shrink
  shrink-Shows now s m key old_size new_size sh = elim (Bool-cases (ltb 0 E.config.max_memory)) [
    | inr t ↦ rw t sh
    | inl t ↦ elim (Bool-cases (ltb new_size old_size)) [
      | inl l ↦ rw (t, l) (sub_memory-Shows E now s m _ sh)
      | inr l ↦ rw (t, l) sh
    ]
  ]

  drop_empty-Shows :
      (now : ℕ) (s : Store E) (m : Items) (key : Bytes) (e : Entry) (old_size : ℕ)
      → find E s key ≡ some e
      → is_empty_hash e.value ≡ true
      → Shows E now s m
      → Shows E now (drop_empty E s key old_size) (update m key none)
  unfolding drop_empty
  drop_empty-Shows now s m key e old_size found empty sh =
      let d = drop_key-Shows E now s m key sh in
      elim (Bool-cases (ltb 0 E.config.max_memory)) [
        | inl t ↦ rw (found, drop_empty, empty, t) (sub_memory-Shows E now _ _ _ d)
        | inr t ↦ rw (found, drop_empty, empty, t) d
      ]

  hdel_live-Shows :
      (now : ℕ) (s : Store E) (m : Items) (key : Bytes) (e : Entry) (fields : List Bytes)
      (v : EntryValue)
      → Shows E now s m
      → ((hdel_in E v s key e fields).0 ≡ (without_fields m key fields (some (v, e.expiry))).0)
        × Shows E now
            (hdel_in E v s key e fields).1
            (without_fields m key fields (some (v, e.expiry))).1
  unfolding hdel_in is_empty_hash
  hdel_live-Shows now s m key e fields (string v) sh = (refl, sh)
  hdel_live-Shows now s m key e fields (hash map) sh =
      let left = (remove_fields fields map 0).1 in
      let e1 : Entry = record e { value = hash left } in
      let p = put-Shows E now s m key e1 sh in
      let found : find E (put E s key e1) key ≡ some e1 =
        find-put E s key e1 key sh.wf
        ∙ ap (λ b. if b then some e1 else find E s key) (beq_refl key) in
      elim (Bool-cases (ltb 0 (remove_fields fields map 0).0)) [
        | inr none_gone ↦ rw none_gone (refl, p)
        | inl gone ↦ elim (Bool-cases (is_empty left)) [
          | inl empty ↦
              rw (gone, empty)
                (
                  refl,
                  update_twice-Shows E now _ m key _ none
                      (drop_empty-Shows now _ _ key e1 _ found empty p),
                )
          | inr full ↦ rw (gone, full) (refl, shrink-Shows now _ _ key _ _ p)
        ]
      ]

  pub hdel-Shows :
      (now : ℕ) (s : Store E) (m : Items) (key : Bytes) (fields : List Bytes)
      → Shows E now s m
      → ((hdel E s key fields now).0 ≡ (without_fields m key fields (seen now (m key))).0)
        × Shows E now (hdel E s key fields now).1 (without_fields m key fields (seen now (m key))).1
  unfolding hdel
  hdel-Shows now s m key fields sh = elim (Option-cases (find E s key)) [
    | inl e ↦ rw (e, hdel, seen_missing E now s m key sh e) (refl, sh)
    | inr (old, e) ↦ elim (Bool-cases (is_expired now old.expiry)) [
      | inl x ↦
          rw (e, hdel, x, seen_dead E now s m key old sh e x)
            (refl, expire_key-Shows E now s m key old sh e x)
      | inr x ↦
          rw (e, hdel, x, seen_live E now s m key old sh e x)
            (hdel_live-Shows now s m key old fields old.value sh)
    ]
  ]

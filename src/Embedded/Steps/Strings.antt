-- ===== src/Embedded/Steps/Strings.antt =====
-- Strings, keys and `delete` of src/lib.rs against the map that the store stands for.
use redistill.Base.{
  ℕ, ◌≤◌, ◌≡◌, refl, inl, inr, none, List, [], ◌∷◌, arith, Bytes, Bool-cases, Option-cases,
}
use redistill.Store.Entry.{EntryValue, string, hash, is_expired}
use redistill.Store.Strings.{as_string, type_of}
use redistill.Store.View.{
  Items, seen, string_of, kind_of, one_if_some, update, remove_all, count_all,
}
use redistill.Embedded
use redistill.Embedded.{Crates, ShardedStore, new_entry, find, put, drop_key}
use redistill.Embedded.Grouped.{delete_each}
use redistill.Embedded.Steps.Moves.{Shows, drop_key-Shows, expired-Shows, seen_found, seen_missing}

-- The operations of the store.
module _ (C : Crates) (now : ℕ) where
  get_value-as_string : (v : EntryValue) → Embedded.get_value C v ≡ as_string v
  unfolding Embedded.get_value as_string
  get_value-as_string (string v) = refl
  get_value-as_string (hash map) = refl

  type_name-type_of : (v : EntryValue) → Embedded.type_name C v ≡ type_of v
  unfolding Embedded.type_name type_of
  type_name-type_of (string v) = refl
  type_name-type_of (hash map) = refl

  pub get-Shows :
      (s : ShardedStore C) (m : Items) (key : Bytes)
      → Shows C now s m
      → ((Embedded.get C s key now).0 ≡ string_of (seen now (m key)))
        × Shows C now (Embedded.get C s key now).1 m
  unfolding Embedded.get
  get-Shows s m key sh = elim (Option-cases (find C s key)) [
    | inl e ↦ rw (e, Embedded.get, seen_missing C now s m key sh e) (refl, sh)
    | inr (old, e) ↦ elim (Bool-cases (is_expired now old.expiry)) [
      | inl x ↦
          rw (e, Embedded.get, x, seen_found C now s m key old sh e, x)
            (refl, expired-Shows C now s m key old sh e x)
      | inr x ↦
          rw (e, Embedded.get, x, seen_found C now s m key old sh e, x)
            (get_value-as_string old.value, sh)
    ]
  ]

  pub key_type-Shows :
      (s : ShardedStore C) (m : Items) (key : Bytes)
      → Shows C now s m
      → ((Embedded.key_type C s key now).0 ≡ kind_of (seen now (m key)))
        × Shows C now (Embedded.key_type C s key now).1 m
  unfolding Embedded.key_type
  key_type-Shows s m key sh = elim (Option-cases (find C s key)) [
    | inl e ↦ rw (e, Embedded.key_type, seen_missing C now s m key sh e) (refl, sh)
    | inr (old, e) ↦ elim (Bool-cases (is_expired now old.expiry)) [
      | inl x ↦
          rw (e, Embedded.key_type, x, seen_found C now s m key old sh e, x)
            (refl, expired-Shows C now s m key old sh e x)
      | inr x ↦
          rw (e, Embedded.key_type, x, seen_found C now s m key old sh e, x)
            (type_name-type_of old.value, sh)
    ]
  ]

  exists_one-seen :
      (s : ShardedStore C) (m : Items) (key : Bytes)
      → Shows C now s m
      → Embedded.exists_one C s key now ≡ one_if_some (seen now (m key))
  unfolding Embedded.exists_one
  exists_one-seen s m key sh = elim (Option-cases (find C s key)) [
    | inl e ↦ rw (e, Embedded.exists_one, seen_missing C now s m key sh e)
    | inr (old, e) ↦ elim (Bool-cases (is_expired now old.expiry)) [
      | inl x ↦ rw (e, Embedded.exists_one, x, seen_found C now s m key old sh e, x)
      | inr x ↦ rw (e, Embedded.exists_one, x, seen_found C now s m key old sh e, x)
    ]
  ]

  one_if_some-seen :
      (s : ShardedStore C) (m : Items) (key : Bytes)
      → Shows C now s m
      → one_if_some (seen now (m key)) ≤ Embedded.one_if_some C (find C s key)
  unfolding Embedded.one_if_some
  one_if_some-seen s m key sh = elim (Option-cases (find C s key)) [
    | inl e ↦ rw (e, seen_missing C now s m key sh e) (omega arith)
    | inr (old, e) ↦ elim (Bool-cases (is_expired now old.expiry)) [
      | inl x ↦ rw (e, seen_found C now s m key old sh e, x) (omega arith)
      | inr x ↦ rw (e, seen_found C now s m key old sh e, x) (omega arith)
    ]
  ]

  pub exists-seen :
      (s : ShardedStore C) (m : Items) (keys : List Bytes)
      → Shows C now s m
      → Embedded.exists C s keys now ≡ count_all m keys now
  unfolding Embedded.exists
  exists-seen s m [] sh = refl
  exists-seen s m (key ∷ keys) sh = rw (exists_one-seen s m key sh, exists-seen s m keys sh)

  pub delete_each-Shows :
      (s : ShardedStore C) (m : Items) (keys : List Bytes)
      → Shows C now s m
      → ((remove_all m keys now).0 ≤ (delete_each C s keys).0)
        × Shows C now (delete_each C s keys).1 (remove_all m keys now).1
  unfolding delete_each
  delete_each-Shows s m [] sh = (omega arith, sh)
  delete_each-Shows s m (key ∷ keys) sh =
      let (le, rest) =
        delete_each-Shows (drop_key C s key) (update m key none) keys
          (drop_key-Shows C now s m key sh) in
      (omega (arith, le, one_if_some-seen s m key sh), rest)

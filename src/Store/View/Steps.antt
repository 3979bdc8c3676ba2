-- ===== src/Store/View/Steps.antt =====
-- Each operation of src/store.rs against the map that it stands for.
use redistill.Base.{
  ℕ, ◌≡◌, refl, ap, inl, inr, Option, none, some, List, [], ◌∷◌, arith, Bytes, beq, Bool-cases,
  Option-cases,
}
use redistill.Store.Entry.{string, is_expired}
use redistill.Store.State.{Env, Store, IsWf, find}
use redistill.Store.Access.{leave_queue, join_queue, first_access}
use redistill.Store.Laws.{put-IsWf}
use redistill.Store.Balance.{IsQuiet-trans, find-IsQuiet, IsWf-IsQuiet}
use redistill.Store.Quiet.{first_access-IsQuiet, leave_queue-IsQuiet, join_queue-IsQuiet}
use redistill.Store.Strings
use redistill.Store.Strings.{
  expiry_of, as_string, KeyType, no_key, type_of, get, key_type, delete_one, delete, exists_one,
  exists,
}
use redistill.Store.Strings.Lookup.{find-set, find-delete_one}
use redistill.Store.View.{
  Items, item_of, seen, Request, set_request, get_request, type_request, delete_request,
  exists_request, hset_request, hget_request, hgetall_request, hdel_request, count, new_fields,
  field, all_of, gone_fields, respond, string_of, kind_of, one_if_some, update, remove_all,
  count_all, specified, Shows,
}
use redistill.Store.View.HashSteps.{hset-Shows, hget-Shows, hgetall-Shows}
use redistill.Store.View.HashRemoval.{hdel-Shows}
use redistill.Store.View.Moves.{expire_key-Shows, track_access-Shows}

module _ (E : Env) where
  set-IsWf :
      (s : Store E) (key v : Bytes) (ttl : Option ℕ) (now : ℕ)
      → IsWf E s
      → IsWf E (Strings.set E s key v ttl now).1
  unfolding Strings.set
  set-IsWf s key v ttl now wf =
      let s1 = (first_access E s).1 in
      let s2 = leave_queue E s1 key in
      let q =
        IsQuiet-trans E (first_access-IsQuiet E s)
          (IsQuiet-trans E (leave_queue-IsQuiet E s1 key) (join_queue-IsQuiet E s2 key)) in
      put-IsWf E (join_queue E s2 key).1 key _ (IsWf-IsQuiet E q wf)

  set-Shows :
      (now : ℕ) (s : Store E) (m : Items) (key v : Bytes) (ttl : Option ℕ)
      → Shows E now s m
      → Shows E now
          (Strings.set E s key v ttl now).1
          (update m key (some (string v, expiry_of ttl now)))
  set-Shows now s m key v ttl sh =
      let (e, val, x, f) = find-set E s key v ttl now sh.wf in
      record {
        wf = set-IsWf s key v ttl now sh.wf;
        same = λ j later h. elim (Bool-cases (beq key j)) [
          | inl b ↦ rw (f j, b, val, x)
          | inr b ↦ rw (f j, b) (sh.same j later h)
        ];
      }

  -- What get and TYPE reply is what is seen.
  get-seen :
      (s : Store E) (key : Bytes) (now : ℕ)
      → (get E s key now).0 ≡ string_of (seen now (item_of (find E s key)))
  unfolding get
  get-seen s key now = elim (Option-cases (find E s key)) [
    | inl e ↦ rw (e, get)
    | inr (old, e) ↦ elim (Bool-cases (is_expired now old.expiry)) [
      | inl x ↦ rw (e, get, x)
      | inr x ↦ rw (e, get, x)
    ]
  ]

  key_type-seen :
      (s : Store E) (key : Bytes) (now : ℕ)
      → (key_type E s key now).0 ≡ kind_of (seen now (item_of (find E s key)))
  unfolding key_type
  key_type-seen s key now = elim (Option-cases (find E s key)) [
    | inl e ↦ rw (e, key_type)
    | inr (old, e) ↦ elim (Bool-cases (is_expired now old.expiry)) [
      | inl x ↦ rw (e, key_type, x)
      | inr x ↦ rw (e, key_type, x)
    ]
  ]

  get-Shows :
      (now : ℕ) (s : Store E) (m : Items) (key : Bytes)
      → Shows E now s m
      → Shows E now (get E s key now).1 m
  unfolding get
  get-Shows now s m key sh = elim (Option-cases (find E s key)) [
    | inl e ↦ rw (e, get) sh
    | inr (old, e) ↦ elim (Bool-cases (is_expired now old.expiry)) [
      | inl x ↦ rw (e, get, x) (expire_key-Shows E now s m key old sh e x)
      | inr x ↦ rw (e, get, x) (track_access-Shows E now s m key old sh e)
    ]
  ]

  key_type-Shows :
      (now : ℕ) (s : Store E) (m : Items) (key : Bytes)
      → Shows E now s m
      → Shows E now (key_type E s key now).1 m
  unfolding key_type
  key_type-Shows now s m key sh = elim (Option-cases (find E s key)) [
    | inl e ↦ rw (e, key_type) sh
    | inr (old, e) ↦ elim (Bool-cases (is_expired now old.expiry)) [
      | inl x ↦ rw (e, key_type, x) (expire_key-Shows E now s m key old sh e x)
      | inr x ↦ rw (e, key_type, x) sh
    ]
  ]

  delete_one-seen :
      (s : Store E) (key : Bytes) (now : ℕ)
      → (delete_one E s key now).0 ≡ one_if_some (seen now (item_of (find E s key)))
  unfolding delete_one
  delete_one-seen s key now =
      let same = find-IsQuiet E (leave_queue-IsQuiet E s key) key in
      elim (Option-cases (find E (leave_queue E s key) key)) [
        | inl e ↦ rw (e, delete_one, ← same, e)
        | inr (old, e) ↦ elim (Bool-cases (is_expired now old.expiry)) [
          | inl x ↦ rw (e, delete_one, ← same, e, x)
          | inr x ↦ rw (e, delete_one, ← same, e, x)
        ]
      ]

  delete_one-Shows :
      (now : ℕ) (s : Store E) (m : Items) (key : Bytes)
      → Shows E now s m
      → Shows E now (delete_one E s key now).1 (update m key none)
  delete_one-Shows now s m key sh = record {
    wf = (find-delete_one E s key now key sh.wf).1;
    same = λ j later h. elim (Bool-cases (beq key j)) [
      | inl b ↦ rw ((find-delete_one E s key now j sh.wf).0, b)
      | inr b ↦ rw ((find-delete_one E s key now j sh.wf).0, b) (sh.same j later h)
    ];
  }

  pub delete-Shows :
      (now : ℕ) (s : Store E) (m : Items) (keys : List Bytes)
      → Shows E now s m
      → ((delete E s keys now).0 ≡ (remove_all m keys now).0)
        × Shows E now (delete E s keys now).1 (remove_all m keys now).1
  unfolding delete
  delete-Shows now s m [] sh = (refl, sh)
  delete-Shows now s m (key ∷ keys) sh =
      let (n, rest) =
        delete-Shows now (delete_one E s key now).1 (update m key none) keys
          (delete_one-Shows now s m key sh) in
      (rw (delete_one-seen s key now, sh.same key now (omega arith), n), rest)

  exists_one-seen :
      (s : Store E) (key : Bytes) (now : ℕ)
      → exists_one E s key now ≡ one_if_some (seen now (item_of (find E s key)))
  unfolding exists_one
  exists_one-seen s key now = elim (Option-cases (find E s key)) [
    | inl e ↦ rw (e, exists_one)
    | inr (old, e) ↦ elim (Bool-cases (is_expired now old.expiry)) [
      | inl x ↦ rw (e, exists_one, x)
      | inr x ↦ rw (e, exists_one, x)
    ]
  ]

  exists-seen :
      (now : ℕ) (s : Store E) (m : Items) (keys : List Bytes)
      → Shows E now s m
      → exists E s keys now ≡ count_all m keys now
  unfolding exists
  exists-seen now s m [] sh = refl
  exists-seen now s m (key ∷ keys) sh =
      rw (exists_one-seen s key now, sh.same key now (omega arith), exists-seen now s m keys sh)

  -- One operation replies what it replies on the map, and the store then shows what the map then shows.
  pub respond-Shows :
      (now : ℕ) (s : Store E) (m : Items) (r : Request)
      → Shows E now s m
      → ((respond E s r now).0 ≡ (specified E.hash_maps m r now).0)
        × Shows E now (respond E s r now).1 (specified E.hash_maps m r now).1
  unfolding respond
  respond-Shows now s m (set_request key v ttl) sh = (refl, set-Shows now s m key v ttl sh)
  respond-Shows now s m (get_request key) sh =
      (rw (get-seen s key now, sh.same key now (omega arith)), get-Shows now s m key sh)
  respond-Shows now s m (type_request key) sh =
      (rw (key_type-seen s key now, sh.same key now (omega arith)), key_type-Shows now s m key sh)
  respond-Shows now s m (delete_request keys) sh =
      let (n, rest) = delete-Shows now s m keys sh in (ap count n, rest)
  respond-Shows now s m (hset_request key fields) sh =
      let (n, next) = hset-Shows E now s m key fields sh in (ap new_fields n, next)
  respond-Shows now s m (hget_request key f) sh =
      let (v, next) = hget-Shows E now s m key f sh in (ap field v, next)
  respond-Shows now s m (hgetall_request key) sh =
      let (v, next) = hgetall-Shows E now s m key sh in (ap all_of v, next)
  respond-Shows now s m (hdel_request key fields) sh =
      let (n, next) = hdel-Shows E now s m key fields sh in (ap gone_fields n, next)
  respond-Shows now s m (exists_request keys) sh = (ap count (exists-seen now s m keys sh), sh)

-- ===== src/Commands/Balance/Keys.antt =====
-- TTL, PTTL, EXPIRE and PERSIST of src/main.rs and the accounts.
use redistill.Base.{
  ℕ, ◌+◌, ◌≡◌, refl, true, Option, none, some, List, [], ◌∷◌, ltb, leb, Bytes, Bool-cases,
  Option-cases, inl, inr, ◌%◌, ◌^◌,
}
use redistill.Base.Int.{ℤ, pos, negsuc}
use redistill.Resp.Decimal.{parse_i64}
use redistill.Store.Entry.{size_of, is_expired}
use redistill.Store.State.{Env, Store, IsWf, find}
use redistill.Store.Strings.Balance.{delete-IsBalanced}
use redistill.Store.Balance.{IsBalanced, put-IsBalanced}
use redistill.Store.Quiet.{expire_key-IsBalanced}
use redistill.Commands.Expiry.{
  remaining, reply_signed, reply_count, handle_ttl, handle_pttl, expire_at, expire_by,
  expire_parsed, handle_expire, persist_key, handle_persist,
}
use redistill.Commands.Balance.{same-IsBalanced}

module _ (E : Env) (tracked : ltb 0 E.config.max_memory ≡ true) where
  remaining-IsBalanced :
      (left : ℕ → ℕ → ℤ) (s : Store E) (key : Bytes) (now : ℕ)
      → IsWf E s
      → IsBalanced E s (remaining E left s key now).1
  unfolding remaining
  remaining-IsBalanced left s key now wf = elim (Option-cases (find E s key)) [
    | inl e ↦ rw (e, remaining) (same-IsBalanced E tracked s wf)
    | inr (old, e) ↦ elim (Option-cases old.expiry) [
      | inl f ↦ rw (e, remaining, f) (same-IsBalanced E tracked s wf)
      | inr (expiry, f) ↦ elim (Bool-cases (leb expiry now)) [
        | inl x ↦ rw (e, remaining, f, x) (expire_key-IsBalanced E s key now tracked wf)
        | inr x ↦ rw (e, remaining, f, x) (same-IsBalanced E tracked s wf)
      ]
    ]
  ]

  -- TTL, which removes a key that has expired, keeps the store well-formed and changes MEMORY_USED,
  -- as a u64, by what it changes the sum of the entries' sizes by. The store is well-formed and a
  -- memory limit is set.
  pub handle_ttl-IsBalanced :
      (s : Store E) (args : List Bytes) (w : Bytes) (now : ℕ)
      → IsWf E s
      → IsBalanced E s (handle_ttl E s args w now).1
  unfolding handle_ttl reply_signed
  handle_ttl-IsBalanced s [] w now wf = same-IsBalanced E tracked s wf
  handle_ttl-IsBalanced s (cmd ∷ []) w now wf = same-IsBalanced E tracked s wf
  handle_ttl-IsBalanced s (cmd ∷ key ∷ rest) w now wf = remaining-IsBalanced _ s key now wf

  -- PTTL, which removes a key that has expired, keeps the store well-formed and changes
  -- MEMORY_USED, as a u64, by what it changes the sum of the entries' sizes by. The store is
  -- well-formed and a memory limit is set.
  pub handle_pttl-IsBalanced :
      (s : Store E) (args : List Bytes) (w : Bytes) (now : ℕ)
      → IsWf E s
      → IsBalanced E s (handle_pttl E s args w now).1
  unfolding handle_pttl reply_signed
  handle_pttl-IsBalanced s [] w now wf = same-IsBalanced E tracked s wf
  handle_pttl-IsBalanced s (cmd ∷ []) w now wf = same-IsBalanced E tracked s wf
  handle_pttl-IsBalanced s (cmd ∷ key ∷ rest) w now wf = remaining-IsBalanced _ s key now wf

  expire_at-IsBalanced :
      (s : Store E) (key : Bytes) (seconds now : ℕ)
      → IsWf E s
      → IsBalanced E s (expire_at E s key seconds now).1
  unfolding expire_at
  expire_at-IsBalanced s key seconds now wf = elim (Option-cases (find E s key)) [
    | inl e ↦ rw (e, expire_at) (same-IsBalanced E tracked s wf)
    | inr (old, e) ↦ elim (Bool-cases (is_expired now old.expiry)) [
      | inl x ↦ rw (e, expire_at, x) (expire_key-IsBalanced E s key now tracked wf)
      | inr x ↦
          rw (e, expire_at, x)
            (put-IsBalanced E s key old (record old { expiry = some ((now + seconds) % 2 ^ 64) }) wf
              e (unfold size_of in refl))
    ]
  ]

  expire_by-IsBalanced :
      (s : Store E) (key : Bytes) (v : ℤ) (now : ℕ)
      → IsWf E s
      → IsBalanced E s (expire_by E s key v now).1
  unfolding expire_by
  expire_by-IsBalanced s key (negsuc n) now wf = delete-IsBalanced E tracked s (key ∷ []) now wf
  expire_by-IsBalanced s key (pos n) now wf = elim (Bool-cases (ltb 0 n)) [
    | inl e ↦ rw e (expire_at-IsBalanced s key n now wf)
    | inr e ↦ rw e (delete-IsBalanced E tracked s (key ∷ []) now wf)
  ]

  expire_parsed-IsBalanced :
      (s : Store E) (key : Bytes) (o : Option ℤ) (w : Bytes) (now : ℕ)
      → IsWf E s
      → IsBalanced E s (expire_parsed E s key o w now).1
  unfolding expire_parsed reply_count
  expire_parsed-IsBalanced s key none w now wf = same-IsBalanced E tracked s wf
  expire_parsed-IsBalanced s key (some v) w now wf = expire_by-IsBalanced s key v now wf

  -- EXPIRE, which deletes the key at a time that is not positive, keeps the store well-formed and
  -- changes MEMORY_USED, as a u64, by what it changes the sum of the entries' sizes by. The store
  -- is well-formed and a memory limit is set.
  pub handle_expire-IsBalanced :
      (s : Store E) (args : List Bytes) (w : Bytes) (now : ℕ)
      → IsWf E s
      → IsBalanced E s (handle_expire E s args w now).1
  unfolding handle_expire
  handle_expire-IsBalanced s [] w now wf = same-IsBalanced E tracked s wf
  handle_expire-IsBalanced s (cmd ∷ []) w now wf = same-IsBalanced E tracked s wf
  handle_expire-IsBalanced s (cmd ∷ key ∷ []) w now wf = same-IsBalanced E tracked s wf
  handle_expire-IsBalanced s (cmd ∷ key ∷ seconds ∷ rest) w now wf =
      expire_parsed-IsBalanced s key (parse_i64 seconds) w now wf

  persist_key-IsBalanced :
      (s : Store E) (key : Bytes) (now : ℕ) → IsWf E s → IsBalanced E s (persist_key E s key now).1
  unfolding persist_key
  persist_key-IsBalanced s key now wf = elim (Option-cases (find E s key)) [
    | inl e ↦ rw (e, persist_key) (same-IsBalanced E tracked s wf)
    | inr (old, e) ↦ elim (Option-cases old.expiry) [
      | inl f ↦ rw (e, persist_key, f) (same-IsBalanced E tracked s wf)
      | inr (expiry, f) ↦ elim (Bool-cases (leb expiry now)) [
        | inl x ↦ rw (e, persist_key, f, x) (expire_key-IsBalanced E s key now tracked wf)
        | inr x ↦
            rw (e, persist_key, f, x)
              (put-IsBalanced E s key old (record old { expiry = none }) wf e
                (unfold size_of in refl))
      ]
    ]
  ]

  -- PERSIST, which removes a key that has expired, keeps the store well-formed and changes
  -- MEMORY_USED, as a u64, by what it changes the sum of the entries' sizes by. The store is
  -- well-formed and a memory limit is set.
  pub handle_persist-IsBalanced :
      (s : Store E) (args : List Bytes) (w : Bytes) (now : ℕ)
      → IsWf E s
      → IsBalanced E s (handle_persist E s args w now).1
  unfolding handle_persist reply_count
  handle_persist-IsBalanced s [] w now wf = same-IsBalanced E tracked s wf
  handle_persist-IsBalanced s (cmd ∷ []) w now wf = same-IsBalanced E tracked s wf
  handle_persist-IsBalanced s (cmd ∷ key ∷ rest) w now wf = persist_key-IsBalanced s key now wf

-- ===== src/Commands/Balance/Counters.antt =====
-- INCR, INCRBY and DECRBY of src/main.rs and the accounts.
use redistill.Base.{
  ℕ, ◌-◌, ◌≡◌, true, Option, List, [], ◌∷◌, ltb, if◌then◌else◌, Bytes, length, Bool-cases,
  Option-cases, inl, inr,
}
use redistill.Base.Int.{ℤ, pos_part, neg_part, sub_ℕ}
use redistill.Resp.Decimal.{parse_i64, to_string}
use redistill.Store.Entry.{EntryValue, string, hash, is_expired, entry_size}
use redistill.Store.State.{Env, Store, IsWf, find}
use redistill.Store.Evict.{evict_if_needed}
use redistill.Store.Balance.{IsBalanced, IsBalanced-trans}
use redistill.Store.Quiet.{expire_key-IsBalanced}
use redistill.Commands.Counter.{
  Current, current, unusable, read_string, read_counter, store_counter, add_to_counter, checked_add,
  handle_incr, handle_incrby, handle_decrby, is_least,
}
use redistill.Commands.Balance.{same-IsBalanced, set_accounted-IsBalanced, make_room-IsBalanced}

module _ (E : Env) (tracked : ltb 0 E.config.max_memory ≡ true) where
  read_string-IsBalanced :
      (v : EntryValue) (s : Store E) (key : Bytes) (expiry : Option ℕ) (now : ℕ)
      → IsWf E s
      → IsBalanced E s (read_string E v s key expiry now).1
  unfolding read_string
  read_string-IsBalanced (hash fields) s key expiry now wf = same-IsBalanced E tracked s wf
  read_string-IsBalanced (string bytes) s key expiry now wf =
      elim (Bool-cases (is_expired now expiry)) [
        | inl e ↦ rw e (expire_key-IsBalanced E s key now tracked wf)
        | inr e ↦ rw e (same-IsBalanced E tracked s wf)
      ]

  read_counter-IsBalanced :
      (s : Store E) (key : Bytes) (now : ℕ) → IsWf E s → IsBalanced E s (read_counter E s key now).1
  unfolding read_counter
  read_counter-IsBalanced s key now wf = elim (Option-cases (find E s key)) [
    | inl e ↦ rw (e, read_counter) (same-IsBalanced E tracked s wf)
    | inr (old, e) ↦ rw (e, read_counter) (read_string-IsBalanced old.value s key old.expiry now wf)
  ]

  store_counter-IsBalanced :
      (s : Store E) (key : Bytes) (new_val : ℤ) (ttl : Option ℕ) (old_size : ℕ) (w : Bytes)
      (now : ℕ)
      → IsWf E s
      → IsBalanced E s (store_counter E s key new_val ttl old_size w now).1
  unfolding store_counter
  store_counter-IsBalanced s key new_val ttl old_size w now wf =
      let net = entry_size (length key) (length (to_string new_val)) - old_size in
      let b = make_room-IsBalanced E tracked s net wf in
      let r = if ltb 0 net then evict_if_needed E s net else (true, s) in
      elim (Bool-cases r.0) [
        | inl e ↦ rw e (
            IsBalanced-trans E b
              (set_accounted-IsBalanced E tracked r.1 key (to_string new_val) ttl now b.wf))
        | inr e ↦ rw e b
      ]

  add_to_counter-IsBalanced :
      (c : Current) (s : Store E) (key : Bytes) (delta : ℤ) (w : Bytes) (now : ℕ)
      → IsWf E s
      → IsBalanced E s (add_to_counter E c s key delta w now).1
  unfolding add_to_counter
  add_to_counter-IsBalanced (unusable m) s key delta w now wf = same-IsBalanced E tracked s wf
  add_to_counter-IsBalanced (current v ttl old_size) s key delta w now wf =
      elim (Option-cases (checked_add v delta)) [
        | inl e ↦ rw (e, add_to_counter) (same-IsBalanced E tracked s wf)
        | inr (n, e) ↦
            rw (e, add_to_counter) (store_counter-IsBalanced s key n ttl old_size w now wf)
      ]

  -- INCR, by any delta and on every branch, keeps the store well-formed and changes MEMORY_USED, as
  -- a u64, by what it changes the sum of the entries' sizes by. The store is well-formed and a
  -- memory limit is set.
  pub handle_incr-IsBalanced :
      (s : Store E) (args : List Bytes) (w : Bytes) (now : ℕ) (delta : ℤ)
      → IsWf E s
      → IsBalanced E s (handle_incr E s args w now delta).1
  unfolding handle_incr
  handle_incr-IsBalanced s [] w now delta wf = same-IsBalanced E tracked s wf
  handle_incr-IsBalanced s (cmd ∷ []) w now delta wf = same-IsBalanced E tracked s wf
  handle_incr-IsBalanced s (cmd ∷ key ∷ rest) w now delta wf =
      let b = read_counter-IsBalanced s key now wf in
      let (c, s1) = read_counter E s key now in
      IsBalanced-trans E b (add_to_counter-IsBalanced c s1 key delta w now b.wf)

  -- INCRBY, whether its amount is a number or not, keeps the store well-formed and changes
  -- MEMORY_USED, as a u64, by what it changes the sum of the entries' sizes by. The store is
  -- well-formed and a memory limit is set.
  pub handle_incrby-IsBalanced :
      (s : Store E) (args : List Bytes) (w : Bytes) (now : ℕ)
      → IsWf E s
      → IsBalanced E s (handle_incrby E s args w now).1
  unfolding handle_incrby
  handle_incrby-IsBalanced s [] w now wf = same-IsBalanced E tracked s wf
  handle_incrby-IsBalanced s (cmd ∷ []) w now wf = same-IsBalanced E tracked s wf
  handle_incrby-IsBalanced s (cmd ∷ key ∷ []) w now wf = same-IsBalanced E tracked s wf
  handle_incrby-IsBalanced s (cmd ∷ key ∷ amount ∷ rest) w now wf =
      elim (Option-cases (parse_i64 amount)) [
        | inl e ↦ rw (e, handle_incrby) (same-IsBalanced E tracked s wf)
        | inr (n, e) ↦
            rw (e, handle_incrby) (handle_incr-IsBalanced s (cmd ∷ key ∷ amount ∷ rest) w now n wf)
      ]

  -- DECRBY, whether its amount is a number or not, keeps the store well-formed and changes
  -- MEMORY_USED, as a u64, by what it changes the sum of the entries' sizes by. The store is
  -- well-formed and a memory limit is set.
  pub handle_decrby-IsBalanced :
      (s : Store E) (args : List Bytes) (w : Bytes) (now : ℕ)
      → IsWf E s
      → IsBalanced E s (handle_decrby E s args w now).1
  unfolding handle_decrby
  handle_decrby-IsBalanced s [] w now wf = same-IsBalanced E tracked s wf
  handle_decrby-IsBalanced s (cmd ∷ []) w now wf = same-IsBalanced E tracked s wf
  handle_decrby-IsBalanced s (cmd ∷ key ∷ []) w now wf = same-IsBalanced E tracked s wf
  handle_decrby-IsBalanced s (cmd ∷ key ∷ amount ∷ rest) w now wf =
      elim (Option-cases (parse_i64 amount)) [
        | inl e ↦ rw (e, handle_decrby) (same-IsBalanced E tracked s wf)
        | inr (n, e) ↦ elim (Bool-cases (is_least E n)) [
          | inl f ↦ rw (e, handle_decrby, f) (same-IsBalanced E tracked s wf)
          | inr f ↦
              rw (e, handle_decrby, f)
                (handle_incr-IsBalanced s (cmd ∷ key ∷ amount ∷ rest) w now
                  (sub_ℕ (neg_part n) (pos_part n)) wf)
        ]
      ]

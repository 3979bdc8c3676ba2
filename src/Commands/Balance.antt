-- ===== src/Commands/Balance.antt =====
-- SET, MGET and MSET of src/main.rs and the accounts: MEMORY_USED beside the sizes of the entries.
pub mod Counters
pub mod Keys
pub mod Fields
use redistill.Base.{
  ℕ, ◌+◌, ◌≡◌, refl, ◌∙◌, Bool, true, false, ◌&&◌, ◌||◌, not, Option, none, some, List, [], ◌∷◌,
  arith, ltb, leb, if◌then◌else◌, Bytes, length, Bool-cases, Option-cases, inl, inr,
}
use redistill.Base.Int.{ℤ, pos, negsuc, pos_part}
use redistill.Resp.Decimal.{parse_i64, to_string}
use redistill.Store.Dash.{weight}
use redistill.Store.Entry.{
  Entry, EntryValue, string, hash, size_of, is_expired, entry_size, calculate_entry_size,
}
use redistill.Store.State.{Env, Store, IsWf, find, put, sub_memory, add_memory}
use redistill.Store.Access.{expire_key}
use redistill.Store.Laws.{total_size}
use redistill.Store.Strings.{set, size_in, get}
use redistill.Store.Strings.Balance.{IsStored, set-IsStored, get-IsBalanced, delete-IsBalanced}
use redistill.Store.Hashes.{hset, hget, hgetall}
use redistill.Store.Hashes.Balance.{hset-IsBalanced, hget-IsBalanced, hgetall-IsBalanced}
use redistill.Store.Evict.{evict_if_needed}
use redistill.Store.Evict.Balance.{evict_if_needed-IsBalanced}
use redistill.Store.Balance.{
  IsBalanced, IsQuiet-refl, IsBalanced-IsQuiet, IsBalanced-trans, put-IsBalanced, sub_memory-IsWf,
  add_memory-IsWf, total_size-sub_memory, total_size-add_memory, add_memory-IsBalanced,
}
use redistill.Store.Quiet.{expire_key-IsBalanced}
use redistill.Commands.Many.{
  get_each, handle_mget, net_size, set_each, mset_pairs, mset_args, pairs_of, handle_mset,
}
use redistill.Commands.Set.{
  write_optional, Options, options, refused, SetOptions, live_string, is_some, parse_options,
  no_options, sub_old, set_accounted, set_with, set_parsed, handle_set,
}
use redistill.Commands.Counter.{
  Current, current, unusable, read_string, read_counter, store_counter, add_to_counter, checked_add,
  handle_incr, handle_incrby, handle_decrby, is_least,
}

module _ (E : Env) (tracked : ltb 0 E.config.max_memory ≡ true) where
  pub same-IsBalanced : (s : Store E) → IsWf E s → IsBalanced E s s
  same-IsBalanced s wf = IsBalanced-IsQuiet E wf (IsQuiet-refl E s)

  -- MEMORY_USED is freed the old size and charged the new one.
  swap_memory-IsBalanced :
      (s t : Store E) (old new : ℕ)
      → IsWf E t
      → t.num_shards ≡ s.num_shards
      → t.memory_used ≡ s.memory_used
      → total_size E t + old ≡ total_size E s + new
      → IsBalanced E s (add_memory E (sub_memory E t old) new)
  swap_memory-IsBalanced s t old new wf count same grown = record {
    wf = add_memory-IsWf E (sub_memory E t old) new (sub_memory-IsWf E t old wf);
    shard_count = unfold add_memory sub_memory in count;
    even =
        rw (total_size-add_memory E (sub_memory E t old) new, total_size-sub_memory E t old)
          (unfold add_memory sub_memory in omega (arith, same, grown));
  }

  -- `set` with its accounts: the old size is subtracted, the new one added.
  pub set_accounted-IsBalanced :
      (s : Store E) (key value : Bytes) (ttl : Option ℕ) (now : ℕ)
      → IsWf E s
      → IsBalanced E s (set_accounted E s key value ttl now)
  unfolding set_accounted size_in sub_old
  set_accounted-IsBalanced s key value ttl now wf =
      let i = set-IsStored E s key value ttl now wf in
      let s1 = (set E s key value ttl now).1 in
      rw (tracked, i.old_size) (settled (find E s key) s1 i.wf i.num_shards i.memory i.grown)
    where
      settled :
          (o : Option Entry) (s1 : Store E)
          → IsWf E s1
          → s1.num_shards ≡ s.num_shards
          → s1.memory_used ≡ s.memory_used
          → total_size E s1 + weight size_of key o
            ≡ total_size E s + entry_size (length key) (length value)
          → IsBalanced E s (
              add_memory E
                (sub_old E s1 (size_in E key o))
                (entry_size (length key) (length value)))
      settled none s1 wf1 count same grown =
          add_memory-IsBalanced E s s1 (entry_size (length key) (length value)) wf1 count same
            (omega (arith, grown))
      settled (some e) s1 wf1 count same grown =
          swap_memory-IsBalanced s s1 (calculate_entry_size (length key) e.value)
            (entry_size (length key) (length value)) wf1 count same (unfold size_of in grown)

  set_with-IsBalanced :
      (s : Store E) (key value : Bytes) (o : SetOptions) (w : Bytes) (now : ℕ)
      → IsWf E s
      → IsBalanced E s (set_with E s key value o w now).1
  unfolding set_with
  set_with-IsBalanced s key value o w now wf =
      let old_value = if o.nx || o.xx || o.wants_old then live_string E s key now else none in
      let same = same-IsBalanced s wf in
      elim (Bool-cases (o.nx && o.xx)) [
        | inl a ↦ rw a same
        | inr a ↦ elim (Bool-cases (o.nx && is_some old_value)) [
          | inl b ↦ rw (a, b) same
          | inr b ↦ elim (Bool-cases (o.xx && not (is_some old_value))) [
            | inl c ↦ rw (a, b, c) same
            | inr c ↦ rw (a, b, c) (set_accounted-IsBalanced s key value o.ttl now wf)
          ]
        ]
      ]

  set_parsed-IsBalanced :
      (s : Store E) (key value : Bytes) (o : Options) (w : Bytes) (now : ℕ)
      → IsWf E s
      → IsBalanced E s (set_parsed E s key value o w now).1
  unfolding set_parsed
  set_parsed-IsBalanced s key value (refused m) w now wf = same-IsBalanced s wf
  set_parsed-IsBalanced s key value (options o) w now wf =
      set_with-IsBalanced s key value o w now wf

  -- SET, with any options and arguments and on every branch, keeps the store well-formed and
  -- changes MEMORY_USED, as a u64, by what it changes the sum of the entries' sizes by: evictions,
  -- the entry it overwrites and the new one included. The store is well-formed and a memory limit
  -- is set.
  pub handle_set-IsBalanced :
      (s : Store E) (args : List Bytes) (w : Bytes) (now : ℕ)
      → IsWf E s
      → IsBalanced E s (handle_set E s args w now).1
  unfolding handle_set
  handle_set-IsBalanced s [] w now wf = same-IsBalanced s wf
  handle_set-IsBalanced s (cmd ∷ []) w now wf = same-IsBalanced s wf
  handle_set-IsBalanced s (cmd ∷ key ∷ []) w now wf = same-IsBalanced s wf
  handle_set-IsBalanced s (cmd ∷ key ∷ value ∷ opts) w now wf =
      let needed = entry_size (length key) (length value) in
      let b = evict_if_needed-IsBalanced E s needed wf in
      let s1 = (evict_if_needed E s needed).1 in
      elim (Bool-cases (evict_if_needed E s needed).0) [
        | inr e ↦ rw e b
        | inl e ↦ rw e (
            IsBalanced-trans E b
              (set_parsed-IsBalanced s1 key value (parse_options opts no_options) w now b.wf))
      ]

  get_each-IsBalanced :
      (s : Store E) (keys : List Bytes) (w : Bytes) (now : ℕ)
      → IsWf E s
      → IsBalanced E s (get_each E s keys w now).1
  unfolding get_each
  get_each-IsBalanced s [] w now wf = same-IsBalanced s wf
  get_each-IsBalanced s (key ∷ keys) w now wf =
      let b = get-IsBalanced E tracked s key now wf in
      let (value, s1) = get E s key now in
      IsBalanced-trans E b (get_each-IsBalanced s1 keys (write_optional w value) now b.wf)

  -- MGET, which may remove expired entries, keeps the store well-formed and changes MEMORY_USED, as
  -- a u64, by what it changes the sum of the entries' sizes by. The store is well-formed and a
  -- memory limit is set.
  pub handle_mget-IsBalanced :
      (s : Store E) (args : List Bytes) (w : Bytes) (now : ℕ)
      → IsWf E s
      → IsBalanced E s (handle_mget E s args w now).1
  unfolding handle_mget
  handle_mget-IsBalanced s [] w now wf = same-IsBalanced s wf
  handle_mget-IsBalanced s (cmd ∷ []) w now wf = same-IsBalanced s wf
  handle_mget-IsBalanced s (cmd ∷ key ∷ keys) w now wf = get_each-IsBalanced s (key ∷ keys) _ now wf

  set_each-IsBalanced :
      (s : Store E) (pairs : List (Bytes × Bytes)) (now : ℕ)
      → IsWf E s
      → IsBalanced E s (set_each E s pairs now)
  unfolding set_each
  set_each-IsBalanced s [] now wf = same-IsBalanced s wf
  set_each-IsBalanced s ((key, value) ∷ pairs) now wf =
      let b = set_accounted-IsBalanced s key value none now wf in
      IsBalanced-trans E b
        (set_each-IsBalanced (set_accounted E s key value none now) pairs now b.wf)

  -- Room is made when a net size asks for it.
  pub make_room-IsBalanced :
      (s : Store E) (net : ℕ)
      → IsWf E s
      → IsBalanced E s (if ltb 0 net then evict_if_needed E s net else (true, s)).1
  make_room-IsBalanced s net wf = elim (Bool-cases (ltb 0 net)) [
    | inl e ↦ rw e (evict_if_needed-IsBalanced E s net wf)
    | inr e ↦ rw e (same-IsBalanced s wf)
  ]

  mset_pairs-IsBalanced :
      (s : Store E) (pairs : List (Bytes × Bytes)) (w : Bytes) (now : ℕ)
      → IsWf E s
      → IsBalanced E s (mset_pairs E s pairs w now).1
  unfolding mset_pairs
  mset_pairs-IsBalanced s pairs w now wf =
      let net = pos_part (net_size E s pairs now (pos 0)) in
      let b = make_room-IsBalanced s net wf in
      let r = if ltb 0 net then evict_if_needed E s net else (true, s) in
      elim (Bool-cases r.0) [
        | inl e ↦ rw e (IsBalanced-trans E b (set_each-IsBalanced r.1 pairs now b.wf))
        | inr e ↦ rw e b
      ]

  mset_args-IsBalanced :
      (s : Store E) (o : Option (List (Bytes × Bytes))) (w : Bytes) (now : ℕ)
      → IsWf E s
      → IsBalanced E s (mset_args E s o w now).1
  unfolding mset_args
  mset_args-IsBalanced s none w now wf = same-IsBalanced s wf
  mset_args-IsBalanced s (some []) w now wf = same-IsBalanced s wf
  mset_args-IsBalanced s (some (p ∷ pairs)) w now wf = mset_pairs-IsBalanced s (p ∷ pairs) w now wf

  -- MSET, with any arguments, repeated keys included, keeps the store well-formed and changes
  -- MEMORY_USED, as a u64, by what it changes the sum of the entries' sizes by. The store is
  -- well-formed and a memory limit is set.
  pub handle_mset-IsBalanced :
      (s : Store E) (args : List Bytes) (w : Bytes) (now : ℕ)
      → IsWf E s
      → IsBalanced E s (handle_mset E s args w now).1
  unfolding handle_mset
  handle_mset-IsBalanced s [] w now wf = mset_args-IsBalanced s none w now wf
  handle_mset-IsBalanced s (cmd ∷ args) w now wf = mset_args-IsBalanced s (pairs_of args) w now wf

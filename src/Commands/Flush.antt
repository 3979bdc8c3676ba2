-- ===== src/Commands/Flush.antt =====
-- FLUSHDB and FLUSHALL in `execute_command` of src/main.rs, which run the same code, and `clear` of
-- src/store.rs.
use redistill.Base.{
  zero, suc, ℕ, ◌+◌, ◌-◌, ◌%◌, ◌^◌, ◌<◌, ◌≡◌, refl, ◌∙◌, none, List, [], ◌∷◌, arith, leb,
  if◌then◌else◌, Bytes, codes, length, get_or, Bool-cases, inl, inr,
}
use redistill.Resp.Writer.{write_simple_string}
use redistill.Store.Dash.{total}
use redistill.Store.Entry.{Entry, is_expired, size_of, calculate_entry_size}
use redistill.Store.State.{Env, Store, find, shard_of}
use redistill.Store.State
use redistill.Store.Laws.{sum_of, total_size}

-- The inner loop: the sizes of the entries that have not expired, in u64.
unfoldable pub add_live : ℕ → List (Bytes × Entry) → ℕ → ℕ
add_live now [] actual = actual
add_live now ((key, e) ∷ entries) actual = add_live now entries (
    if is_expired now e.expiry
    then actual
    else (actual + calculate_entry_size (length key) e.value) % 2 ^ 64)

-- What the compare-exchange loop stores.
unfoldable pub release : ℕ → ℕ → ℕ
release current actual = if leb current actual then 0 else current - actual

module _ (E : Env) where
  open E.dash use {Shard, iter, get, clear}

  unfoldable pub add_shards : ℕ → List Shard → ℕ → ℕ
  add_shards now [] actual = actual
  add_shards now (shard ∷ shards) actual = add_shards now shards (add_live now (iter shard) actual)

  unfoldable pub clear_each : List Shard → List Shard
  clear_each [] = []
  clear_each (shard ∷ shards) = clear shard ∷ clear_each shards

  unfoldable pub flush : Store E → Bytes → Bytes × Store E
  flush s w =
      let actual = add_shards s.clock s.shards 0 in
      (
        write_simple_string w (codes "OK"),
        record s { shards = clear_each s.shards; memory_used = release s.memory_used actual },
      )

-- What a live, and an expired entry counts for.
abbrev live_of : ℕ → Bytes → Entry → ℕ
live_of now key e = if is_expired now e.expiry then 0 else size_of key e

abbrev pub expired_of : ℕ → Bytes → Entry → ℕ
expired_of now key e = if is_expired now e.expiry then size_of key e else 0

add_live-total :
    (now : ℕ) (entries : List (Bytes × Entry)) (actual : ℕ)
    → add_live now entries actual % 2 ^ 64 ≡ (actual + total (live_of now) entries) % 2 ^ 64
unfolding add_live size_of
add_live-total now [] actual = omega arith
add_live-total now ((key, e) ∷ entries) actual = elim (Bool-cases (is_expired now e.expiry)) [
  | inl x ↦ rw x (omega (arith, add_live-total now entries actual))
  | inr x ↦ rw x (
      omega (
        arith,
        add_live-total now entries ((actual + calculate_entry_size (length key) e.value) % 2 ^ 64),
      ))
]

add_live-lt :
    (now : ℕ) (entries : List (Bytes × Entry)) (actual : ℕ)
    → actual < 2 ^ 64
    → add_live now entries actual < 2 ^ 64
unfolding add_live
add_live-lt now [] actual h = h
add_live-lt now ((key, e) ∷ entries) actual h = elim (Bool-cases (is_expired now e.expiry)) [
  | inl x ↦ rw x (add_live-lt now entries actual h)
  | inr x ↦ rw x (add_live-lt now entries _ (omega arith))
]

split_total :
    (now : ℕ) (entries : List (Bytes × Entry))
    → total (live_of now) entries + total (expired_of now) entries ≡ total size_of entries
split_total now [] = refl
split_total now ((key, e) ∷ entries) = ground (arith, split_total now entries)

module _ (E : Env) where
  open E.dash use {Shard, iter, get, clear}

  abbrev pub size_by : (Bytes → Entry → ℕ) → List Shard → ℕ
  size_by w shards = sum_of (λ x. total w (iter x)) shards

  add_shards-size_by :
      (now : ℕ) (shards : List Shard) (actual : ℕ)
      → actual < 2 ^ 64
      → (add_shards E now shards actual % 2 ^ 64 ≡ (actual + size_by (live_of now) shards) % 2 ^ 64)
        × (add_shards E now shards actual < 2 ^ 64)
  unfolding add_shards
  add_shards-size_by now [] actual h = (omega arith, h)
  add_shards-size_by now (shard ∷ shards) actual h =
      let (e, lt) =
        add_shards-size_by now shards (add_live now (iter shard) actual)
          (add_live-lt now (iter shard) actual h) in
      (omega (arith, e, add_live-total now (iter shard) actual), lt)

  split_size :
      (now : ℕ) (shards : List Shard)
      → size_by (live_of now) shards + size_by (expired_of now) shards ≡ size_by size_of shards
  split_size now [] = refl
  split_size now (shard ∷ shards) =
      omega (arith, split_size now shards, split_total now (iter shard))

  get_or-clear_each :
      (shards : List Shard) (i : ℕ) → iter (get_or (clear_each E shards) i E.dash.empty) ≡ []
  unfolding clear_each
  get_or-clear_each [] i = E.dash.iter-empty
  get_or-clear_each (shard ∷ shards) zero = E.dash.iter-clear shard
  get_or-clear_each (shard ∷ shards) (suc i) = get_or-clear_each shards i

  -- After FLUSHDB or FLUSHALL no key is found.
  pub find-flush : (s : Store E) (w key : Bytes) → find E (flush E s w).1 key ≡ none
  unfolding flush find shard_of State.hash
  find-flush s w key =
      let i = State.hash E s key in
      E.dash.get-iter (get_or (clear_each E s.shards) i E.dash.empty) key
      ∙ rw (get_or-clear_each s.shards i)

  -- After FLUSHDB or FLUSHALL MEMORY_USED is the sum of the sizes of the entries that had expired,
  -- and not 0. It was the sum of all sizes before, which is below 2^64.
  pub flush_leaks :
      (s : Store E) (w : Bytes)
      → s.memory_used ≡ total_size E s
      → total_size E s < 2 ^ 64
      → (flush E s w).1.memory_used ≡ size_by (expired_of s.clock) s.shards
  unfolding flush release total_size
  flush_leaks s w right small =
      let (e, lt) = add_shards-size_by s.clock s.shards 0 (omega arith) in
      let split = split_size s.clock s.shards in ground (arith, e, lt, split)

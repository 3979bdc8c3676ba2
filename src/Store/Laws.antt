-- ===== src/Store/Laws.antt =====
-- What writing or removing one entry of the store of src/store.rs does to every lookup, to the sum of
-- the sizes, and to the shape of the store.
use native.Mathlib.Nat.{mod-lt}
use redistill.Base.{
  ℕ, zero, suc, ◌+◌, ◌<◌, ◌≤◌, ◌≡◌, none, some, List, [], ◌∷◌, arith, if◌then◌else◌, Bytes, beq,
  beq_iff, length, get_or, set, length-set, get_or-set,
}
use redistill.Store.Dash.{total, weight, total-iter-insert, total-iter-remove}
use redistill.Store.Entry.{Entry, size_of}
use redistill.Store.State.{Env, Store, IsWf, hash, shard_of, find, put, drop_key}

module _ {S : Type 0} (size : S → ℕ) where
  abbrev pub sum_of : List S → ℕ
  sum_of [] = 0
  sum_of (x ∷ xs) = size x + sum_of xs

  pub sum_of-set :
      (xs : List S) (i : ℕ) (v d : S)
      → i < length xs
      → sum_of (set xs i v) + size (get_or xs i d) ≡ sum_of xs + size v
  sum_of-set [] i v d h = elim h [ ]
  sum_of-set (x ∷ xs) zero v d h = omega arith
  sum_of-set (x ∷ xs) (suc i) v d h = omega (arith, sum_of-set xs i v d)

  get_or-le-sum_of :
      (xs : List S) (i : ℕ) (d : S) → i < length xs → size (get_or xs i d) ≤ sum_of xs
  get_or-le-sum_of [] i d h = elim h [ ]
  get_or-le-sum_of (x ∷ xs) zero d h = omega arith
  get_or-le-sum_of (x ∷ xs) (suc i) d h = omega (arith, get_or-le-sum_of xs i d)

module _ (E : Env) where
  open E.dash use {Shard, get, insert, remove, iter}

  -- What MEMORY_USED stands for: the sizes of all entries, expired or not.
  unfoldable pub total_size : Store E → ℕ
  total_size s = sum_of (λ x. total size_of (iter x)) s.shards

  hash-lt : (s : Store E) (key : Bytes) → IsWf E s → hash E s key < length s.shards
  unfolding hash
  hash-lt s key wf = omega (arith, wf.shard_count, mod-lt (E.ahash key) wf.some_shard)

  pub find-put :
      (s : Store E) (k : Bytes) (e : Entry) (j : Bytes)
      → IsWf E s
      → find E (put E s k e) j ≡ (if beq k j then some e else find E s j)
  unfolding find put shard_of hash
  find-put s k e j wf = ground (
    arith,
    beq_iff k j,
    E.dash.get-insert (shard_of E s k) k e j,
    get_or-set s.shards (hash E s k) (hash E s j) (insert (shard_of E s k) k e) E.dash.empty
        (hash-lt s k wf),
  )

  pub find-drop_key :
      (s : Store E) (k j : Bytes)
      → IsWf E s
      → find E (drop_key E s k) j ≡ (if beq k j then none else find E s j)
  unfolding find drop_key shard_of hash
  find-drop_key s k j wf = ground (
    arith,
    beq_iff k j,
    E.dash.get-remove (shard_of E s k) k j,
    get_or-set s.shards (hash E s k) (hash E s j) (remove (shard_of E s k) k) E.dash.empty
        (hash-lt s k wf),
  )

  pub total_size-put :
      (s : Store E) (k : Bytes) (e : Entry)
      → IsWf E s
      → total_size (put E s k e) + weight size_of k (find E s k) ≡ total_size s + size_of k e
  unfolding find put total_size shard_of
  total_size-put s k e wf = omega (
    arith,
    sum_of-set (λ x. total size_of (iter x)) s.shards (hash E s k) (insert (shard_of E s k) k e)
        E.dash.empty (hash-lt s k wf),
    total-iter-insert E.dash size_of (shard_of E s k) k e,
  )

  pub total_size-drop_key :
      (s : Store E) (k : Bytes)
      → IsWf E s
      → total_size (drop_key E s k) + weight size_of k (find E s k) ≡ total_size s
  unfolding find drop_key total_size shard_of
  total_size-drop_key s k wf = omega (
    arith,
    sum_of-set (λ x. total size_of (iter x)) s.shards (hash E s k) (remove (shard_of E s k) k)
        E.dash.empty (hash-lt s k wf),
    total-iter-remove E.dash size_of (shard_of E s k) k,
  )

  pub put-IsWf : (s : Store E) (k : Bytes) (e : Entry) → IsWf E s → IsWf E (put E s k e)
  unfolding put
  put-IsWf s k e wf = omega (arith, length-set s.shards (hash E s k) (insert (shard_of E s k) k e))

  pub drop_key-IsWf : (s : Store E) (k : Bytes) → IsWf E s → IsWf E (drop_key E s k)
  unfolding drop_key
  drop_key-IsWf s k wf = omega (arith, length-set s.shards (hash E s k) (remove (shard_of E s k) k))

-- ===== src/Server/Keyspace.antt =====
-- `keys` and `len` of `ShardedStore` in src/store.rs.
use redistill.Base.{ℕ, ◌+◌, List, [], ◌∷◌, ◌++◌, if◌then◌else◌, Bytes}
use redistill.Store.State.{Env, Store}
use redistill.Store.Entry.{Entry, is_expired}

-- The inner loop of `keys`.
unfoldable pub push_keys : ℕ → List (Bytes × Entry) → List Bytes → List Bytes
push_keys now [] result = result
push_keys now ((key, val) ∷ entries) result =
    push_keys now entries (if is_expired now val.expiry then result else result ++ key ∷ [])

module _ (E : Env) where
  open E.dash use {Shard, iter, len}

  unfoldable pub push_shards : ℕ → List Shard → List Bytes → List Bytes
  push_shards now [] result = result
  push_shards now (shard ∷ shards) result =
      push_shards now shards (push_keys now (iter shard) result)

  unfoldable pub keys : Store E → ℕ → List Bytes
  keys s now = push_shards now s.shards []

  unfoldable pub sum_len : List Shard → ℕ
  sum_len [] = 0
  sum_len (shard ∷ shards) = len shard + sum_len shards

  unfoldable pub db_len : Store E → ℕ
  db_len s = sum_len s.shards

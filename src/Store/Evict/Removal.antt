-- ===== src/Store/Evict/Removal.antt =====
-- Drawing a shard, and removing an entry from it, for the accounts of src/store.rs.
use native.Mathlib.Nat.{mod-lt}
use redistill.Base.{ℕ, ◌+◌, ◌<◌, ◌≡◌, refl, some, arith, Bytes, length, length-set}
use redistill.Store.Dash.{weight, total, total-iter-remove}
use redistill.Store.Entry.{Entry, size_of}
use redistill.Store.State.{Env, Store, IsWf, sub_memory, draw}
use redistill.Store.Laws.{total_size, sum_of-set}
use redistill.Store.Balance.{
  IsBalanced, IsQuiet, IsQuiet-refl, IsBalanced-IsQuiet, sub_memory-IsBalanced,
}
use redistill.Store.Evict.{shard_at, find_at, drop_at, draw_below}

module _ (E : Env) where
  open E.dash use {iter, remove}

  pub IsBalanced-refl : (s : Store E) → IsWf E s → IsBalanced E s s
  IsBalanced-refl s wf = IsBalanced-IsQuiet E wf (IsQuiet-refl E s)

  pub draw_below-IsQuiet : (s : Store E) (n : ℕ) → IsQuiet E s (draw_below E s n).1
  unfolding draw_below draw
  draw_below-IsQuiet s n = record {
    shards = refl;
    num_shards = refl;
    memory = refl;
    queue_count = refl;
  }

  pub draw_below-lt : (s : Store E) → IsWf E s → (draw_below E s s.num_shards).0 < s.num_shards
  unfolding draw_below draw
  draw_below-lt s wf = mod-lt (E.fastrand s.draws) wf.some_shard

  pub total_size-drop_at :
      (s : Store E) (i : ℕ) (key : Bytes)
      → i < length s.shards
      → total_size E (drop_at E s i key) + weight size_of key (find_at E s i key) ≡ total_size E s
  unfolding drop_at find_at shard_at total_size
  total_size-drop_at s i key h = omega (
    arith,
    sum_of-set (λ x. total size_of (iter x)) s.shards i (remove (shard_at E s i) key) E.dash.empty
        h,
    total-iter-remove E.dash size_of (shard_at E s i) key,
  )

  pub drop_at-IsWf : (s : Store E) (i : ℕ) (key : Bytes) → IsWf E s → IsWf E (drop_at E s i key)
  unfolding drop_at
  drop_at-IsWf s i key wf = omega (arith, length-set s.shards i (remove (shard_at E s i) key))

  pub free_at-IsBalanced :
      (s : Store E) (i : ℕ) (key : Bytes) (e : Entry)
      → IsWf E s
      → i < s.num_shards
      → find_at E s i key ≡ some e
      → IsBalanced E s (sub_memory E (drop_at E s i key) (size_of key e))
  free_at-IsBalanced s i key e wf h found =
      sub_memory-IsBalanced E s (drop_at E s i key) (size_of key e) (drop_at-IsWf s i key wf)
        (unfold drop_at in refl) (unfold drop_at in refl)
        (rw found at (total_size-drop_at s i key (omega (arith, wf.shard_count))))

  pub counted-IsQuiet : (s : Store E) (n : ℕ) → IsQuiet E s (record s { evicted_keys = n })
  counted-IsQuiet s n = record {
    shards = refl;
    num_shards = refl;
    memory = refl;
    queue_count = refl;
  }

  -- A random shard index, after which the store is as it was.
  pub drawn :
      (s : Store E)
      → IsWf E s
      → IsQuiet E s (draw_below E s s.num_shards).1
        × ((draw_below E s s.num_shards).0 < (draw_below E s s.num_shards).1.num_shards)
  drawn s wf =
      let q = draw_below-IsQuiet s s.num_shards in
      (q, omega (arith, q.num_shards, draw_below-lt s wf))

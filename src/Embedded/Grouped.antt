-- ===== src/Embedded/Grouped.antt =====
-- `delete` of src/lib.rs groups its keys by shard; it does what it would do to one key after another.
use redistill.Base.{
  ℕ, zero, suc, ◌+◌, ◌<◌, ◌≡◌, refl, sym, ap, ◌∙◌, List, [], ◌∷◌, ◌++◌, arith, Bytes, length,
  get_or, replicate, set, length-set, length-replicate,
}
use native.Mathlib.Nat.{mod-lt}
use redistill.Embedded.{
  Crates, ShardedStore, shard_index, shard_of, find, drop_key, push_key, group_keys, one_if_some,
  remove_in, remove_groups, delete,
}

-- There is a shard for every index that `hash` gives.
pub record IsWf (C : Crates) (s : ShardedStore C) : Type 0 where
  pub some_shard : 0 < s.num_shards
  pub shard_count : length s.shards ≡ s.num_shards

module _ (C : Crates) where
  unfoldable pub delete_each : ShardedStore C → List Bytes → ℕ × ShardedStore C
  delete_each s [] = (0, s)
  delete_each s (key ∷ keys) =
      let (n, t) = delete_each (drop_key C s key) keys in (one_if_some C (find C s key) + n, t)

  pub shard_index-lt :
      (s : ShardedStore C) (key : Bytes) → IsWf C s → shard_index C s key < s.num_shards
  unfolding shard_index
  shard_index-lt s key wf = mod-lt (C.ahash key) wf.some_shard

  remove_in-append :
      (x : C.dash.Shard) (keys : List Bytes) (key : Bytes)
      → remove_in C x (keys ++ key ∷ []) ≡ (
        (remove_in C x keys).0 + one_if_some C (C.dash.get (remove_in C x keys).1 key),
        C.dash.remove (remove_in C x keys).1 key,
      )
  unfolding remove_in
  remove_in-append x [] key = ground arith
  remove_in-append x (k ∷ keys) key = ground (arith, remove_in-append (C.dash.remove x k) keys key)

  remove_groups-push :
      (groups : List (List Bytes)) (shards : List C.dash.Shard) (i : ℕ) (key : Bytes)
      → i < length groups
      → length groups ≡ length shards
      → remove_groups C (push_key C groups i key) shards ≡ (
        (remove_groups C groups shards).0
            + one_if_some C
                (C.dash.get (get_or (remove_groups C groups shards).1 i C.dash.empty) key),
        set
            (remove_groups C groups shards).1
            i
            (C.dash.remove (get_or (remove_groups C groups shards).1 i C.dash.empty) key),
      )
  unfolding remove_groups push_key
  remove_groups-push [] shards i key h same = absurd (omega arith)
  remove_groups-push (keys ∷ groups) [] i key h same = absurd (omega arith)
  remove_groups-push (keys ∷ groups) (x ∷ shards) zero key h same =
      ground (arith, remove_in-append x keys key)
  remove_groups-push (keys ∷ groups) (x ∷ shards) (suc i) key h same =
      ground (arith, remove_groups-push groups shards i key)

  remove_groups-replicate :
      (shards : List C.dash.Shard)
      → remove_groups C (replicate (length shards) []) shards ≡ (0, shards)
  unfolding remove_groups remove_in
  remove_groups-replicate [] = refl
  remove_groups-replicate (x ∷ shards) = ground (arith, remove_groups-replicate shards)

  -- What is removed so far, and the keys one after another behind it.
  abbrev resume : ShardedStore C → ℕ × List C.dash.Shard → List Bytes → ℕ × ShardedStore C
  resume s (n, shards) keys =
      let (m, t) = delete_each (record s { shards = shards }) keys in (n + m, t)

  resume_key :
      (s : ShardedStore C) (r : ℕ × List C.dash.Shard) (key : Bytes) (keys : List Bytes)
      → resume s
          (
            r.0 + one_if_some C (C.dash.get (get_or r.1 (shard_index C s key) C.dash.empty) key),
            set r.1
                (shard_index C s key)
                (C.dash.remove (get_or r.1 (shard_index C s key) C.dash.empty) key),
          )
          keys
        ≡ resume s r (key ∷ keys)
  unfolding delete_each drop_key find shard_of shard_index
  resume_key s r key keys = ground arith

  remove_groups-group_keys :
      (s : ShardedStore C) (keys : List Bytes) (groups : List (List Bytes))
      → IsWf C s
      → length groups ≡ s.num_shards
      → resume s (remove_groups C (group_keys C s keys groups) s.shards) []
        ≡ resume s (remove_groups C groups s.shards) keys
  unfolding group_keys push_key
  remove_groups-group_keys s [] groups wf same = refl
  remove_groups-group_keys s (key ∷ keys) groups wf same =
      let i = shard_index C s key in
      let below : i < length groups = omega (arith, shard_index-lt s key wf) in
      remove_groups-group_keys s keys (push_key C groups i key) wf (length-set groups i _ ∙ same)
      ∙ ap (λ r. resume s r keys)
          (remove_groups-push groups s.shards i key below (omega (arith, wf.shard_count)))
      ∙ resume_key s (remove_groups C groups s.shards) key keys

  resume-nil :
      (s : ShardedStore C) (r : ℕ × List C.dash.Shard)
      → resume s r [] ≡ (r.0, record s { shards = r.1 })
  unfolding delete_each
  resume-nil s r = ground arith

  resume-zero :
      (s : ShardedStore C) (keys : List Bytes) → resume s (0, s.shards) keys ≡ delete_each s keys
  resume-zero s keys = ground arith

  -- delete of the library crate, which groups its keys by shard, gives the count and the store that
  -- it would give on one key after another. The store is well-formed.
  pub delete-delete_each :
      (s : ShardedStore C) (keys : List Bytes) → IsWf C s → delete C s keys ≡ delete_each s keys
  unfolding delete
  delete-delete_each s keys wf =
      sym (resume-nil s _)
      ∙ remove_groups-group_keys s keys (replicate s.num_shards []) wf
          (length-replicate s.num_shards [])
      ∙ ap (λ n. resume s (remove_groups C (replicate n []) s.shards) keys) (sym wf.shard_count)
      ∙ ap (λ r. resume s r keys) (remove_groups-replicate s.shards)
      ∙ resume-zero s keys

-- ===== src/Store/Evict/Expiry.antt =====
-- The background expiry `expire_random_keys` of src/store.rs and the accounts.
use redistill.Base.{
  ℕ, zero, suc, ◌+◌, ◌<◌, ◌≡◌, true, Option, none, some, arith, ltb, ◌==◌, Bytes, length,
  Bool-cases, Option-cases, inl, inr,
}
use redistill.Store.Entry.{Entry, is_expired, size_of}
use redistill.Store.State.{Env, Store, IsWf}
use redistill.Store.Balance.{
  IsBalanced, IsQuiet-trans, IsWf-IsQuiet, IsBalanced-IsQuiet, IsBalanced-trans,
}
use redistill.Store.Evict.{
  shard_at, find_at, draw_below, expire_entry, expire_round, expire_rounds, expire_random_keys,
}
use redistill.Store.Evict.Removal.{IsBalanced-refl, draw_below-IsQuiet, free_at-IsBalanced, drawn}

module _ (E : Env) (tracked : ltb 0 E.config.max_memory ≡ true) where
  open E.dash use {iter}

  expire_entry-IsBalanced :
      (s : Store E) (idx now : ℕ) (entry : Option (Bytes × Entry))
      → IsWf E s
      → idx < s.num_shards
      → IsBalanced E s (expire_entry E s idx now entry).1
  unfolding expire_entry
  expire_entry-IsBalanced s idx now none wf h = IsBalanced-refl E s wf
  expire_entry-IsBalanced s idx now (some (key, e)) wf h =
      elim (Bool-cases (is_expired now e.expiry)) [
        | inr x ↦ rw x (IsBalanced-refl E s wf)
        | inl x ↦ elim (Option-cases (find_at E s idx key)) [
          | inl f ↦ rw (expire_entry, x, f) (IsBalanced-refl E s wf)
          | inr (removed, f) ↦ elim (Bool-cases (is_expired now removed.expiry)) [
            | inl y ↦
                rw (expire_entry, x, f, y, tracked)
                  (unfold size_of in free_at-IsBalanced E s idx key removed wf h f)
            | inr y ↦ rw (expire_entry, x, f, y) (IsBalanced-refl E s wf)
          ]
        ]
      ]

  expire_round-IsBalanced :
      (s : Store E) (now : ℕ) → IsWf E s → IsBalanced E s (expire_round E s now).1
  unfolding expire_round
  expire_round-IsBalanced s now wf =
      let (idx, s1) = draw_below E s s.num_shards in
      let (q, h) = drawn E s wf in
      let q2 = draw_below-IsQuiet E s1 (length (iter (shard_at E s1 idx))) in
      elim (Bool-cases (length (iter (shard_at E s1 idx)) == 0)) [
        | inl e ↦ rw e (IsBalanced-IsQuiet E wf q)
        | inr e ↦ rw e (
            IsBalanced-trans E (IsBalanced-IsQuiet E wf (IsQuiet-trans E q q2)) (
              expire_entry-IsBalanced _ idx now _ (IsWf-IsQuiet E (IsQuiet-trans E q q2) wf)
                (omega (arith, h, q2.num_shards))))
      ]

  expire_rounds-IsBalanced :
      (count : ℕ) (s : Store E) (now expired_count : ℕ)
      → IsWf E s
      → IsBalanced E s (expire_rounds E count s now expired_count).1
  unfolding expire_rounds
  expire_rounds-IsBalanced zero s now expired_count wf = IsBalanced-refl E s wf
  expire_rounds-IsBalanced (suc count) s now expired_count wf =
      let b = expire_round-IsBalanced s now wf in
      let (n, s1) = expire_round E s now in
      IsBalanced-trans E b (expire_rounds-IsBalanced count s1 now (expired_count + n) b.wf)

  pub expire_random_keys-IsBalanced :
      (s : Store E) (count : ℕ) → IsWf E s → IsBalanced E s (expire_random_keys E s count).1
  unfolding expire_random_keys
  expire_random_keys-IsBalanced s count wf = expire_rounds-IsBalanced count s s.clock 0 wf

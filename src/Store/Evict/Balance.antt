-- ===== src/Store/Evict/Balance.antt =====
-- Eviction in src/store.rs and the accounts.
use redistill.Store.Evict.Removal.{
  IsBalanced-refl, draw_below-IsQuiet, draw_below-lt, free_at-IsBalanced, counted-IsQuiet, drawn,
}
use mathlib.Core.Path.{subst}
use redistill.Store.Access.{no_queues}
use redistill.Base.{
  sym, ℕ, zero, suc, ◌+◌, ◌<◌, ◌≡◌, refl, ◌∙◌, Option, none, some, arith, ltb, leb, ◌==◌, Bytes,
  length, ◌%◌, ◌^◌, length-set, get_or, set, Bool-cases, Option-cases, inl, inr,
}
use redistill.Store.Entry.{Entry, size_of}
use redistill.Store.State.{
  Env, Store, IsWf, S3FifoQueues, EvictionPolicy, no_eviction, all_keys_lru, all_keys_random,
  all_keys_s3_fifo,
}
use redistill.Store.Balance.{
  IsBalanced, IsQuiet, IsQuiet-refl, IsWf-IsQuiet, IsBalanced-IsQuiet, IsBalanced-trans,
  IsQuiet-trans,
}
use redistill.Store.Evict.{
  Sampled, shard_at, find_at, draw_below, evict_key, pick, sample_round, sample, evict_sampled,
  evict_lru, evict_entry, evict_random, pop_small, evict_popped, s3fifo_round, s3fifo_rounds,
  evict_s3fifo, evict_by, evict_loop, max_attempts, evict_if_needed, fits, older, is_no_eviction,
  fetch_add,
}

module _ (E : Env) where
  open E.dash use {iter, remove}

  evict_key-IsBalanced :
      (s : Store E) (i : ℕ) (key : Bytes)
      → IsWf E s
      → i < s.num_shards
      → IsBalanced E s (evict_key E s i key).1
  unfolding evict_key
  evict_key-IsBalanced s i key wf h = elim (Option-cases (find_at E s i key)) [
    | inl e ↦ rw (evict_key, e) (IsBalanced-refl E s wf)
    | inr (old, e) ↦
        rw (evict_key, e)
          (unfold size_of in
            (let b = free_at-IsBalanced E s i key old wf h e in
              IsBalanced-trans E b
                (IsBalanced-IsQuiet E b.wf (counted-IsQuiet E _ (fetch_add s.evicted_keys 1)))))
  ]

  -- The shard of a sampled key is a shard.
  abbrev IsIn : ℕ → Option Sampled → Type 0
  IsIn n none = Unit
  IsIn n (some o) = o.shard_idx < n

  pick-IsIn :
      (n idx : ℕ) (oldest : Option Sampled) (entry : Option (Bytes × Entry))
      → idx < n
      → IsIn n oldest
      → IsIn n (pick oldest idx entry)
  unfolding pick older
  pick-IsIn n idx oldest none h o = o
  pick-IsIn n idx none (some (key, e)) h o = h
  pick-IsIn n idx (some p) (some (key, e)) h o = ground arith

  sample_round-IsQuiet :
      (s : Store E) (oldest : Option Sampled)
      → IsWf E s
      → IsIn s.num_shards oldest
      → IsQuiet E s (sample_round E s oldest).1 × IsIn s.num_shards (sample_round E s oldest).0
  unfolding sample_round
  sample_round-IsQuiet s oldest wf o =
      let (idx, s1) = draw_below E s s.num_shards in
      elim (Bool-cases (length (iter (shard_at E s1 idx)) == 0)) [
        | inl h ↦ rw h (draw_below-IsQuiet E s s.num_shards, o)
        | inr h ↦ rw h (
          IsQuiet-trans E (draw_below-IsQuiet E s s.num_shards) (draw_below-IsQuiet E s1 _),
          pick-IsIn s.num_shards idx oldest _ (draw_below-lt E s wf) o,
        )
      ]

  sample-IsQuiet :
      (n k : ℕ) (s : Store E) (oldest : Option Sampled)
      → IsWf E s
      → s.num_shards ≡ k
      → IsIn k oldest
      → IsQuiet E s (sample E n s oldest).1 × IsIn k (sample E n s oldest).0
  unfolding sample
  sample-IsQuiet zero k s oldest wf e o = (IsQuiet-refl E s, o)
  sample-IsQuiet (suc n) k s oldest wf e o =
      let (q, o1) = sample_round-IsQuiet s oldest wf (subst (λ m. IsIn m oldest) (sym e) o) in
      let (r, o2) =
        sample-IsQuiet n k (sample_round E s oldest).1 (sample_round E s oldest).0
          (IsWf-IsQuiet E q wf) (q.num_shards ∙ e)
          (subst (λ m. IsIn m (sample_round E s oldest).0) e o1) in
      (IsQuiet-trans E q r, o2)

  evict_sampled-IsBalanced :
      (s : Store E) (o : Option Sampled)
      → IsWf E s
      → IsIn s.num_shards o
      → IsBalanced E s (evict_sampled E s o).1
  unfolding evict_sampled
  evict_sampled-IsBalanced s none wf h = IsBalanced-refl E s wf
  evict_sampled-IsBalanced s (some o) wf h = evict_key-IsBalanced s o.shard_idx o.key wf h

  evict_lru-IsBalanced : (s : Store E) → IsWf E s → IsBalanced E s (evict_lru E s).1
  unfolding evict_lru
  evict_lru-IsBalanced s wf =
      let (o, s1) = sample E E.config.eviction_sample_size s none in
      let (q, h) = sample-IsQuiet E.config.eviction_sample_size s.num_shards s none wf refl tt in
      IsBalanced-trans E (IsBalanced-IsQuiet E wf q) (
        evict_sampled-IsBalanced s1 o (IsWf-IsQuiet E q wf)
          (subst (λ m. IsIn m o) (sym q.num_shards) h))

  evict_entry-IsBalanced :
      (s : Store E) (idx : ℕ) (entry : Option (Bytes × Entry))
      → IsWf E s
      → idx < s.num_shards
      → IsBalanced E s (evict_entry E s idx entry).1
  unfolding evict_entry
  evict_entry-IsBalanced s idx none wf h = IsBalanced-refl E s wf
  evict_entry-IsBalanced s idx (some (key, e)) wf h = evict_key-IsBalanced s idx key wf h

  evict_random-IsBalanced : (s : Store E) → IsWf E s → IsBalanced E s (evict_random E s).1
  unfolding evict_random
  evict_random-IsBalanced s wf =
      let (idx, s1) = draw_below E s s.num_shards in
      let (q, h) = drawn E s wf in
      let q2 = draw_below-IsQuiet E s1 (length (iter (shard_at E s1 idx))) in
      elim (Bool-cases (length (iter (shard_at E s1 idx)) == 0)) [
        | inl e ↦ rw e (IsBalanced-IsQuiet E wf q)
        | inr e ↦ rw e (
            IsBalanced-trans E (IsBalanced-IsQuiet E wf (IsQuiet-trans E q q2)) (
              evict_entry-IsBalanced _ idx _ (IsWf-IsQuiet E (IsQuiet-trans E q q2) wf)
                (omega (arith, h, q2.num_shards))))
      ]

  evict_popped-IsBalanced :
      (s : Store E) (idx : ℕ) (key : Option Bytes)
      → IsWf E s
      → idx < s.num_shards
      → IsBalanced E s (evict_popped E s idx key).1
  unfolding evict_popped
  evict_popped-IsBalanced s idx none wf h = IsBalanced-refl E s wf
  evict_popped-IsBalanced s idx (some key) wf h = evict_key-IsBalanced s idx key wf h

  queues-IsQuiet :
      (s : Store E) (idx : ℕ) (q : S3FifoQueues)
      → IsQuiet E s (record s { s3fifo_queues = set s.s3fifo_queues idx q })
  queues-IsQuiet s idx q = record {
    shards = refl;
    num_shards = refl;
    memory = refl;
    queue_count = length-set s.s3fifo_queues idx q;
  }

  s3fifo_round-IsBalanced : (s : Store E) → IsWf E s → IsBalanced E s (s3fifo_round E s).1
  unfolding s3fifo_round
  s3fifo_round-IsBalanced s wf =
      let (idx, s1) = draw_below E s s.num_shards in
      let (q, h) = drawn E s wf in
      let (key, popped) = pop_small E (get_or s1.s3fifo_queues idx no_queues) s1.clock in
      let q2 = IsQuiet-trans E q (queues-IsQuiet s1 idx popped) in
      IsBalanced-trans E (IsBalanced-IsQuiet E wf q2)
        (evict_popped-IsBalanced _ idx key (IsWf-IsQuiet E q2 wf) h)

  s3fifo_rounds-IsBalanced :
      (n : ℕ) (s : Store E) → IsWf E s → IsBalanced E s (s3fifo_rounds E n s).1
  unfolding s3fifo_rounds
  s3fifo_rounds-IsBalanced zero s wf = IsBalanced-refl E s wf
  s3fifo_rounds-IsBalanced (suc n) s wf =
      let b = s3fifo_round-IsBalanced s wf in
      elim (Bool-cases ((s3fifo_round E s).0 == 0)) [
        | inl e ↦ rw e (IsBalanced-trans E b (s3fifo_rounds-IsBalanced n (s3fifo_round E s).1 b.wf))
        | inr e ↦ rw e b
      ]

  evict_by-IsBalanced :
      (p : EvictionPolicy) (s : Store E) → IsWf E s → IsBalanced E s (evict_by E p s).1
  unfolding evict_by evict_s3fifo
  evict_by-IsBalanced no_eviction s wf = IsBalanced-refl E s wf
  evict_by-IsBalanced all_keys_lru s wf = evict_lru-IsBalanced s wf
  evict_by-IsBalanced all_keys_random s wf = evict_random-IsBalanced s wf
  evict_by-IsBalanced all_keys_s3_fifo s wf = s3fifo_rounds-IsBalanced s.num_shards s wf

  evict_loop-IsBalanced :
      (n : ℕ) (s : Store E) (needed freed : ℕ)
      → IsWf E s
      → IsBalanced E s (evict_loop E n s needed freed)
  unfolding evict_loop
  evict_loop-IsBalanced zero s needed freed wf = IsBalanced-refl E s wf
  evict_loop-IsBalanced (suc n) s needed freed wf =
      let b = evict_by-IsBalanced E.config.eviction_policy s wf in
      let (evicted, s1) = evict_by E E.config.eviction_policy s in
      elim (Bool-cases (ltb freed needed)) [
        | inr e ↦ rw e (IsBalanced-refl E s wf)
        | inl e ↦ elim (Bool-cases (evicted == 0)) [
          | inl z ↦ rw (e, z) b
          | inr z ↦
              rw (e, z)
                (IsBalanced-trans E b (evict_loop-IsBalanced n s1 needed (freed + evicted) b.wf))
        ]
      ]

  -- Making room, under every eviction policy, keeps the store well-formed and changes MEMORY_USED,
  -- as a u64, by what it changes the sum of the entries' sizes by. The store is well-formed.
  pub evict_if_needed-IsBalanced :
      (s : Store E) (needed : ℕ) → IsWf E s → IsBalanced E s (evict_if_needed E s needed).1
  unfolding evict_if_needed
  evict_if_needed-IsBalanced s needed wf =
      let b = evict_loop-IsBalanced max_attempts s needed 0 wf in
      elim (Bool-cases (E.config.max_memory == 0)) [
        | inl e ↦ rw e (IsBalanced-refl E s wf)
        | inr e ↦ elim (Bool-cases (fits E s needed)) [
          | inl f ↦ rw (e, f) (IsBalanced-refl E s wf)
          | inr f ↦ elim (Bool-cases (is_no_eviction E.config.eviction_policy)) [
            | inl p ↦ rw (e, f, p) (IsBalanced-refl E s wf)
            | inr p ↦ rw (e, f, p) b
          ]
        ]
      ]

  -- With a memory limit set, evict_if_needed answers true just when the memory then used and the
  -- size needed stay within the limit, their sum taken in u64.
  pub evict_if_needed-fits :
      (s : Store E) (needed : ℕ)
      → 0 < E.config.max_memory
      → (evict_if_needed E s needed).0
        ≡ leb (((evict_if_needed E s needed).1.memory_used + needed) % 2 ^ 64) E.config.max_memory
  unfolding evict_if_needed fits
  evict_if_needed-fits s needed h = ground arith

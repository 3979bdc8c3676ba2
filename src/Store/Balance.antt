-- ===== src/Store/Balance.antt =====
-- The accounts of src/store.rs: MEMORY_USED beside the sizes of the entries.
use redistill.Base.{◌∙◌, ℕ, ◌+◌, ◌%◌, ◌^◌, ◌≡◌, refl, some, arith, Bytes, length, ◌∙◌}
use redistill.Store.Entry.{Entry, size_of}
use redistill.Store.State.{
  Env, Store, IsWf, hash, shard_of, find, put, drop_key, sub_memory, add_memory,
}
use redistill.Store.Laws.{total_size, total_size-put, total_size-drop_key, put-IsWf, drop_key-IsWf}

module _ (E : Env) where
  -- MEMORY_USED is the sum of the sizes, as far as a u64 goes.
  abbrev pub IsAccounted : Store E → Type 0
  IsAccounted s = s.memory_used % 2 ^ 64 ≡ total_size E s % 2 ^ 64

  -- From `s` to `t` the store stays well-formed, and MEMORY_USED grows by what the entries grow.
  pub record IsBalanced (s t : Store E) : Type 0 where
    pub wf : IsWf E t
    pub shard_count : t.num_shards ≡ s.num_shards
    pub even : (t.memory_used + total_size E s) % 2 ^ 64 ≡ (s.memory_used + total_size E t) % 2 ^ 64

  -- Nothing that counts has changed: queues, random numbers and the clock may have.
  pub record IsQuiet (s t : Store E) : Type 0 where
    pub shards : t.shards ≡ s.shards
    pub num_shards : t.num_shards ≡ s.num_shards
    pub memory : t.memory_used ≡ s.memory_used
    pub queue_count : length t.s3fifo_queues ≡ length s.s3fifo_queues

  pub IsQuiet-refl : (s : Store E) → IsQuiet s s
  IsQuiet-refl s = record { shards = refl; num_shards = refl; memory = refl; queue_count = refl }

  pub IsQuiet-trans : {s t u : Store E} → IsQuiet s t → IsQuiet t u → IsQuiet s u
  IsQuiet-trans {s} {t} {u} a b = record {
    shards = cc (a.shards, b.shards);
    num_shards = cc (a.num_shards, b.num_shards);
    memory = cc (a.memory, b.memory);
    queue_count = cc (a.queue_count, b.queue_count);
  }

  pub find-IsQuiet : {s t : Store E} → IsQuiet s t → (k : Bytes) → find E t k ≡ find E s k
  unfolding find shard_of hash
  find-IsQuiet q k = rw (q.shards, q.num_shards)

  pub total_size-IsQuiet : {s t : Store E} → IsQuiet s t → total_size E t ≡ total_size E s
  unfolding total_size
  total_size-IsQuiet q = rw q.shards

  pub IsWf-IsQuiet : {s t : Store E} → IsQuiet s t → IsWf E s → IsWf E t
  IsWf-IsQuiet q wf = record {
    some_shard = omega (arith, q.num_shards, wf.some_shard);
    shard_count = rw (q.shards, q.num_shards) wf.shard_count;
    queue_count = rw (q.queue_count, q.num_shards) wf.queue_count;
  }

  pub IsBalanced-IsQuiet : {s t : Store E} → IsWf E s → IsQuiet s t → IsBalanced s t
  IsBalanced-IsQuiet wf q = record {
    wf = IsWf-IsQuiet q wf;
    shard_count = q.num_shards;
    even = omega (arith, q.memory, total_size-IsQuiet q);
  }

  pub IsBalanced-trans : {s t u : Store E} → IsBalanced s t → IsBalanced t u → IsBalanced s u
  IsBalanced-trans a b = record {
    wf = b.wf;
    shard_count = b.shard_count ∙ a.shard_count;
    even = omega (arith, a.even, b.even);
  }

  -- A balanced step keeps the accounts right.
  pub IsAccounted-IsBalanced : {s t : Store E} → IsBalanced s t → IsAccounted s → IsAccounted t
  IsAccounted-IsBalanced b a = omega (arith, b.even)

  -- An entry is replaced by one of the same size.
  pub put-IsBalanced :
      (s : Store E) (k : Bytes) (old e : Entry)
      → IsWf E s
      → find E s k ≡ some old
      → size_of k e ≡ size_of k old
      → IsBalanced s (put E s k e)
  put-IsBalanced s k old e wf found same = record {
    wf = put-IsWf E s k e wf;
    shard_count = unfold put in refl;
    even =
        let grown : total_size E (put E s k e) + size_of k old ≡ total_size E s + size_of k e =
          rw found at (total_size-put E s k e wf) in
        unfold put in omega (arith, grown, same);
  }

  pub sub_memory-IsWf : (s : Store E) (n : ℕ) → IsWf E s → IsWf E (sub_memory E s n)
  unfolding sub_memory
  sub_memory-IsWf s n wf = omega arith

  pub add_memory-IsWf : (s : Store E) (n : ℕ) → IsWf E s → IsWf E (add_memory E s n)
  unfolding add_memory
  add_memory-IsWf s n wf = omega arith

  pub total_size-sub_memory :
      (s : Store E) (n : ℕ) → total_size E (sub_memory E s n) ≡ total_size E s
  unfolding sub_memory total_size
  total_size-sub_memory s n = refl

  pub total_size-add_memory :
      (s : Store E) (n : ℕ) → total_size E (add_memory E s n) ≡ total_size E s
  unfolding add_memory total_size
  total_size-add_memory s n = refl

  -- MEMORY_USED and the entries shrink by the same number.
  pub sub_memory-IsBalanced :
      (s t : Store E) (n : ℕ)
      → IsWf E t
      → t.num_shards ≡ s.num_shards
      → t.memory_used ≡ s.memory_used
      → total_size E t + n ≡ total_size E s
      → IsBalanced s (sub_memory E t n)
  sub_memory-IsBalanced s t n wf count same shrunk = record {
    wf = sub_memory-IsWf t n wf;
    shard_count = unfold sub_memory in count;
    even = rw (total_size-sub_memory t n) (unfold sub_memory in omega (arith, same, shrunk));
  }

  -- MEMORY_USED and the entries grow by the same number.
  pub add_memory-IsBalanced :
      (s t : Store E) (n : ℕ)
      → IsWf E t
      → t.num_shards ≡ s.num_shards
      → t.memory_used ≡ s.memory_used
      → total_size E t ≡ total_size E s + n
      → IsBalanced s (add_memory E t n)
  add_memory-IsBalanced s t n wf count same grown = record {
    wf = add_memory-IsWf t n wf;
    shard_count = unfold add_memory in count;
    even = rw (total_size-add_memory t n) (unfold add_memory in omega (arith, same, grown));
  }

  pub memory-put : (s : Store E) (k : Bytes) (e : Entry) → (put E s k e).memory_used ≡ s.memory_used
  unfolding put
  memory-put s k e = refl

  pub num_shards-put :
      (s : Store E) (k : Bytes) (e : Entry) → (put E s k e).num_shards ≡ s.num_shards
  unfolding put
  num_shards-put s k e = refl

  -- An entry is removed and its size freed.
  pub free-IsBalanced :
      (s : Store E) (k : Bytes) (old : Entry)
      → IsWf E s
      → find E s k ≡ some old
      → IsBalanced s (sub_memory E (drop_key E s k) (size_of k old))
  free-IsBalanced s k old wf found =
      sub_memory-IsBalanced s (drop_key E s k) (size_of k old) (drop_key-IsWf E s k wf)
        (unfold drop_key in refl) (unfold drop_key in refl)
        (rw found at (total_size-drop_key E s k wf))

  pub find-sub_memory : (s : Store E) (n : ℕ) (k : Bytes) → find E (sub_memory E s n) k ≡ find E s k
  unfolding find sub_memory shard_of hash
  find-sub_memory s n k = refl

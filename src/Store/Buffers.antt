-- ===== src/Store/Buffers.antt =====
-- The pool of buffers in src/store.rs, from which every `RespWriter` takes its buffer, and to which it
-- returns it.
use redistill.Base.{
  ℕ, zero, suc, ◌+◌, ◌-◌, ◌*◌, ◌/◌, ◌≤◌, ◌<◌, max, ◌≡◌, refl, ap, ◌∙◌, inl, inr, ◌&&◌, Option, none,
  some, List, [], ◌∷◌, ◌++◌, arith, ltb, leb, if◌then◌else◌, Bytes, length, All, length-append,
  Bool-cases, Option-cases, All-append, leb→le,
}

-- A `Vec<u8>`: what it holds, and its capacity.
pub record Buffer : Type 0 where
  pub content : Bytes
  pub capacity : ℕ

-- The queue of the crate `crossbeam`: `push` adds at its end, `pop` takes from its front.
pub record SegQueue : Type 1 where
  pub Queue : Type 0
  pub new : Queue
  pub push : Queue → Buffer → Queue
  pub pop : Queue → Option (Buffer × Queue)
  pub len : Queue → ℕ
  pub items : Queue → List Buffer
  pub items-new : items new ≡ []
  pub items-push : (q : Queue) (b : Buffer) → items (push q b) ≡ items q ++ b ∷ []
  pub items-pop : (q r : Queue) (b : Buffer) → pop q ≡ some (b, r) → items q ≡ b ∷ items r
  pub pop_none : (q : Queue) → pop q ≡ none → items q ≡ []
  pub len-items : (q : Queue) → len q ≡ length (items q)

-- `Vec::with_capacity`, which allocates no less
abbrev pub fresh_buffer : ℕ → Buffer
fresh_buffer capacity = record { content = []; capacity = capacity }

module _ (S : SegQueue) (buffer_size buffer_pool_size : ℕ) where
  open S use {Queue, new, push, pop, len, items}

  unfoldable pub fill : ℕ → Queue → Queue
  fill zero q = q
  fill (suc n) q = fill n (push q (fresh_buffer buffer_size))

  -- BUFFER_POOL at its first use
  unfoldable pub initial_pool : Queue
  initial_pool = fill buffer_pool_size new

  unfoldable pub get_buffer : Queue → Buffer × Queue
  get_buffer q = elim (pop q) [ none ↦ (fresh_buffer buffer_size, q) | some (b, r) ↦ (b, r) ]

  unfoldable pub return_buffer : Queue → Buffer → Queue
  return_buffer q buf =
      let cleared = record buf { content = [] } in
      if leb buf.capacity (buffer_size * 2)
      then push q cleared
      else if leb buf.capacity (buffer_size * 4) && ltb (len q) (buffer_pool_size / 4)
      then push q cleared
      else q

  -- The pool, and how many buffers are in use. A user may fill a buffer and let it grow.
  pub record Buffers : Type 0 where
    pub pool : Queue
    pub in_use : ℕ

  pub data Use (b : Buffers) : Buffers → Type 0 where
    gets : Use b (record { pool = (get_buffer b.pool).1; in_use = b.in_use + 1 })
    returns :
        (buf : Buffer)
        → 0 < b.in_use
        → Use b (record { pool = return_buffer b.pool buf; in_use = b.in_use - 1 })

  pub data Uses (b : Buffers) : Buffers → Type 0 where
    start : Uses b b
    next : {c d : Buffers} → Uses b c → Use c d → Uses b d

  -- At most so many buffers are ever in use at once.
  abbrev pub AllWithin : ℕ → {b c : Buffers} → Uses b c → Type 0
  AllWithin most {b} start = b.in_use ≤ most
  AllWithin most {c = c} (next uses u) = AllWithin most uses × (c.in_use ≤ most)

  -- A buffer to hand out: empty, and not too large.
  abbrev pub IsClean : Buffer → Type 0
  IsClean b = (b.content ≡ []) × (b.capacity ≤ buffer_size * 4)

  get_buffer-IsClean :
      (q : Queue)
      → All IsClean (items q)
      → IsClean (get_buffer q).0
        × All IsClean (items (get_buffer q).1)
        × (length (items (get_buffer q).1) ≡ length (items q) - 1)
  unfolding get_buffer
  get_buffer-IsClean q h = elim (Option-cases (pop q)) [
    | inl e ↦
        let nil = S.pop_none q e in
        rw (e, get_buffer)
          ((refl, omega arith), h, omega (arith, ap (λ (l : List Buffer). length l) nil))
    | inr ((b, r), e) ↦
        let same = S.items-pop q r b e in
        let k = rw same at h in
        rw (e, get_buffer) (k.0, k.1, omega (arith, ap (λ (l : List Buffer). length l) same))
  ]

  push-IsClean :
      (q : Queue) (b : Buffer)
      → IsClean b
      → All IsClean (items q)
      → All IsClean (items (push q b)) × (length (items (push q b)) ≡ length (items q) + 1)
  push-IsClean q b clean h = rw (S.items-push q b) (
    All-append IsClean (items q) _ h (clean, tt),
    length-append (items q) (b ∷ []) ∙ (omega arith),
  )

  return_buffer-IsClean :
      (q : Queue) (buf : Buffer)
      → All IsClean (items q)
      → All IsClean (items (return_buffer q buf))
        × (length (items (return_buffer q buf)) ≤ length (items q) + 1)
  unfolding return_buffer
  return_buffer-IsClean q buf h = elim (Bool-cases (leb buf.capacity (buffer_size * 2))) [
    | inl small ↦
        let (clean, grown) =
          push-IsClean q (record buf { content = [] })
            (refl, omega (arith, leb→le buf.capacity (buffer_size * 2) small)) h in
        rw small (clean, omega (arith, grown))
    | inr large ↦
        elim (Bool-cases
          (leb buf.capacity (buffer_size * 4) && ltb (len q) (buffer_pool_size / 4))) [
            | inr kept_out ↦ rw (large, kept_out) (h, omega arith)
            | inl few ↦
                let (clean, grown) =
                  push-IsClean q (record buf { content = [] }) (refl, ground arith) h in
                rw (large, few) (clean, omega (arith, grown))
          ]
  ]

  -- The pool is clean, and with the buffers in use within a bound.
  pub record IsBounded (most : ℕ) (b : Buffers) : Type 0 where
    pub clean : All IsClean (items b.pool)
    pub bounded : length (items b.pool) + b.in_use ≤ max buffer_pool_size most

  Use-IsBounded :
      (most : ℕ) {b c : Buffers} → Use b c → c.in_use ≤ most → IsBounded most b → IsBounded most c
  Use-IsBounded most {b} gets few h =
      let (_, clean, less) = get_buffer-IsClean b.pool h.clean in
      record { clean = clean; bounded = omega (arith, less, h.bounded, few) }
  Use-IsBounded most {b} (returns buf some_used) few h =
      let (clean, more) = return_buffer-IsClean b.pool buf h.clean in
      record { clean = clean; bounded = omega (arith, more, h.bounded) }

  -- Whatever buffers are taken from the pool and returned to it, each buffer in it is empty and at
  -- most four times the configured size, and the pool with the buffers in use is at most as large
  -- as the larger of its configured size and of the most buffers ever in use. The same holds at the
  -- start.
  pub Uses-IsBounded :
      (most : ℕ) {b c : Buffers} (uses : Uses b c)
      → AllWithin most uses
      → IsBounded most b
      → IsBounded most c
  Uses-IsBounded most start few h = h
  Uses-IsBounded most (next uses u) (before, few) h =
      Use-IsBounded most u few (Uses-IsBounded most uses before h)

  fill-IsClean :
      (n : ℕ) (q : Queue)
      → All IsClean (items q)
      → All IsClean (items (fill n q)) × (length (items (fill n q)) ≡ length (items q) + n)
  unfolding fill
  fill-IsClean zero q h = (h, omega arith)
  fill-IsClean (suc n) q h =
      let (clean, grown) = push-IsClean q (fresh_buffer buffer_size) (refl, omega arith) h in
      let (all_clean, all_grown) = fill-IsClean n (push q (fresh_buffer buffer_size)) clean in
      (all_clean, omega (arith, grown, all_grown))

  pub initial_pool-IsBounded :
      (most : ℕ) → IsBounded most (record { pool = initial_pool; in_use = 0 })
  unfolding initial_pool
  initial_pool-IsBounded most =
      let (clean, filled) = fill-IsClean buffer_pool_size new (rw (S.items-new) tt) in
      record {
        clean = clean;
        bounded = omega (arith, filled, ap (λ (l : List Buffer). length l) (S.items-new));
      }

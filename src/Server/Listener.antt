-- ===== src/Server/Listener.antt =====
-- The accept loop of `main` in src/main.rs, with the connections that it lets in: the task of one runs
-- later, and only then is the connection counted in ACTIVE_CONNECTIONS.
use redistill.Base.{
  ℕ, zero, suc, ◌+◌, ◌-◌, ◌%◌, ◌^◌, ◌≤◌, ◌<◌, ◌≡◌, ap, ◌∙◌, inl, inr, Bool, true, false, ◌&&◌,
  arith, ltb, leb, if◌then◌else◌, Bool-cases,
}
use redistill.Store.State.{Env, fetch_add, fetch_sub}
use redistill.Server.{Settings, World}
use redistill.Server.Auth.{check_rate_limit}

-- Connections whose task was spawned and has not reached `handle_connection`, and those inside it.
pub record Listening (E : Env) : Type 0 where
  pub world : World E
  pub waiting : ℕ
  pub serving : ℕ

module _ {E : Env} where
  abbrev pub reject : World E → World E
  reject w = record w { rejected_connections = fetch_add w.rejected_connections 1 }

  -- What is decided about a connection: its task is spawned, or it is dropped. A limit of 0 is none.
  unfoldable pub accept : Settings → ℕ → World E → World E × Bool
  accept cfg max_connections w =
      let limited = check_rate_limit E cfg w in
      if ltb 0 max_connections && leb max_connections w.active_connections
      then (reject w, false)
      else if limited.1
      then (limited.0, true)
      else (reject limited.0, false)

  unfoldable pub accept_next : Settings → ℕ → Listening E → Listening E
  accept_next cfg max_connections l =
      let (w, let_in) = accept cfg max_connections l.world in
      record l { world = w; waiting = if let_in then l.waiting + 1 else l.waiting }

  -- The first lines of `handle_connection`.
  unfoldable pub begin : World E → World E
  begin w = record w {
    total_connections = fetch_add w.total_connections 1;
    active_connections = fetch_add w.active_connections 1;
  }

  -- Its last.
  unfoldable pub finish : World E → World E
  finish w = record w { active_connections = fetch_sub w.active_connections 1 }

-- What may happen next: a connection arrives, a task reaches `handle_connection`, a TLS handshake
-- fails or times out, a connection ends, or the world changes otherwise.
pub data Event (E : Env) (cfg : Settings) (max_connections : ℕ) (l : Listening E)
    : Listening E → Type 0 where
  arrives : Event E cfg max_connections l (accept_next cfg max_connections l)
  begins :
      0 < l.waiting
      → Event E cfg max_connections l
          (record { world = begin l.world; waiting = l.waiting - 1; serving = l.serving + 1 })
  drops : 0 < l.waiting → Event E cfg max_connections l (record l { waiting = l.waiting - 1 })
  ends :
      0 < l.serving
      → Event E cfg max_connections l (record l { world = finish l.world; serving = l.serving - 1 })
  works :
      (w : World E)
      → w.active_connections ≡ l.world.active_connections
      → Event E cfg max_connections l (record l { world = w })

pub data Events (E : Env) (cfg : Settings) (max_connections : ℕ) (l : Listening E)
    : Listening E → Type 0 where
  start : Events E cfg max_connections l l
  next :
      {k m : Listening E}
      → Events E cfg max_connections l k
      → Event E cfg max_connections k m
      → Events E cfg max_connections l m

module _ (E : Env) (cfg : Settings) (max_connections : ℕ) where
  -- ACTIVE_CONNECTIONS is the number of connections inside `handle_connection`.
  pub record IsCounted (l : Listening E) : Type 0 where
    pub counted : l.world.active_connections ≡ l.serving % 2 ^ 64

  check_rate_limit-active :
      (w : World E) → (check_rate_limit E cfg w).0.active_connections ≡ w.active_connections
  unfolding check_rate_limit
  check_rate_limit-active w = ground arith

  accept-active :
      (w : World E) → (accept cfg max_connections w).0.active_connections ≡ w.active_connections
  unfolding accept
  accept-active w = ground (arith, check_rate_limit-active w)

  Event-IsCounted :
      {l m : Listening E} → Event E cfg max_connections l m → IsCounted l → IsCounted m
  unfolding accept_next begin finish
  Event-IsCounted {l} arrives c = record {
    counted = omega (arith, accept-active l.world, c.counted);
  }
  Event-IsCounted (begins h) c = record { counted = omega (arith, c.counted) }
  Event-IsCounted (drops h) c = record { counted = c.counted }
  Event-IsCounted (ends h) c = record { counted = omega (arith, c.counted) }
  Event-IsCounted (works w same) c = record { counted = omega (arith, same, c.counted) }

  pub Events-IsCounted :
      {l m : Listening E} → Events E cfg max_connections l m → IsCounted l → IsCounted m
  Events-IsCounted start c = c
  Events-IsCounted (next events e) c = Event-IsCounted e (Events-IsCounted events c)

  -- At most so many tasks ever wait.
  abbrev pub AllWithin : ℕ → {l m : Listening E} → Events E cfg max_connections l m → Type 0
  AllWithin most {l} start = l.waiting ≤ most
  AllWithin most {m = m} (next events e) = AllWithin most events × (m.waiting ≤ most)

  accept_let_in :
      (w : World E)
      → 0 < max_connections
      → (accept cfg max_connections w).1 ≡ true
      → w.active_connections < max_connections
  unfolding accept
  accept_let_in w limit let_in = ground arith

  Event-sum :
      (most : ℕ) {l m : Listening E}
      → Event E cfg max_connections l m
      → IsCounted l
      → 0 < max_connections
      → max_connections + most ≤ 2 ^ 64
      → m.waiting ≤ most
      → l.serving + l.waiting + 1 ≤ max_connections + most
      → m.serving + m.waiting + 1 ≤ max_connections + most
  unfolding accept_next
  Event-sum most {l} arrives c limit fits few h =
      elim (Bool-cases (accept cfg max_connections l.world).1) [
        | inl let_in ↦ omega (
          arith,
          accept_let_in l.world limit let_in,
          c.counted,
          few,
          ap (λ (b : Bool). if b then l.waiting + 1 else l.waiting) let_in,
        )
        | inr out ↦ omega (arith, ap (λ (b : Bool). if b then l.waiting + 1 else l.waiting) out)
      ]
  Event-sum most (begins some_waiting) c limit fits few h = omega arith
  Event-sum most (drops some_waiting) c limit fits few h = omega arith
  Event-sum most (ends some_serving) c limit fits few h = omega arith
  Event-sum most (works w same) c limit fits few h = h

  -- While at most `most` spawned tasks wait to reach handle_connection, the connections being
  -- served and those that wait are fewer, together, than max_connections and `most` together: with
  -- one waiting at most, no more than max_connections. The same holds at the start, where
  -- ACTIVE_CONNECTIONS is the number of those served; a limit is set, and the sum is at most 2^64.
  pub serving-le :
      (most : ℕ) {l m : Listening E} (events : Events E cfg max_connections l m)
      → AllWithin most events
      → IsCounted l
      → 0 < max_connections
      → max_connections + most ≤ 2 ^ 64
      → l.serving + l.waiting + 1 ≤ max_connections + most
      → m.serving + m.waiting + 1 ≤ max_connections + most
  serving-le most start few c limit fits h = h
  serving-le most (next events e) (before, few) c limit fits h =
      Event-sum most e (Events-IsCounted events c) limit fits few
        (serving-le most events before c limit fits h)

  -- Arrivals in a row.
  abbrev pub arrivals : ℕ → Listening E → Listening E
  arrivals zero l = l
  arrivals (suc n) l = arrivals n (accept_next cfg max_connections l)

  accept_unlimited :
      (w : World E)
      → cfg.connection_rate_limit ≡ 0
      → w.active_connections < max_connections
      → accept cfg max_connections w ≡ (w, true)
  unfolding accept check_rate_limit
  accept_unlimited w none_limited h = ground arith

  accept_next_unlimited :
      (l : Listening E)
      → cfg.connection_rate_limit ≡ 0
      → l.world.active_connections < max_connections
      → accept_next cfg max_connections l ≡ record l { waiting = l.waiting + 1 }
  unfolding accept_next
  accept_next_unlimited l none_limited h = rw (accept_unlimited l.world none_limited h)

  -- Connections that arrive before a spawned task has reached handle_connection, so also while TLS
  -- handshakes last, are all let in, any number of them: max_connections does not count them. There
  -- is no limit on the rate, and fewer connections are being served than max_connections.
  pub waiting-arrivals :
      (n : ℕ) (l : Listening E)
      → cfg.connection_rate_limit ≡ 0
      → l.world.active_connections < max_connections
      → (arrivals n l).waiting ≡ l.waiting + n
  waiting-arrivals zero l none_limited h = omega arith
  waiting-arrivals (suc n) l none_limited h =
      let step = ap (λ k. (arrivals n k).waiting) (accept_next_unlimited l none_limited h) in
      let rest = waiting-arrivals n (record l { waiting = l.waiting + 1 }) none_limited h in
      step ∙ rest ∙ (omega arith)

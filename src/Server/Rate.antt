-- ===== src/Server/Rate.antt =====
-- `check_rate_limit` of src/server.rs, called again and again within one second.
use redistill.Base.{
  ℕ, zero, suc, ◌+◌, ◌-◌, ◌^◌, ◌<◌, min, ◌≡◌, refl, ◌≢◌, true, false, arith, ◌==◌, if◌then◌else◌,
}
use redistill.Store.State.{Env, fetch_add}
use redistill.Server.{Settings, World}
use redistill.Server.Auth.{check_rate_limit}

module _ (E : Env) (cfg : Settings) where
  -- How many of so many connections are let in, the clock standing still.
  abbrev pub let_in : ℕ → World E → ℕ
  let_in zero w = 0
  let_in (suc n) w =
      (if (check_rate_limit E cfg w).1 then 1 else 0) + let_in n (check_rate_limit E cfg w).0

  let_in_later :
      (n : ℕ) (w : World E)
      → cfg.connection_rate_limit ≢ 0
      → w.last_rate_check ≡ w.store.clock
      → w.connections_this_second + n < 2 ^ 64
      → let_in n w ≡ min n (cfg.connection_rate_limit - w.connections_this_second)
  unfolding check_rate_limit
  let_in_later zero w limited same small = omega arith
  let_in_later (suc n) w limited same small =
      let zero_limit : (cfg.connection_rate_limit == 0) ≡ false = ground arith in
      let now : (w.store.clock == w.last_rate_check) ≡ true = ground arith in
      let next =
        let_in_later n
          (record w { connections_this_second = fetch_add w.connections_this_second 1 }) limited
          same (omega arith) in
      rw (zero_limit, now, next) (ground arith)

  -- Of fewer than 2^64 connections that come within one second check_rate_limit lets in the first
  -- ones, as many as the limit says, and no more. A limit is set, and the last check before was in
  -- another second.
  pub let_in_first :
      (n : ℕ) (w : World E)
      → cfg.connection_rate_limit ≢ 0
      → w.last_rate_check ≢ w.store.clock
      → n < 2 ^ 64
      → let_in n w ≡ min n cfg.connection_rate_limit
  unfolding check_rate_limit
  let_in_first zero w limited fresh small = omega arith
  let_in_first (suc n) w limited fresh small =
      let zero_limit : (cfg.connection_rate_limit == 0) ≡ false = ground arith in
      let now : (w.store.clock == w.last_rate_check) ≡ false = ground arith in
      let next =
        let_in_later n (record w { last_rate_check = w.store.clock; connections_this_second = 1 })
          limited refl (omega arith) in
      rw (zero_limit, now) (omega (arith, next))

-- ===== src/Commands/Run.antt =====
-- The commands of src/main.rs and its background tasks as the steps of one store, in any order.
use redistill.Base.{ℕ, ◌≡◌, refl, true, ltb, List, ◌∷◌, Bytes}
use redistill.Base.Int.{ℤ}
use redistill.Store.State.{Env, Store, IsWf}
use redistill.Store.Balance.{
  IsAccounted, IsBalanced, IsBalanced-trans, IsBalanced-IsQuiet, IsAccounted-IsBalanced,
}
use redistill.Store.Strings.{get, key_type, delete}
use redistill.Store.Strings.Balance.{get-IsBalanced, key_type-IsBalanced, delete-IsBalanced}
use redistill.Store.Evict.{expire_random_keys}
use redistill.Store.Evict.Expiry.{expire_random_keys-IsBalanced}
use redistill.Commands.Set.{handle_set}
use redistill.Commands.Counter.{handle_incr, handle_incrby, handle_decrby}
use redistill.Commands.Expiry.{handle_ttl, handle_pttl, handle_expire, handle_persist}
use redistill.Commands.Many.{handle_mget, handle_mset}
use redistill.Commands.HashCommands.{handle_hset, handle_hget, handle_hgetall, handle_hdel}
use redistill.Commands.Balance.{
  same-IsBalanced, handle_set-IsBalanced, handle_mget-IsBalanced, handle_mset-IsBalanced,
}
use redistill.Commands.Balance.Counters.{
  handle_incr-IsBalanced, handle_incrby-IsBalanced, handle_decrby-IsBalanced,
}
use redistill.Commands.Balance.Keys.{
  handle_ttl-IsBalanced, handle_pttl-IsBalanced, handle_expire-IsBalanced,
  handle_persist-IsBalanced,
}
use redistill.Commands.Balance.Fields.{
  LeavesField, handle_hset-IsBalanced, handle_hget-IsBalanced, handle_hgetall-IsBalanced,
  handle_hdel-IsBalanced,
}

-- One command, with any arguments at any time, a round of the background expiry, or the clock.
pub data Step (E : Env) (s : Store E) : Store E → Type 0 where
  set_step : (args : List Bytes) (w : Bytes) (now : ℕ) → Step E s (handle_set E s args w now).1
  get_step : (key : Bytes) (now : ℕ) → Step E s (get E s key now).1
  type_step : (key : Bytes) (now : ℕ) → Step E s (key_type E s key now).1
  del_step : (keys : List Bytes) (now : ℕ) → Step E s (delete E s keys now).1
  incr_step :
      (args : List Bytes) (w : Bytes) (now : ℕ) (delta : ℤ)
      → Step E s (handle_incr E s args w now delta).1
  incrby_step :
      (args : List Bytes) (w : Bytes) (now : ℕ) → Step E s (handle_incrby E s args w now).1
  decrby_step :
      (args : List Bytes) (w : Bytes) (now : ℕ) → Step E s (handle_decrby E s args w now).1
  ttl_step : (args : List Bytes) (w : Bytes) (now : ℕ) → Step E s (handle_ttl E s args w now).1
  pttl_step : (args : List Bytes) (w : Bytes) (now : ℕ) → Step E s (handle_pttl E s args w now).1
  expire_step :
      (args : List Bytes) (w : Bytes) (now : ℕ) → Step E s (handle_expire E s args w now).1
  persist_step :
      (args : List Bytes) (w : Bytes) (now : ℕ) → Step E s (handle_persist E s args w now).1
  mget_step : (args : List Bytes) (w : Bytes) (now : ℕ) → Step E s (handle_mget E s args w now).1
  mset_step : (args : List Bytes) (w : Bytes) (now : ℕ) → Step E s (handle_mset E s args w now).1
  hset_step : (args : List Bytes) (w : Bytes) (now : ℕ) → Step E s (handle_hset E s args w now).1
  hget_step : (args : List Bytes) (w : Bytes) (now : ℕ) → Step E s (handle_hget E s args w now).1
  hgetall_step :
      (args : List Bytes) (w : Bytes) (now : ℕ) → Step E s (handle_hgetall E s args w now).1
  hdel_step :
      (cmd key field : Bytes) (fields : List Bytes) (w : Bytes) (now : ℕ)
      → LeavesField E s key (field ∷ fields)
      → Step E s (handle_hdel E s (cmd ∷ key ∷ field ∷ fields) w now).1
  expiry_step : (count : ℕ) → Step E s (expire_random_keys E s count).1
  tick : (now : ℕ) → Step E s (record s { clock = now })

-- Steps in a row.
pub data Run (E : Env) (s : Store E) : Store E → Type 0 where
  start : Run E s s
  then_step : {t u : Store E} → Run E s t → Step E t u → Run E s u

module _ (E : Env) (tracked : ltb 0 E.config.max_memory ≡ true) where
  Step-IsBalanced : {s t : Store E} → Step E s t → IsWf E s → IsBalanced E s t
  Step-IsBalanced {s} (set_step args w now) wf = handle_set-IsBalanced E tracked s args w now wf
  Step-IsBalanced {s} (get_step key now) wf = get-IsBalanced E tracked s key now wf
  Step-IsBalanced {s} (type_step key now) wf = key_type-IsBalanced E tracked s key now wf
  Step-IsBalanced {s} (del_step keys now) wf = delete-IsBalanced E tracked s keys now wf
  Step-IsBalanced {s} (incr_step args w now delta) wf =
      handle_incr-IsBalanced E tracked s args w now delta wf
  Step-IsBalanced {s} (incrby_step args w now) wf =
      handle_incrby-IsBalanced E tracked s args w now wf
  Step-IsBalanced {s} (decrby_step args w now) wf =
      handle_decrby-IsBalanced E tracked s args w now wf
  Step-IsBalanced {s} (ttl_step args w now) wf = handle_ttl-IsBalanced E tracked s args w now wf
  Step-IsBalanced {s} (pttl_step args w now) wf = handle_pttl-IsBalanced E tracked s args w now wf
  Step-IsBalanced {s} (expire_step args w now) wf =
      handle_expire-IsBalanced E tracked s args w now wf
  Step-IsBalanced {s} (persist_step args w now) wf =
      handle_persist-IsBalanced E tracked s args w now wf
  Step-IsBalanced {s} (mget_step args w now) wf = handle_mget-IsBalanced E tracked s args w now wf
  Step-IsBalanced {s} (mset_step args w now) wf = handle_mset-IsBalanced E tracked s args w now wf
  Step-IsBalanced {s} (hset_step args w now) wf = handle_hset-IsBalanced E tracked s args w now wf
  Step-IsBalanced {s} (hget_step args w now) wf = handle_hget-IsBalanced E tracked s args w now wf
  Step-IsBalanced {s} (hgetall_step args w now) wf =
      handle_hgetall-IsBalanced E tracked s args w now wf
  Step-IsBalanced {s} (hdel_step cmd key field fields w now left) wf =
      handle_hdel-IsBalanced E tracked s cmd key field fields w now wf left
  Step-IsBalanced {s} (expiry_step count) wf = expire_random_keys-IsBalanced E tracked s count wf
  Step-IsBalanced {s} (tick now) wf =
      IsBalanced-IsQuiet E wf
        (record { shards = refl; num_shards = refl; memory = refl; queue_count = refl })

  Run-IsBalanced : {s t : Store E} → Run E s t → IsWf E s → IsBalanced E s t
  Run-IsBalanced {s} start wf = same-IsBalanced E tracked s wf
  Run-IsBalanced (then_step run step) wf =
      let b = Run-IsBalanced run wf in IsBalanced-trans E b (Step-IsBalanced step b.wf)

  -- Along any sequence of commands and rounds of the background expiry, in any order, MEMORY_USED
  -- stays the sum of the entries' sizes, as a u64, and the store stays well-formed, if both hold at
  -- the start. The sequence has no FLUSHDB, no FLUSHALL, and no HDEL that takes the last field of a
  -- hash. A memory limit is set.
  pub Run-IsAccounted :
      {s t : Store E} → Run E s t → IsWf E s → IsAccounted E s → IsWf E t × IsAccounted E t
  Run-IsAccounted run wf right =
      let b = Run-IsBalanced run wf in (b.wf, IsAccounted-IsBalanced E b right)

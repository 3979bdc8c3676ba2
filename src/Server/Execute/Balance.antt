-- ===== src/Server/Execute/Balance.antt =====
-- `execute_command` of src/main.rs and the accounts of the store.
use mathlib.Core.Path.{subst}
use redistill.Base.{
  ℕ, ◌+◌, ◌≡◌, refl, sym, inl, inr, true, false, ◌&&◌, not, Option, none, some, List, [], ◌∷◌,
  arith, ltb, leb, Bytes, Bool-cases,
}
use redistill.Base.Int.{pos, negsuc}
use redistill.Store.State.{Env, Store, IsWf}
use redistill.Store.Balance.{IsBalanced}
use redistill.Store.Strings.Balance.{get-IsBalanced, key_type-IsBalanced, delete-IsBalanced}
use redistill.Commands.HashCommands.{handle_hdel}
use redistill.Commands.Balance.{
  same-IsBalanced, handle_set-IsBalanced, handle_mget-IsBalanced, handle_mset-IsBalanced,
}
use redistill.Commands.Balance.Counters.{
  handle_incr-IsBalanced, handle_incrby-IsBalanced, handle_decrby-IsBalanced,
}
use redistill.Commands.Balance.Keys.{
  handle_ttl-IsBalanced, handle_pttl-IsBalanced, handle_expire-IsBalanced,
  handle_persist-IsBalanced,
}
use redistill.Commands.Balance.Fields.{
  LeavesField, handle_hset-IsBalanced, handle_hget-IsBalanced, handle_hgetall-IsBalanced,
  handle_hdel-IsBalanced,
}
use redistill.Server.{Settings, System, World, Connection, Answers, aof_log, Log}
use redistill.Server.Words
use redistill.Server.Words.{Word, word_of}
use redistill.Server.Execute.{
  dispatch, count_command, requires_auth, run_command, execute_command, run_get, run_del,
  run_exists, run_type, run_save, run_bgsave, start_rewrite, handle_bgrewriteaof,
}

-- No flush, and no HDEL that takes the last field of a hash.
abbrev pub KeepsAccounts : (E : Env) → Word → List Bytes → Store E → Type 0
KeepsAccounts E Words.hdel_word (cmd ∷ key ∷ field ∷ fields) s =
    LeavesField E s key (field ∷ fields)
KeepsAccounts E Words.flushdb_word command s = true ≡ false
KeepsAccounts E Words.flushall_word command s = true ≡ false
KeepsAccounts E word command s = Unit

abbrev pub CommandKeepsAccounts : (E : Env) → List Bytes → Store E → Type 0
CommandKeepsAccounts E [] s = Unit
CommandKeepsAccounts E (cmd ∷ args) s = KeepsAccounts E (word_of cmd) (cmd ∷ args) s

module _ (E : Env) (cfg : Settings) (sys : System) where
  save_store :
      (w : World E) (c : Connection) (answers : Answers)
      → (run_save E cfg sys w c answers).0.store ≡ w.store
  unfolding run_save
  save_store w c answers = elim (Bool-cases cfg.persistence_enabled) [ inl e ↦ rw e | inr e ↦ rw e ]

  bgsave_store : (w : World E) (c : Connection) → (run_bgsave E cfg w c).0.store ≡ w.store
  unfolding run_bgsave
  bgsave_store w c = ground arith

  rewrite_store :
      (aof : Option Log) (w : World E) (c : Connection) (answers : Answers)
      → (start_rewrite E aof w c answers).0.store ≡ w.store
  unfolding start_rewrite
  rewrite_store none w c answers = refl
  rewrite_store (some l) w c answers = elim (Bool-cases l.rewrite_in_progress) [
    | inl e ↦ rw e
    | inr e ↦ elim (Bool-cases answers.has_runtime) [ inl f ↦ rw (e, f) | inr f ↦ rw (e, f) ]
  ]

  module _ (tracked : ltb 0 E.config.max_memory ≡ true) where
    hdel-IsBalanced :
        (s : Store E) (command : List Bytes) (w : Bytes) (now : ℕ)
        → KeepsAccounts E Words.hdel_word command s
        → IsWf E s
        → IsBalanced E s (handle_hdel E s command w now).1
    unfolding handle_hdel
    hdel-IsBalanced s [] w now left wf = same-IsBalanced E tracked s wf
    hdel-IsBalanced s (cmd ∷ []) w now left wf = same-IsBalanced E tracked s wf
    hdel-IsBalanced s (cmd ∷ key ∷ []) w now left wf = same-IsBalanced E tracked s wf
    hdel-IsBalanced s (cmd ∷ key ∷ field ∷ fields) w now left wf =
        handle_hdel-IsBalanced E tracked s cmd key field fields w now wf left

    same : (s t : Store E) → t ≡ s → IsWf E s → IsBalanced E s t
    same s t e wf = rw e (same-IsBalanced E tracked s wf)

    -- The branch of each command but the flushes, and an HDEL that leaves a field, keeps the accounts.
    pub dispatch-IsBalanced :
        (word : Word) (w : World E) (c : Connection) (command : List Bytes) (now : ℕ)
        (answers : Answers)
        → KeepsAccounts E word command w.store
        → IsWf E w.store
        → IsBalanced E w.store (dispatch E cfg sys word w c command now answers).0.store
    unfolding dispatch aof_log handle_bgrewriteaof run_get run_del run_exists run_type
    dispatch-IsBalanced Words.set_word w c command now answers k wf =
        handle_set-IsBalanced E tracked w.store command c.writer now wf
    dispatch-IsBalanced Words.ttl_word w c command now answers k wf =
        handle_ttl-IsBalanced E tracked w.store command c.writer now wf
    dispatch-IsBalanced Words.get_word w c [] now answers k wf =
        same-IsBalanced E tracked w.store wf
    dispatch-IsBalanced Words.get_word w c (cmd ∷ []) now answers k wf =
        same-IsBalanced E tracked w.store wf
    dispatch-IsBalanced Words.get_word w c (cmd ∷ key ∷ args) now answers k wf =
        get-IsBalanced E tracked w.store key now wf
    dispatch-IsBalanced Words.del_word w c [] now answers k wf =
        same-IsBalanced E tracked w.store wf
    dispatch-IsBalanced Words.del_word w c (cmd ∷ []) now answers k wf =
        same-IsBalanced E tracked w.store wf
    dispatch-IsBalanced Words.del_word w c (cmd ∷ key ∷ args) now answers k wf =
        delete-IsBalanced E tracked w.store (key ∷ args) now wf
    dispatch-IsBalanced Words.ping_word w c command now answers k wf =
        same-IsBalanced E tracked w.store wf
    dispatch-IsBalanced Words.keys_word w c command now answers k wf =
        same-IsBalanced E tracked w.store wf
    dispatch-IsBalanced Words.save_word w c command now answers k wf =
        same _ _ (save_store w c answers) wf
    dispatch-IsBalanced Words.incr_word w c command now answers k wf =
        handle_incr-IsBalanced E tracked w.store command c.writer now (pos 1) wf
    dispatch-IsBalanced Words.decr_word w c command now answers k wf =
        handle_incr-IsBalanced E tracked w.store command c.writer now (negsuc 0) wf
    dispatch-IsBalanced Words.pttl_word w c command now answers k wf =
        handle_pttl-IsBalanced E tracked w.store command c.writer now wf
    dispatch-IsBalanced Words.mget_word w c command now answers k wf =
        handle_mget-IsBalanced E tracked w.store command c.writer now wf
    dispatch-IsBalanced Words.mset_word w c command now answers k wf =
        handle_mset-IsBalanced E tracked w.store command c.writer now wf
    dispatch-IsBalanced Words.auth_word w c command now answers k wf =
        same-IsBalanced E tracked w.store wf
    dispatch-IsBalanced Words.info_word w c command now answers k wf =
        same-IsBalanced E tracked w.store wf
    dispatch-IsBalanced Words.scan_word w c command now answers k wf =
        same-IsBalanced E tracked w.store wf
    dispatch-IsBalanced Words.hset_word w c command now answers k wf =
        handle_hset-IsBalanced E tracked w.store command c.writer now wf
    dispatch-IsBalanced Words.hget_word w c command now answers k wf =
        handle_hget-IsBalanced E tracked w.store command c.writer now wf
    dispatch-IsBalanced Words.hdel_word w c command now answers k wf =
        hdel-IsBalanced w.store command c.writer now k wf
    dispatch-IsBalanced Words.type_word w c [] now answers k wf =
        same-IsBalanced E tracked w.store wf
    dispatch-IsBalanced Words.type_word w c (cmd ∷ []) now answers k wf =
        same-IsBalanced E tracked w.store wf
    dispatch-IsBalanced Words.type_word w c (cmd ∷ key ∷ args) now answers k wf =
        key_type-IsBalanced E tracked w.store key now wf
    dispatch-IsBalanced Words.exists_word w c [] now answers k wf =
        same-IsBalanced E tracked w.store wf
    dispatch-IsBalanced Words.exists_word w c (cmd ∷ []) now answers k wf =
        same-IsBalanced E tracked w.store wf
    dispatch-IsBalanced Words.exists_word w c (cmd ∷ key ∷ args) now answers k wf =
        same-IsBalanced E tracked w.store wf
    dispatch-IsBalanced Words.bgsave_word w c command now answers k wf =
        same _ _ (bgsave_store w c) wf
    dispatch-IsBalanced Words.dbsize_word w c command now answers k wf =
        same-IsBalanced E tracked w.store wf
    dispatch-IsBalanced Words.config_word w c command now answers k wf =
        same-IsBalanced E tracked w.store wf
    dispatch-IsBalanced Words.incrby_word w c command now answers k wf =
        handle_incrby-IsBalanced E tracked w.store command c.writer now wf
    dispatch-IsBalanced Words.decrby_word w c command now answers k wf =
        handle_decrby-IsBalanced E tracked w.store command c.writer now wf
    dispatch-IsBalanced Words.expire_word w c command now answers k wf =
        handle_expire-IsBalanced E tracked w.store command c.writer now wf
    dispatch-IsBalanced Words.flushdb_word w c command now answers k wf = absurd (ground (arith, k))
    dispatch-IsBalanced Words.command_word w c command now answers k wf =
        same-IsBalanced E tracked w.store wf
    dispatch-IsBalanced Words.persist_word w c command now answers k wf =
        handle_persist-IsBalanced E tracked w.store command c.writer now wf
    dispatch-IsBalanced Words.hgetall_word w c command now answers k wf =
        handle_hgetall-IsBalanced E tracked w.store command c.writer now wf
    dispatch-IsBalanced Words.lastsave_word w c command now answers k wf =
        same-IsBalanced E tracked w.store wf
    dispatch-IsBalanced Words.flushall_word w c command now answers k wf =
        absurd (ground (arith, k))
    dispatch-IsBalanced Words.bgrewriteaof_word w c command now answers k wf =
        same _ _ (rewrite_store w.aof w c answers) wf
    dispatch-IsBalanced Words.unknown_word w c command now answers k wf =
        same-IsBalanced E tracked w.store wf

    count_command_store : (w : World E) → (count_command E w).store ≡ w.store
    unfolding count_command
    count_command_store w = elim (Bool-cases (leb 256 (w.local_cmd_count + 1))) [
      | inl e ↦ rw e
      | inr e ↦ rw e
    ]

    run_command-IsBalanced :
        (w : World E) (command : List Bytes) (c : Connection) (now : ℕ) (answers : Answers)
        → CommandKeepsAccounts E command w.store
        → IsWf E w.store
        → IsBalanced E w.store (run_command E cfg sys w command c now answers).0.store
    unfolding run_command
    run_command-IsBalanced w [] c now answers k wf = same-IsBalanced E tracked w.store wf
    run_command-IsBalanced w (cmd ∷ args) c now answers k wf =
        elim (Bool-cases (requires_auth cmd && not c.authenticated)) [
          | inl e ↦ rw e (same-IsBalanced E tracked w.store wf)
          | inr e ↦ rw e (dispatch-IsBalanced (word_of cmd) w c (cmd ∷ args) now answers k wf)
        ]

    -- execute_command, on every command, for any connection and on every branch, keeps the store
    -- well-formed and changes MEMORY_USED, as a u64, by what it changes the sum of the entries'
    -- sizes by. The store is well-formed, a memory limit is set, and the command is no FLUSHDB, no
    -- FLUSHALL, and no HDEL that takes the last field of a hash.
    pub execute_command-IsBalanced :
        (w : World E) (command : List Bytes) (c : Connection) (now : ℕ) (answers : Answers)
        → CommandKeepsAccounts E command w.store
        → IsWf E w.store
        → IsBalanced E w.store (execute_command E cfg sys w command c now answers).0.store
    unfolding execute_command
    execute_command-IsBalanced w command c now answers k wf =
        subst
          (λ s.
            IsBalanced E s
              (run_command E cfg sys (count_command E w) command c now answers).0.store)
          (count_command_store w)
          (run_command-IsBalanced (count_command E w) command c now answers
            (subst (CommandKeepsAccounts E command) (sym (count_command_store w)) k)
            (subst (IsWf E) (sym (count_command_store w)) wf))

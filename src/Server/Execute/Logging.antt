-- ===== src/Server/Execute/Logging.antt =====
-- Which commands `execute_command` of src/main.rs puts in the log.
use redistill.Base.{
  ℕ, ◌≡◌, refl, inl, inr, Bool, true, false, Option, none, some, List, [], ◌∷◌, arith,
  if◌then◌else◌, Bytes, Bool-cases,
}
use redistill.Store.State.{Env}
use redistill.Aof.Log.{Log}
use redistill.Server.{Settings, System, World, Connection, Answers, log_to, aof_log}
use redistill.Server.Words
use redistill.Server.Words.{Word, word_of}
use redistill.Server.Execute.{
  dispatch, run_get, run_del, run_exists, run_type, run_save, run_bgsave, start_rewrite,
  handle_bgrewriteaof,
}

-- The commands that are logged; a DEL only with a key.
abbrev pub is_logged : Word → List Bytes → Bool
is_logged Words.set_word command = true
is_logged Words.del_word (cmd ∷ key ∷ args) = true
is_logged Words.incr_word command = true
is_logged Words.decr_word command = true
is_logged Words.mset_word command = true
is_logged Words.hset_word command = true
is_logged Words.hdel_word command = true
is_logged Words.incrby_word command = true
is_logged Words.decrby_word command = true
is_logged Words.expire_word command = true
is_logged Words.persist_word command = true
is_logged word command = false

module _ (E : Env) (cfg : Settings) (sys : System) where
  bgsave_log : (w : World E) (c : Connection) → (run_bgsave E cfg w c).0.aof ≡ w.aof
  unfolding run_bgsave
  bgsave_log w c = ground arith

  save_log :
      (w : World E) (c : Connection) (answers : Answers)
      → (run_save E cfg sys w c answers).0.aof ≡ w.aof
  unfolding run_save
  save_log w c answers = elim (Bool-cases cfg.persistence_enabled) [ inl e ↦ rw e | inr e ↦ rw e ]

  start_rewrite_log :
      (aof : Option Log) (w : World E) (c : Connection) (answers : Answers)
      → (start_rewrite E aof w c answers).0.aof ≡ w.aof
  unfolding start_rewrite
  start_rewrite_log none w c answers = refl
  start_rewrite_log (some l) w c answers = elim (Bool-cases l.rewrite_in_progress) [
    | inl e ↦ rw e
    | inr e ↦ elim (Bool-cases answers.has_runtime) [ inl f ↦ rw (e, f) | inr f ↦ rw (e, f) ]
  ]

  -- Of all commands just SET, INCR, DECR, MSET, HSET, HDEL, INCRBY, DECRBY, EXPIRE and PERSIST, and
  -- DEL with a key, are appended to the log, once each and as they came; the others leave it as it
  -- was.
  pub dispatch-is_logged :
      (word : Word) (w : World E) (c : Connection) (command : List Bytes) (now : ℕ)
      (answers : Answers)
      → (dispatch E cfg sys word w c command now answers).0.aof
        ≡ (if is_logged word command then log_to command answers w.aof else w.aof)
  unfolding dispatch aof_log handle_bgrewriteaof run_get run_del run_exists run_type
  dispatch-is_logged Words.set_word w c command now answers = refl
  dispatch-is_logged Words.ttl_word w c command now answers = refl
  dispatch-is_logged Words.get_word w c [] now answers = refl
  dispatch-is_logged Words.get_word w c (cmd ∷ []) now answers = refl
  dispatch-is_logged Words.get_word w c (cmd ∷ key ∷ args) now answers = refl
  dispatch-is_logged Words.del_word w c [] now answers = refl
  dispatch-is_logged Words.del_word w c (cmd ∷ []) now answers = refl
  dispatch-is_logged Words.del_word w c (cmd ∷ key ∷ args) now answers = refl
  dispatch-is_logged Words.ping_word w c command now answers = refl
  dispatch-is_logged Words.keys_word w c command now answers = refl
  dispatch-is_logged Words.save_word w c command now answers = save_log w c answers
  dispatch-is_logged Words.incr_word w c command now answers = refl
  dispatch-is_logged Words.decr_word w c command now answers = refl
  dispatch-is_logged Words.pttl_word w c command now answers = refl
  dispatch-is_logged Words.mget_word w c command now answers = refl
  dispatch-is_logged Words.mset_word w c command now answers = refl
  dispatch-is_logged Words.auth_word w c command now answers = refl
  dispatch-is_logged Words.info_word w c command now answers = refl
  dispatch-is_logged Words.scan_word w c command now answers = refl
  dispatch-is_logged Words.hset_word w c command now answers = refl
  dispatch-is_logged Words.hget_word w c command now answers = refl
  dispatch-is_logged Words.hdel_word w c command now answers = refl
  dispatch-is_logged Words.type_word w c [] now answers = refl
  dispatch-is_logged Words.type_word w c (cmd ∷ []) now answers = refl
  dispatch-is_logged Words.type_word w c (cmd ∷ key ∷ args) now answers = refl
  dispatch-is_logged Words.exists_word w c [] now answers = refl
  dispatch-is_logged Words.exists_word w c (cmd ∷ []) now answers = refl
  dispatch-is_logged Words.exists_word w c (cmd ∷ key ∷ args) now answers = refl
  dispatch-is_logged Words.bgsave_word w c command now answers = bgsave_log w c
  dispatch-is_logged Words.dbsize_word w c command now answers = refl
  dispatch-is_logged Words.config_word w c command now answers = refl
  dispatch-is_logged Words.incrby_word w c command now answers = refl
  dispatch-is_logged Words.decrby_word w c command now answers = refl
  dispatch-is_logged Words.expire_word w c command now answers = refl
  dispatch-is_logged Words.flushdb_word w c command now answers = refl
  dispatch-is_logged Words.command_word w c command now answers = refl
  dispatch-is_logged Words.persist_word w c command now answers = refl
  dispatch-is_logged Words.hgetall_word w c command now answers = refl
  dispatch-is_logged Words.lastsave_word w c command now answers = refl
  dispatch-is_logged Words.flushall_word w c command now answers = refl
  dispatch-is_logged Words.bgrewriteaof_word w c command now answers =
      start_rewrite_log w.aof w c answers
  dispatch-is_logged Words.unknown_word w c command now answers = refl

-- ===== src/Server/Execute.antt =====
-- `execute_command` of src/main.rs.
use redistill.Base.{
  ℕ, zero, suc, ◌+◌, ◌-◌, ◌*◌, ◌/◌, ◌%◌, ◌^◌, ◌≤◌, ◌<◌, min, max, ◌≡◌, refl, sym, ap, ◌∙◌, ◌≢◌, ◌↔◌,
  ◌⊎◌, inl, inr, Bool, true, false, ◌&&◌, ◌||◌, not, Option, none, some, List, [], ◌∷◌, ◌++◌,
  append_assoc, append-nil, arith, ltb, leb, ◌==◌, if◌then◌else◌, Bytes, codes, beq, length, take,
  drop, All, length-append, take-append, Bool-cases, Option-cases, le→ltb, lt→ltb, beq_iff,
  beq_refl, get_or, set,
}
pub mod Balance
pub mod Gate
pub mod Logging
use redistill.Base.Int.{ℤ, pos, negsuc}
use redistill.Store.State.{Env, Store}
use redistill.Store.Strings.{get, delete, exists, key_type, KeyType, no_key, string_key, hash_key}
use redistill.Resp.Writer.{
  write_simple_string, write_bulk_string, write_null, write_integer, write_error, write_array,
}
use redistill.Commands.Words.{eq_ignore_case, wrong_arguments}
use redistill.Commands.Set.{handle_set}
use redistill.Commands.Counter.{handle_incr, handle_incrby, handle_decrby}
use redistill.Commands.Expiry.{handle_ttl, handle_pttl, handle_expire, handle_persist}
use redistill.Commands.Many.{handle_mget, handle_mset}
use redistill.Commands.HashCommands.{handle_hset, handle_hget, handle_hgetall, handle_hdel}
use redistill.Commands.ScanCommand.{handle_scan}
use redistill.Commands.Flush.{flush}
use redistill.Aof.Log.{Log}
use redistill.Persistence.{save_snapshot_sync, SaveResult}
use redistill.Server.{
  Settings, System, World, Connection, Answers, Session, Task, save_task, rewrite_task, aof_log,
  after, logged, reply,
}
use redistill.Server.Words
use redistill.Server.Words.{Word, word_of}
use redistill.Server.Keyspace.{keys, db_len}
use redistill.Server.Auth.{handle_auth}
use redistill.Server.Info.{handle_info}

unfoldable pub type_name : KeyType → Bytes
type_name no_key = codes "none"
type_name string_key = codes "string"
type_name hash_key = codes "hash"

unfoldable pub write_value : Bytes → Option Bytes → Bytes
write_value w none = write_null w
write_value w (some value) = write_bulk_string w value

unfoldable pub requires_auth : Bytes → Bool
requires_auth cmd =
    not (eq_ignore_case cmd (codes "auth")) && not (eq_ignore_case cmd (codes "ping"))

module _ (E : Env) where
  unfoldable pub run_get : World E → Connection → List Bytes → ℕ → Session E
  run_get w c (cmd ∷ key ∷ args) now =
      let (value, s) = get E w.store key now in after E w c (write_value c.writer value, s)
  run_get w c _ now = reply E w c (write_error c.writer wrong_arguments)

  -- Only a DEL with a key is logged.
  unfoldable pub run_del : World E → Connection → List Bytes → ℕ → Answers → Session E
  run_del w c (cmd ∷ key ∷ args) now answers =
      let (count, s) = delete E w.store (key ∷ args) now in
      logged E (cmd ∷ key ∷ args) answers (after E w c (write_integer c.writer count, s))
  run_del w c _ now answers = reply E w c (write_error c.writer wrong_arguments)

  unfoldable pub run_exists : World E → Connection → List Bytes → ℕ → Session E
  run_exists w c (cmd ∷ key ∷ args) now =
      reply E w c (write_integer c.writer (exists E w.store (key ∷ args) now))
  run_exists w c _ now = reply E w c (write_error c.writer wrong_arguments)

  unfoldable pub run_type : World E → Connection → List Bytes → ℕ → Session E
  run_type w c (cmd ∷ key ∷ args) now =
      let (t, s) = key_type E w.store key now in
      after E w c (write_simple_string c.writer (type_name t), s)
  run_type w c _ now = reply E w c (write_error c.writer wrong_arguments)

  unfoldable pub write_saved : Bytes → SaveResult → Bytes
  write_saved w (inl count) = write_simple_string w (codes "OK")
  write_saved w (inr e) = write_error w e

  unfoldable pub run_save : Settings → System → World E → Connection → Answers → Session E
  run_save cfg sys w c answers =
      let (saves, result) = save_snapshot_sync sys.bincode E w.store w.saves answers.save_failure in
      if not cfg.persistence_enabled
      then reply E w c (write_error c.writer (codes "persistence is disabled"))
      else reply E (record w { saves = saves }) c (write_saved c.writer result)

  unfoldable pub run_bgsave : Settings → World E → Connection → Session E
  run_bgsave cfg w c =
      if not cfg.persistence_enabled
      then reply E w c (write_error c.writer (codes "persistence is disabled"))
      else if w.saves.save_in_progress
      then reply E w c (write_error c.writer (codes "Background save already in progress"))
      else reply E
          (record w {
            saves = record (w.saves) { save_in_progress = true };
            spawned = w.spawned ++ save_task ∷ [];
          })
          c (write_simple_string c.writer (codes "Background saving started"))

  -- `handle_bgrewriteaof`, on the content of AOF.
  unfoldable pub start_rewrite : Option Log → World E → Connection → Answers → Session E
  start_rewrite none w c answers = reply E w c (write_error c.writer (codes "AOF is disabled"))
  start_rewrite (some l) w c answers =
      if l.rewrite_in_progress
      then reply E w c
          (write_error c.writer (codes "Background append only file rewriting already in progress"))
      else if answers.has_runtime
      then reply E (record w { spawned = w.spawned ++ rewrite_task ∷ [] }) c
          (write_simple_string c.writer (codes "Background append only file rewriting started"))
      else reply E w c (write_error c.writer (codes "internal error: no tokio runtime"))

  unfoldable pub handle_bgrewriteaof : World E → Connection → Answers → Session E
  handle_bgrewriteaof w c answers = start_rewrite w.aof w c answers

  -- The branch of a command, behind the checks.
  unfoldable pub dispatch :
      Settings → System → Word → World E → Connection → List Bytes → ℕ → Answers → Session E
  dispatch cfg sys Words.set_word w c command now answers =
      logged E command answers (after E w c (handle_set E w.store command c.writer now))
  dispatch cfg sys Words.ttl_word w c command now answers =
      after E w c (handle_ttl E w.store command c.writer now)
  dispatch cfg sys Words.get_word w c command now answers = run_get w c command now
  dispatch cfg sys Words.del_word w c command now answers = run_del w c command now answers
  dispatch cfg sys Words.ping_word w c command now answers =
      reply E w c (write_simple_string c.writer (codes "PONG"))
  dispatch cfg sys Words.keys_word w c command now answers =
      reply E w c (write_array c.writer (keys E w.store now))
  dispatch cfg sys Words.save_word w c command now answers = run_save cfg sys w c answers
  dispatch cfg sys Words.incr_word w c command now answers =
      logged E command answers (after E w c (handle_incr E w.store command c.writer now (pos 1)))
  dispatch cfg sys Words.decr_word w c command now answers =
      logged E command answers (after E w c (handle_incr E w.store command c.writer now (negsuc 0)))
  dispatch cfg sys Words.pttl_word w c command now answers =
      after E w c (handle_pttl E w.store command c.writer now)
  dispatch cfg sys Words.mget_word w c command now answers =
      after E w c (handle_mget E w.store command c.writer now)
  dispatch cfg sys Words.mset_word w c command now answers =
      logged E command answers (after E w c (handle_mset E w.store command c.writer now))
  dispatch cfg sys Words.auth_word w c command now answers = (w, handle_auth cfg command c)
  dispatch cfg sys Words.info_word w c command now answers =
      reply E w c (handle_info E sys w c.writer)
  dispatch cfg sys Words.scan_word w c command now answers =
      reply E w c (handle_scan E w.store command c.writer now)
  dispatch cfg sys Words.hset_word w c command now answers =
      logged E command answers (after E w c (handle_hset E w.store command c.writer now))
  dispatch cfg sys Words.hget_word w c command now answers =
      after E w c (handle_hget E w.store command c.writer now)
  dispatch cfg sys Words.hdel_word w c command now answers =
      logged E command answers (after E w c (handle_hdel E w.store command c.writer now))
  dispatch cfg sys Words.type_word w c command now answers = run_type w c command now
  dispatch cfg sys Words.exists_word w c command now answers = run_exists w c command now
  dispatch cfg sys Words.bgsave_word w c command now answers = run_bgsave cfg w c
  dispatch cfg sys Words.dbsize_word w c command now answers =
      reply E w c (write_integer c.writer (db_len E w.store))
  dispatch cfg sys Words.config_word w c command now answers = reply E w c (write_array c.writer [])
  dispatch cfg sys Words.incrby_word w c command now answers =
      logged E command answers (after E w c (handle_incrby E w.store command c.writer now))
  dispatch cfg sys Words.decrby_word w c command now answers =
      logged E command answers (after E w c (handle_decrby E w.store command c.writer now))
  dispatch cfg sys Words.expire_word w c command now answers =
      logged E command answers (after E w c (handle_expire E w.store command c.writer now))
  dispatch cfg sys Words.flushdb_word w c command now answers =
      after E w c (flush E w.store c.writer)
  dispatch cfg sys Words.command_word w c command now answers =
      reply E w c (write_array c.writer [])
  dispatch cfg sys Words.persist_word w c command now answers =
      logged E command answers (after E w c (handle_persist E w.store command c.writer now))
  dispatch cfg sys Words.hgetall_word w c command now answers =
      after E w c (handle_hgetall E w.store command c.writer now)
  dispatch cfg sys Words.lastsave_word w c command now answers =
      reply E w c (write_integer c.writer w.saves.last_save_time)
  dispatch cfg sys Words.flushall_word w c command now answers =
      after E w c (flush E w.store c.writer)
  dispatch cfg sys Words.bgrewriteaof_word w c command now answers = handle_bgrewriteaof w c answers
  dispatch cfg sys Words.unknown_word w c command now answers =
      reply E w c (write_error c.writer (codes "unknown command"))

  -- The thread's count is added to TOTAL_COMMANDS once it reaches 256.
  unfoldable pub count_command : World E → World E
  count_command w =
      let new_count = w.local_cmd_count + 1 in
      if leb 256 new_count
      then record w { total_commands = (w.total_commands + 256) % 2 ^ 64; local_cmd_count = 0 }
      else record w { local_cmd_count = new_count }

  -- Behind the count: the checks, and the branch of the command.
  unfoldable pub run_command :
      Settings → System → World E → List Bytes → Connection → ℕ → Answers → Session E
  run_command cfg sys w [] c now answers =
      reply E w c (write_error c.writer (codes "empty command"))
  run_command cfg sys w (cmd ∷ args) c now answers =
      if requires_auth cmd && not c.authenticated
      then reply E w c (write_error c.writer (codes "NOAUTH Authentication required"))
      else dispatch cfg sys (word_of cmd) w c (cmd ∷ args) now answers

  unfoldable pub execute_command :
      Settings → System → World E → List Bytes → Connection → ℕ → Answers → Session E
  execute_command cfg sys w command c now answers =
      run_command cfg sys (count_command w) command c now answers

-- ===== src/Server.antt =====
-- The state of the server in src/main.rs and src/server.rs: what its connections share, and what a
-- connection keeps.
use redistill.Base.{
  ℕ, zero, suc, ◌+◌, ◌-◌, ◌*◌, ◌/◌, ◌%◌, ◌^◌, ◌≤◌, ◌<◌, min, max, ◌≡◌, refl, sym, ap, ◌∙◌, ◌≢◌, ◌↔◌,
  ◌⊎◌, inl, inr, Bool, true, false, ◌&&◌, ◌||◌, not, Option, none, some, List, [], ◌∷◌, ◌++◌,
  append_assoc, append-nil, arith, ltb, leb, ◌==◌, if◌then◌else◌, Bytes, codes, beq, length, take,
  drop, All, length-append, take-append, Bool-cases, Option-cases, le→ltb, lt→ltb, beq_iff,
  beq_refl, get_or, set,
}
pub mod Auth
pub mod Execute
pub mod Info
pub mod Keyspace
pub mod Link
pub mod Listener
pub mod Rate
pub mod Shutdown
pub mod Startup
pub mod Words
use redistill.Store.State.{Env, Store}
use redistill.Aof.Log.{Log, Write, append}
use redistill.Persistence.{Bincode, Saves}

-- The settings of `CONFIG` that the server reads.
pub record Settings : Type 0 where
  pub password : Bytes
  pub persistence_enabled : Bool
  pub aof_enabled : Bool
  pub aof_fsync : Bytes
  pub connection_rate_limit : ℕ
  pub batch_size : ℕ

-- What the process reads of its surroundings: its number, the seconds since it started, and `{:.2}` of
-- a quotient of two floats.
pub record System : Type 0 where
  pub bincode : Bincode
  pub process_id : ℕ
  pub uptime : ℕ
  pub two_decimals : ℕ → ℕ → Bytes

-- What `spawn` and `spawn_blocking` were handed.
pub data Task : Type 0 where
  save_task rewrite_task : Task

-- The store with MEMORY_USED and EVICTED_KEYS, AOF, the statics of src/persistence.rs, the counters
-- with LOCAL_CMD_COUNT of the thread, the two of `check_rate_limit`, and the tasks that were spawned.
pub record World (E : Env) : Type 0 where
  pub store : Store E
  pub aof : Option Log
  pub saves : Saves
  pub total_commands : ℕ
  pub local_cmd_count : ℕ
  pub total_connections : ℕ
  pub active_connections : ℕ
  pub rejected_connections : ℕ
  pub last_rate_check : ℕ
  pub connections_this_second : ℕ
  pub spawned : List Task

-- `ConnectionState`, and the buffer of the connection's `RespWriter`.
pub record Connection : Type 0 where
  pub authenticated : Bool
  pub writer : Bytes

-- What the disk answers while a command runs, and whether the thread has a tokio runtime.
pub record Answers : Type 0 where
  pub write : Write
  pub on_disk : Bool
  pub save_failure : Option Bytes
  pub has_runtime : Bool

abbrev pub Session : Env → Type 0
Session E = World E × Connection

-- A failure to append is printed, and no more.
unfoldable pub log_to : List Bytes → Answers → Option Log → Option Log
log_to command answers none = none
log_to command answers (some l) = some (append l command answers.write answers.on_disk).0

module _ (E : Env) where
  unfoldable pub aof_log : List Bytes → Answers → World E → World E
  aof_log command answers w = record w { aof = log_to command answers w.aof }

  -- What a handler returned, the reply and the store.
  abbrev pub after : World E → Connection → Bytes × Store E → Session E
  after w c r = (record w { store = r.1 }, record c { writer = r.0 })

  abbrev pub logged : List Bytes → Answers → Session E → Session E
  logged command answers s = (aof_log command answers s.0, s.1)

  abbrev pub reply : World E → Connection → Bytes → Session E
  reply w c writer = (w, record c { writer = writer })

-- ===== src/Config/Load.antt =====
-- `Config::load` and `Config::validate` of src/config.rs.
use redistill.Base.{
  ℕ, ◌-◌, ◌^◌, Bool, true, false, ◌&&◌, Option, none, some, [], ◌∷◌, ltb, ◌==◌, if◌then◌else◌,
  codes, beq,
}
use redistill.Config.{
  Text, ServerConfig, SecurityConfig, PerformanceConfig, MemoryConfig, PersistenceConfig, Config,
  default_config,
}
use redistill.Resp.Decimal.{scan}

-- `std::env::var`: `none` where the variable is not set, or no Unicode.
abbrev pub Vars : Type 0
Vars = Text → Option Text

-- What there is at a path.
pub data File : Type 0 where
  missing unreadable : File
  contents : Text → File

pub data LoadError : Type 0 where
  not_read not_toml zero_shards zero_buffer zero_port zero_sample : LoadError

-- `Result` of `load` and `validate`.
pub data Loaded {ℓ} (S : Type ℓ) : Type ℓ where
  ok : S → Loaded S
  err : LoadError → Loaded S

-- The operator `?` of the source.
infixl 5 ◌>>=◌ ◌>>◌
abbrev pub ◌>>=◌ {ℓ κ} : {S : Type ℓ} {T : Type κ} → Loaded S → (S → Loaded T) → Loaded T
err why >>= rest = err why
ok got >>= rest = rest got

abbrev pub ◌>>◌ {ℓ} : {T : Type ℓ} → Loaded (Unit {0}) → Loaded T → Loaded T
check >> rest = check >>= λ done. rest

-- `return Err(e)` where the test holds
abbrev pub reject : Bool → LoadError → Loaded (Unit {0})
reject true e = err e
reject false e = ok tt

-- The largest numbers of u16, and of u64 and usize.
abbrev pub max_u16 : ℕ
max_u16 = 2 ^ 16 - 1

abbrev pub max_u64 : ℕ
max_u64 = 2 ^ 64 - 1

-- `str::parse` of an unsigned integer of the standard library: digits, perhaps behind a plus sign.
unfoldable pub parse_digits : ℕ → Text → Option ℕ
parse_digits limit [] = none
parse_digits limit (c ∷ s) = scan limit (c ∷ s) 0

unfoldable pub parse_uint : ℕ → Text → Option ℕ
unfolding parse_digits
parse_uint limit [] = none
parse_uint limit (c ∷ s) = if c == b'+' then parse_digits limit s else parse_digits limit (c ∷ s)

-- `str::parse` of a `bool`
unfoldable pub parse_bool : Text → Option Bool
parse_bool s =
    if beq s (codes "true") then some true else if beq s (codes "false") then some false else none

-- `if let Ok(v) = var { field = v }`
abbrev pub set_text : Option Text → Text → Text
set_text none old = old
set_text (some v) old = v

-- `if let Ok(s) = var && let Ok(v) = s.parse() { field = v }`
abbrev pub or_else {ℓ} : {A : Type ℓ} → Option A → A → A
or_else none old = old
or_else (some v) old = v

unfoldable pub set_uint : ℕ → Option Text → ℕ → ℕ
set_uint limit none old = old
set_uint limit (some v) old = or_else (parse_uint limit v) old

-- `if let Ok(s) = var { field = s.parse().unwrap_or(otherwise) }`
unfoldable pub set_bool : Bool → Option Text → Bool → Bool
set_bool otherwise none old = old
set_bool otherwise (some v) old = or_else (parse_bool v) otherwise

-- Each variable has a field of its own, and each is read once.
module _ (vars : Vars) where
  unfoldable pub override_server : ServerConfig → ServerConfig
  override_server c = record c {
    port = set_uint max_u16 (vars (codes "REDIS_PORT")) c.port;
    bind = set_text (vars (codes "REDIS_BIND")) c.bind;
    health_check_port =
        set_uint max_u16 (vars (codes "REDIS_HEALTH_CHECK_PORT")) c.health_check_port;
    num_shards = set_uint max_u64 (vars (codes "REDIS_NUM_SHARDS")) c.num_shards;
    batch_size = set_uint max_u64 (vars (codes "REDIS_BATCH_SIZE")) c.batch_size;
    buffer_size = set_uint max_u64 (vars (codes "REDIS_BUFFER_SIZE")) c.buffer_size;
    buffer_pool_size = set_uint max_u64 (vars (codes "REDIS_BUFFER_POOL_SIZE")) c.buffer_pool_size;
    max_connections = set_uint max_u64 (vars (codes "REDIS_MAX_CONNECTIONS")) c.max_connections;
    shutdown_grace_period_secs =
        set_uint max_u64 (vars (codes "REDIS_SHUTDOWN_GRACE_SECS")) c.shutdown_grace_period_secs;
  }

  unfoldable pub override_security : SecurityConfig → SecurityConfig
  override_security c = record c { password = set_text (vars (codes "REDIS_PASSWORD")) c.password }

  unfoldable pub override_memory : {F : Type 0} → MemoryConfig F → MemoryConfig F
  override_memory c = record c {
    max_memory = set_uint max_u64 (vars (codes "REDIS_MAX_MEMORY")) c.max_memory;
    eviction_policy = set_text (vars (codes "REDIS_EVICTION_POLICY")) c.eviction_policy;
  }

  unfoldable pub override_performance : PerformanceConfig → PerformanceConfig
  override_performance c = record c {
    tcp_nodelay = set_bool true (vars (codes "REDIS_TCP_NODELAY")) c.tcp_nodelay;
    tcp_keepalive = set_uint max_u64 (vars (codes "REDIS_TCP_KEEPALIVE")) c.tcp_keepalive;
  }

  unfoldable pub override_persistence : PersistenceConfig → PersistenceConfig
  override_persistence c = record c {
    enabled = set_bool false (vars (codes "REDIS_PERSISTENCE_ENABLED")) c.enabled;
    snapshot_path = set_text (vars (codes "REDIS_SNAPSHOT_PATH")) c.snapshot_path;
    snapshot_interval =
        set_uint max_u64 (vars (codes "REDIS_SNAPSHOT_INTERVAL")) c.snapshot_interval;
    save_on_shutdown = set_bool true (vars (codes "REDIS_SAVE_ON_SHUTDOWN")) c.save_on_shutdown;
    aof_enabled = set_bool false (vars (codes "REDIS_AOF_ENABLED")) c.aof_enabled;
    aof_path = set_text (vars (codes "REDIS_AOF_PATH")) c.aof_path;
    aof_fsync = set_text (vars (codes "REDIS_AOF_FSYNC")) c.aof_fsync;
    aof_rewrite_min_size =
        set_uint max_u64 (vars (codes "REDIS_AOF_REWRITE_MIN_SIZE")) c.aof_rewrite_min_size;
    aof_rewrite_percentage =
        set_uint max_u64 (vars (codes "REDIS_AOF_REWRITE_PERCENTAGE")) c.aof_rewrite_percentage;
  }

  unfoldable pub override : {F : Type 0} → Config F → Config F
  override c = record c {
    server = override_server c.server;
    security = override_security c.security;
    memory = override_memory c.memory;
    performance = override_performance c.performance;
    persistence = override_persistence c.persistence;
  }

unfoldable pub validate : {F : Type 0} → Config F → Loaded (Unit {0})
validate c = do
  reject (c.server.num_shards == 0) zero_shards
  reject (c.server.buffer_size == 0) zero_buffer
  reject (c.server.port == 0) zero_port
  reject (ltb 0 c.memory.max_memory && c.memory.eviction_sample_size == 0) zero_sample
  ok tt

module _ {F : Type 0} (tenth : F) (from_toml : Text → Option (Config F)) where
  -- The file, or the defaults.
  unfoldable pub read_file : File → Loaded (Config F)
  read_file missing = ok (default_config tenth)
  read_file unreadable = err not_read
  read_file (contents s) = elim (from_toml s) [ none ↦ err not_toml | some c ↦ ok c ]

  unfoldable pub load : Vars → (Text → File) → Loaded (Config F)
  load vars files = do
    let path = set_text (vars (codes "REDISTILL_CONFIG")) (codes "redistill.toml")
    base ← read_file (files path)
    let config = override vars base
    validate config
    ok config

-- ===== src/Config/Effective.antt =====
-- The configuration that `Config::load` of src/config.rs comes to, field by field.
use redistill.Base.{
  ℕ, ◌-◌, ◌^◌, ◌≡◌, refl, inl, inr, Bool, true, false, Bool-cases, Option, none, some,
  if◌then◌else◌, codes, beq,
}
use redistill.Config.{
  Text, ServerConfig, SecurityConfig, PerformanceConfig, MemoryConfig, PersistenceConfig, Config,
}
use redistill.Config.Load.{
  Vars, max_u16, max_u64, set_text, parse_uint, parse_bool, set_uint, set_bool, or_else,
  override_server, override_security, override_memory, override_performance, override_persistence,
  override,
}

-- A variable that is not set leaves what was; a text is taken as it is.
abbrev pub named : Option Text → Text → Text
named var old = elim var [ none ↦ old | some v ↦ v ]

-- A number that does not parse leaves what was.
abbrev pub number : ℕ → Option Text → ℕ → ℕ
number limit var old = elim var [
  | none ↦ old
  | some v ↦ elim (parse_uint limit v) [ none ↦ old | some n ↦ n ]
]

-- What is neither true nor false is taken for `otherwise`.
abbrev pub switch : Bool → Option Text → Bool → Bool
switch otherwise var old = elim var [
  | none ↦ old
  | some v ↦
      if beq v (codes "true") then true else if beq v (codes "false") then false else otherwise
]

pub set_text-named : (var : Option Text) (old : Text) → set_text var old ≡ named var old
set_text-named none old = refl
set_text-named (some v) old = refl

or_else-elim :
    (read : Option ℕ) (old : ℕ) → or_else read old ≡ elim read [ none ↦ old | some n ↦ n ]
or_else-elim none old = refl
or_else-elim (some n) old = refl

set_uint-number :
    (limit : ℕ) (var : Option Text) (old : ℕ) → set_uint limit var old ≡ number limit var old
unfolding set_uint
set_uint-number limit none old = refl
set_uint-number limit (some v) old = or_else-elim (parse_uint limit v) old

set_bool-switch :
    (otherwise : Bool) (var : Option Text) (old : Bool)
    → set_bool otherwise var old ≡ switch otherwise var old
unfolding set_bool parse_bool
set_bool-switch otherwise none old = refl
set_bool-switch otherwise (some v) old = elim (Bool-cases (beq v (codes "true"))) [
  | inl t ↦ rw t
  | inr t ↦ elim (Bool-cases (beq v (codes "false"))) [ inl f ↦ rw (t, f) | inr f ↦ rw (t, f) ]
]

module _ (vars : Vars) where
  abbrev pub effective_server : ServerConfig → ServerConfig
  effective_server c = record c {
    port = number (2 ^ 16 - 1) (vars (codes "REDIS_PORT")) c.port;
    bind = named (vars (codes "REDIS_BIND")) c.bind;
    health_check_port =
        number (2 ^ 16 - 1) (vars (codes "REDIS_HEALTH_CHECK_PORT")) c.health_check_port;
    num_shards = number (2 ^ 64 - 1) (vars (codes "REDIS_NUM_SHARDS")) c.num_shards;
    batch_size = number (2 ^ 64 - 1) (vars (codes "REDIS_BATCH_SIZE")) c.batch_size;
    buffer_size = number (2 ^ 64 - 1) (vars (codes "REDIS_BUFFER_SIZE")) c.buffer_size;
    buffer_pool_size =
        number (2 ^ 64 - 1) (vars (codes "REDIS_BUFFER_POOL_SIZE")) c.buffer_pool_size;
    max_connections = number (2 ^ 64 - 1) (vars (codes "REDIS_MAX_CONNECTIONS")) c.max_connections;
    shutdown_grace_period_secs =
        number (2 ^ 64 - 1) (vars (codes "REDIS_SHUTDOWN_GRACE_SECS")) c.shutdown_grace_period_secs;
  }

  override_server_lem : (c : ServerConfig) → override_server vars c ≡ effective_server c
  unfolding override_server
  override_server_lem c = λ i. record c {
    port = set_uint-number max_u16 (vars (codes "REDIS_PORT")) c.port i;
    bind = set_text-named (vars (codes "REDIS_BIND")) c.bind i;
    health_check_port =
        set_uint-number max_u16 (vars (codes "REDIS_HEALTH_CHECK_PORT")) c.health_check_port i;
    num_shards = set_uint-number max_u64 (vars (codes "REDIS_NUM_SHARDS")) c.num_shards i;
    batch_size = set_uint-number max_u64 (vars (codes "REDIS_BATCH_SIZE")) c.batch_size i;
    buffer_size = set_uint-number max_u64 (vars (codes "REDIS_BUFFER_SIZE")) c.buffer_size i;
    buffer_pool_size =
        set_uint-number max_u64 (vars (codes "REDIS_BUFFER_POOL_SIZE")) c.buffer_pool_size i;
    max_connections =
        set_uint-number max_u64 (vars (codes "REDIS_MAX_CONNECTIONS")) c.max_connections i;
    shutdown_grace_period_secs =
        set_uint-number max_u64 (vars (codes "REDIS_SHUTDOWN_GRACE_SECS"))
          c.shutdown_grace_period_secs i;
  }

  abbrev pub effective_security : SecurityConfig → SecurityConfig
  effective_security c = record c { password = named (vars (codes "REDIS_PASSWORD")) c.password }

  override_security_lem : (c : SecurityConfig) → override_security vars c ≡ effective_security c
  unfolding override_security
  override_security_lem c =
      λ i. record c { password = set_text-named (vars (codes "REDIS_PASSWORD")) c.password i }

  abbrev pub effective_memory : {F : Type 0} → MemoryConfig F → MemoryConfig F
  effective_memory c = record c {
    max_memory = number (2 ^ 64 - 1) (vars (codes "REDIS_MAX_MEMORY")) c.max_memory;
    eviction_policy = named (vars (codes "REDIS_EVICTION_POLICY")) c.eviction_policy;
  }

  override_memory_lem :
      {F : Type 0} (c : MemoryConfig F) → override_memory vars c ≡ effective_memory c
  unfolding override_memory
  override_memory_lem c = λ i. record c {
    max_memory = set_uint-number max_u64 (vars (codes "REDIS_MAX_MEMORY")) c.max_memory i;
    eviction_policy = set_text-named (vars (codes "REDIS_EVICTION_POLICY")) c.eviction_policy i;
  }

  abbrev pub effective_performance : PerformanceConfig → PerformanceConfig
  effective_performance c = record c {
    tcp_nodelay = switch true (vars (codes "REDIS_TCP_NODELAY")) c.tcp_nodelay;
    tcp_keepalive = number (2 ^ 64 - 1) (vars (codes "REDIS_TCP_KEEPALIVE")) c.tcp_keepalive;
  }

  override_performance_lem :
      (c : PerformanceConfig) → override_performance vars c ≡ effective_performance c
  unfolding override_performance
  override_performance_lem c = λ i. record c {
    tcp_nodelay = set_bool-switch true (vars (codes "REDIS_TCP_NODELAY")) c.tcp_nodelay i;
    tcp_keepalive = set_uint-number max_u64 (vars (codes "REDIS_TCP_KEEPALIVE")) c.tcp_keepalive i;
  }

  abbrev pub effective_persistence : PersistenceConfig → PersistenceConfig
  effective_persistence c = record c {
    enabled = switch false (vars (codes "REDIS_PERSISTENCE_ENABLED")) c.enabled;
    snapshot_path = named (vars (codes "REDIS_SNAPSHOT_PATH")) c.snapshot_path;
    snapshot_interval =
        number (2 ^ 64 - 1) (vars (codes "REDIS_SNAPSHOT_INTERVAL")) c.snapshot_interval;
    save_on_shutdown = switch true (vars (codes "REDIS_SAVE_ON_SHUTDOWN")) c.save_on_shutdown;
    aof_enabled = switch false (vars (codes "REDIS_AOF_ENABLED")) c.aof_enabled;
    aof_path = named (vars (codes "REDIS_AOF_PATH")) c.aof_path;
    aof_fsync = named (vars (codes "REDIS_AOF_FSYNC")) c.aof_fsync;
    aof_rewrite_min_size =
        number (2 ^ 64 - 1) (vars (codes "REDIS_AOF_REWRITE_MIN_SIZE")) c.aof_rewrite_min_size;
    aof_rewrite_percentage =
        number (2 ^ 64 - 1) (vars (codes "REDIS_AOF_REWRITE_PERCENTAGE")) c.aof_rewrite_percentage;
  }

  override_persistence_lem :
      (c : PersistenceConfig) → override_persistence vars c ≡ effective_persistence c
  unfolding override_persistence
  override_persistence_lem c = λ i. record c {
    enabled = set_bool-switch false (vars (codes "REDIS_PERSISTENCE_ENABLED")) c.enabled i;
    snapshot_path = set_text-named (vars (codes "REDIS_SNAPSHOT_PATH")) c.snapshot_path i;
    snapshot_interval =
        set_uint-number max_u64 (vars (codes "REDIS_SNAPSHOT_INTERVAL")) c.snapshot_interval i;
    save_on_shutdown =
        set_bool-switch true (vars (codes "REDIS_SAVE_ON_SHUTDOWN")) c.save_on_shutdown i;
    aof_enabled = set_bool-switch false (vars (codes "REDIS_AOF_ENABLED")) c.aof_enabled i;
    aof_path = set_text-named (vars (codes "REDIS_AOF_PATH")) c.aof_path i;
    aof_fsync = set_text-named (vars (codes "REDIS_AOF_FSYNC")) c.aof_fsync i;
    aof_rewrite_min_size =
        set_uint-number max_u64 (vars (codes "REDIS_AOF_REWRITE_MIN_SIZE")) c.aof_rewrite_min_size
          i;
    aof_rewrite_percentage =
        set_uint-number max_u64 (vars (codes "REDIS_AOF_REWRITE_PERCENTAGE"))
          c.aof_rewrite_percentage i;
  }

  abbrev pub effective : {F : Type 0} → Config F → Config F
  effective c = record c {
    server = effective_server c.server;
    security = effective_security c.security;
    memory = effective_memory c.memory;
    performance = effective_performance c.performance;
    persistence = effective_persistence c.persistence;
  }

  pub override-effective : {F : Type 0} (c : Config F) → override vars c ≡ effective c
  unfolding override
  override-effective c = λ i. record c {
    server = override_server_lem c.server i;
    security = override_security_lem c.security i;
    memory = override_memory_lem c.memory i;
    performance = override_performance_lem c.performance i;
    persistence = override_persistence_lem c.persistence i;
  }

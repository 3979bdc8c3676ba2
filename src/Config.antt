-- ===== src/Config.antt =====
-- The settings of src/config.rs, with their defaults. A text is the list of its code points. The floats
-- are a parameter, `F`, with `tenth` for the literal 0.1.
use redistill.Base.{
  ℕ, zero, suc, ◌+◌, ◌-◌, ◌*◌, ◌/◌, ◌%◌, ◌^◌, ◌≤◌, ◌<◌, min, max, ◌≡◌, refl, sym, ap, ◌∙◌, ◌≢◌, ◌↔◌,
  ◌⊎◌, inl, inr, Bool, true, false, ◌&&◌, ◌||◌, not, Option, none, some, List, [], ◌∷◌, ◌++◌,
  append_assoc, append-nil, arith, ltb, leb, ◌==◌, if◌then◌else◌, Bytes, codes, beq, length, take,
  drop, All, length-append, take-append, Bool-cases, Option-cases, le→ltb, lt→ltb, beq_iff,
  beq_refl, get_or,
}
pub mod Policy
pub mod Load
pub mod Numbers
pub mod Sound
pub mod Effective
pub mod Reading
pub mod Opening

abbrev pub Text : Type 0
Text = List ℕ

pub record ServerConfig : Type 0 where
  pub bind : Text
  pub port : ℕ
  pub num_shards : ℕ
  pub batch_size : ℕ
  pub buffer_size : ℕ
  pub buffer_pool_size : ℕ
  pub max_connections : ℕ
  pub connection_timeout : ℕ
  pub connection_rate_limit : ℕ
  pub health_check_port : ℕ
  pub shutdown_grace_period_secs : ℕ

pub record SecurityConfig : Type 0 where
  pub password : Text
  pub tls_enabled : Bool
  pub tls_cert_path : Text
  pub tls_key_path : Text

pub record LoggingConfig : Type 0 where
  pub level : Text
  pub format : Text

pub record PerformanceConfig : Type 0 where
  pub tcp_nodelay : Bool
  pub tcp_keepalive : ℕ

pub record MemoryConfig (F : Type 0) : Type 0 where
  pub max_memory : ℕ
  pub eviction_policy : Text
  pub eviction_sample_size : ℕ
  pub s3fifo_small_ratio : F
  pub s3fifo_ghost_ratio : F

pub record PersistenceConfig : Type 0 where
  pub enabled : Bool
  pub snapshot_path : Text
  pub save_on_shutdown : Bool
  pub snapshot_interval : ℕ
  pub aof_enabled : Bool
  pub aof_path : Text
  pub aof_fsync : Text
  pub aof_rewrite_min_size : ℕ
  pub aof_rewrite_percentage : ℕ

pub record Config (F : Type 0) : Type 0 where
  pub server : ServerConfig
  pub security : SecurityConfig
  pub logging : LoggingConfig
  pub performance : PerformanceConfig
  pub memory : MemoryConfig F
  pub persistence : PersistenceConfig

abbrev pub default_bind : Text
default_bind = codes "0.0.0.0"

abbrev pub default_num_shards : ℕ
default_num_shards = 2048

abbrev pub default_eviction_policy : Text
default_eviction_policy = codes "allkeys-lru"

unfoldable pub default_server : ServerConfig
default_server = record {
  bind = default_bind;
  port = 6379;
  num_shards = default_num_shards;
  batch_size = 16;
  buffer_size = 16 * 1024;
  buffer_pool_size = 1024;
  max_connections = 10000;
  connection_timeout = 300;
  connection_rate_limit = 0;
  health_check_port = 0;
  shutdown_grace_period_secs = 30;
}

-- The derived default of the source: empty texts and `false`.
unfoldable pub default_security : SecurityConfig
default_security = record {
  password = [];
  tls_enabled = false;
  tls_cert_path = [];
  tls_key_path = [];
}

unfoldable pub default_logging : LoggingConfig
default_logging = record { level = codes "info"; format = codes "text" }

unfoldable pub default_performance : PerformanceConfig
default_performance = record { tcp_nodelay = true; tcp_keepalive = 60 }

unfoldable pub default_persistence : PersistenceConfig
default_persistence = record {
  enabled = false;
  snapshot_path = codes "redistill.rdb";
  save_on_shutdown = true;
  snapshot_interval = 300;
  aof_enabled = false;
  aof_path = codes "redistill.aof";
  aof_fsync = codes "everysec";
  aof_rewrite_min_size = 64 * 1024 * 1024;
  aof_rewrite_percentage = 100;
}

module _ {F : Type 0} (tenth : F) where
  unfoldable pub default_memory : MemoryConfig F
  default_memory = record {
    max_memory = 0;
    eviction_policy = default_eviction_policy;
    eviction_sample_size = 5;
    s3fifo_small_ratio = tenth;
    s3fifo_ghost_ratio = tenth;
  }

  unfoldable pub default_config : Config F
  default_config = record {
    server = default_server;
    security = default_security;
    logging = default_logging;
    performance = default_performance;
    memory = default_memory;
    persistence = default_persistence;
  }

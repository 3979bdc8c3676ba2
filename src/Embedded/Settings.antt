-- ===== src/Embedded/Settings.antt =====
-- The settings of the library crate, src/lib.rs: those of the server without the persistence and the
-- ratios of S3-FIFO. `ServerConfig`, `SecurityConfig`, `LoggingConfig` and `PerformanceConfig` are
-- declared there as in src/config.rs.
use redistill.Base.{ℕ, ◌*◌, ◌≡◌, refl, codes}
use redistill.Config
use redistill.Config.{
  Text, ServerConfig, SecurityConfig, LoggingConfig, PerformanceConfig, default_eviction_policy,
  default_security, default_logging, default_performance,
}

pub record MemoryConfig : Type 0 where
  pub max_memory : ℕ
  pub eviction_policy : Text
  pub eviction_sample_size : ℕ

pub record Settings : Type 0 where
  pub server : ServerConfig
  pub security : SecurityConfig
  pub logging : LoggingConfig
  pub performance : PerformanceConfig
  pub memory : MemoryConfig

unfoldable pub default_server : ServerConfig
default_server = record {
  bind = codes "127.0.0.1";
  port = 6379;
  num_shards = 256;
  batch_size = 16;
  buffer_size = 16 * 1024;
  buffer_pool_size = 1024;
  max_connections = 10000;
  connection_timeout = 300;
  connection_rate_limit = 0;
  health_check_port = 0;
  shutdown_grace_period_secs = 30;
}

unfoldable pub default_memory : MemoryConfig
default_memory = record {
  max_memory = 0;
  eviction_policy = default_eviction_policy;
  eviction_sample_size = 5;
}

-- But for the address and the number of shards the server has the same default.
server_default :
    Config.default_server ≡ record default_server { bind = codes "0.0.0.0"; num_shards = 2048 }
unfolding Config.default_server default_server
server_default = refl

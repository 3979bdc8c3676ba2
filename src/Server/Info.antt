-- ===== src/Server/Info.antt =====
-- `handle_info` of src/main.rs, and `format_bytes` and the names of the policies of src/config.rs.
use redistill.Base.{ℕ, ◌*◌, ◌++◌, ltb, leb, if◌then◌else◌, Bytes, codes}
use Prim.Native.String.{String}
use redistill.Resp.Decimal.{decimal}
use redistill.Resp.Writer.{write_bulk_string}
use redistill.Store.State.{
  Env, EvictionPolicy, no_eviction, all_keys_lru, all_keys_random, all_keys_s3_fifo,
}
use redistill.Server.{System, World}
use redistill.Server.Keyspace.{db_len}

abbrev pub kb : ℕ
kb = 1024

abbrev pub mb : ℕ
mb = 1024 * kb

abbrev pub gb : ℕ
gb = 1024 * mb

unfoldable pub format_bytes : System → ℕ → Bytes
format_bytes sys bytes =
    if leb gb bytes
    then sys.two_decimals bytes gb ++ codes "GB"
    else if leb mb bytes
    then sys.two_decimals bytes mb ++ codes "MB"
    else if leb kb bytes
    then sys.two_decimals bytes kb ++ codes "KB"
    else decimal bytes ++ codes "B"

unfoldable pub policy_name : EvictionPolicy → Bytes
policy_name no_eviction = codes "noeviction"
policy_name all_keys_lru = codes "allkeys-lru"
policy_name all_keys_random = codes "allkeys-random"
policy_name all_keys_s3_fifo = codes "allkeys-s3fifo"

-- A line of the text, a name with its value.
abbrev info_line : String → Bytes → Bytes
info_line name value = codes name ++ (value ++ codes "\r\n")

module _ (E : Env) where
  unfoldable pub info_text : System → World E → Bytes
  info_text sys w =
      codes
        "# Server\r\nredis_version:7.0.0\r\nredis_mode:standalone\r\nos:Redistill\r\narch_bits:64\r\n"
      ++ (info_line "process_id:" (decimal sys.process_id)
          ++ (info_line "uptime_in_seconds:" (decimal sys.uptime)
              ++ (codes "\r\n# Clients\r\n"
                  ++ (info_line "connected_clients:" (decimal w.active_connections)
                      ++ (codes "\r\n# Memory\r\n"
                          ++ (info_line "used_memory:" (decimal w.store.memory_used)
                              ++ (info_line "used_memory_human:"
                                    (format_bytes sys w.store.memory_used)
                                  ++ (info_line "maxmemory:" (decimal E.config.max_memory)
                                      ++ (info_line "maxmemory_human:" (
                                            (if ltb 0 E.config.max_memory
                                              then format_bytes sys E.config.max_memory
                                              else codes "unlimited"))
                                          ++ (info_line "maxmemory_policy:"
                                                (policy_name E.config.eviction_policy)
                                              ++ (info_line "evicted_keys:"
                                                    (decimal w.store.evicted_keys)
                                                  ++ (codes "\r\n# Stats\r\n"
                                                      ++ (info_line "total_connections_received:"
                                                            (decimal w.total_connections)
                                                          ++ (info_line "total_commands_processed:"
                                                            (decimal w.total_commands)
                                                            ++ (info_line "rejected_connections:"
                                                            (decimal w.rejected_connections)
                                                            ++ (codes "\r\n# Keyspace\r\n"
                                                            ++ (codes "db0:keys="
                                                            ++ (decimal (db_len E w.store)
                                                            ++ codes
                                                            ",expires=0,avg_ttl=0\r\n"))))))))))))))))))

  unfoldable pub handle_info : System → World E → Bytes → Bytes
  handle_info sys w writer = write_bulk_string writer (info_text sys w)

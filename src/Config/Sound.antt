-- ===== src/Config/Sound.antt =====
-- What a configuration that src/config.rs loads is good for.
use redistill.Base.{◌≤◌, ◌<◌, ◌≡◌, refl, sym, inl, inr, Option, some, arith, codes, Option-cases}
use redistill.Config.{
  Text, Config, default_server, default_memory, default_persistence, default_config,
}
use redistill.Config.Load.{
  Vars, File, missing, unreadable, contents, Loaded, ok, err, ◌>>=◌, max_u16, max_u64, set_text,
  override_server, override_memory, override_performance, override_persistence, override, validate,
  read_file, load,
}
use redistill.Config.Numbers.{set_uint-le}

-- Behind a success both parts have succeeded.
>>=_parts {ℓ κ} :
    {S : Type ℓ} {T : Type κ} {result : T} (first : Loaded S) (rest : S → Loaded T)
    → (first >>= rest) ≡ ok result
    → (got : S) × (rest got ≡ ok result) × (first ≡ ok got)
>>=_parts (err why) rest e = cc
>>=_parts (ok got) rest e = (got, e, refl)

-- The numbers are of their types: u16, u64 and usize.
pub record IsTyped {F : Type 0} (c : Config F) : Type 0 where
  pub port : c.server.port ≤ max_u16
  pub health_check_port : c.server.health_check_port ≤ max_u16
  pub num_shards : c.server.num_shards ≤ max_u64
  pub buffer_size : c.server.buffer_size ≤ max_u64
  pub batch_size : c.server.batch_size ≤ max_u64
  pub max_connections : c.server.max_connections ≤ max_u64
  pub max_memory : c.memory.max_memory ≤ max_u64
  pub snapshot_interval : c.persistence.snapshot_interval ≤ max_u64
  pub aof_rewrite_min_size : c.persistence.aof_rewrite_min_size ≤ max_u64
  pub aof_rewrite_percentage : c.persistence.aof_rewrite_percentage ≤ max_u64

-- What the server relies on: it divides by the number of shards, reads into the buffer, listens at
-- the port, and evicts from a sample.
pub record IsUsable {F : Type 0} (c : Config F) : Type 0 where
  pub some_shard : 0 < c.server.num_shards
  pub some_buffer : 0 < c.server.buffer_size
  pub some_port : 0 < c.server.port
  pub some_sample : 0 < c.memory.max_memory → 0 < c.memory.eviction_sample_size

override-IsTyped : {F : Type 0} (vars : Vars) (c : Config F) → IsTyped c → IsTyped (override vars c)
unfolding override override_server override_memory override_performance override_persistence
override-IsTyped vars c t = record {
  port = set_uint-le max_u16 _ _ t.port;
  health_check_port = set_uint-le max_u16 _ _ t.health_check_port;
  num_shards = set_uint-le max_u64 _ _ t.num_shards;
  buffer_size = set_uint-le max_u64 _ _ t.buffer_size;
  batch_size = set_uint-le max_u64 _ _ t.batch_size;
  max_connections = set_uint-le max_u64 _ _ t.max_connections;
  max_memory = set_uint-le max_u64 _ _ t.max_memory;
  snapshot_interval = set_uint-le max_u64 _ _ t.snapshot_interval;
  aof_rewrite_min_size = set_uint-le max_u64 _ _ t.aof_rewrite_min_size;
  aof_rewrite_percentage = set_uint-le max_u64 _ _ t.aof_rewrite_percentage;
}

-- `validate` lets through just what is usable.
pub validate-IsUsable : {F : Type 0} (c : Config F) → validate c ≡ ok tt → IsUsable c
unfolding validate
validate-IsUsable c h = record {
  some_shard = ground arith;
  some_buffer = ground arith;
  some_port = ground arith;
  some_sample = λ m. ground arith;
}

pub validate-ok : {F : Type 0} (c : Config F) → IsUsable c → validate c ≡ ok tt
unfolding validate
validate-ok c u = ground (arith, u.some_sample)

module _ {F : Type 0} (tenth : F) (from_toml : Text → Option (Config F)) where
  -- What the file or the defaults say, a variable that is set may say otherwise; nothing else.
  abbrev pub base_of : Vars → (Text → File) → Loaded (Config F)
  base_of vars files =
      read_file tenth from_toml
        (files (set_text (vars (codes "REDISTILL_CONFIG")) (codes "redistill.toml")))

  default_config-IsTyped : IsTyped (default_config tenth)
  unfolding default_config default_server default_memory default_persistence
  default_config-IsTyped = record {
    port = omega arith;
    health_check_port = omega arith;
    num_shards = omega arith;
    buffer_size = omega arith;
    batch_size = omega arith;
    max_connections = omega arith;
    max_memory = omega arith;
    snapshot_interval = omega arith;
    aof_rewrite_min_size = omega arith;
    aof_rewrite_percentage = omega arith;
  }

  read_file-IsTyped :
      (file : File) (c : Config F)
      → ((s : Text) (d : Config F) → from_toml s ≡ some d → IsTyped d)
      → read_file tenth from_toml file ≡ ok c
      → IsTyped c
  unfolding read_file
  read_file-IsTyped missing c typed e =
      let same : default_config tenth ≡ c = cc in rw (← same) default_config-IsTyped
  read_file-IsTyped unreadable c typed e = cc
  read_file-IsTyped (contents s) c typed e = elim (Option-cases (from_toml s)) [
    | inl none_read ↦ let k = rw (none_read, read_file) at e in cc
    | inr (d, read) ↦
        let k : ok d ≡ ok c = rw (read, read_file) at e in
        let same : d ≡ c = cc in rw (← same) (typed s d read)
  ]

  pub load-base :
      (vars : Vars) (files : Text → File) (c : Config F)
      → load tenth from_toml vars files ≡ ok c
      → (base : Config F) × (base_of vars files ≡ ok base)
        × (c ≡ override vars base)
        × (validate c ≡ ok tt)
  unfolding load
  load-base vars files c e =
      let (base, rest, read) = >>=_parts (base_of vars files) _ e in
      let (u, same, valid) = >>=_parts (validate (override vars base)) _ rest in
      let k : override vars base ≡ c = cc in (base, read, sym k, rw (← k) valid)

  pub load-IsUsable :
      (vars : Vars) (files : Text → File) (c : Config F)
      → ((s : Text) (d : Config F) → from_toml s ≡ some d → IsTyped d)
      → load tenth from_toml vars files ≡ ok c
      → IsUsable c × IsTyped c
  load-IsUsable vars files c typed e =
      let (base, read, same, valid) = load-base vars files c e in
      (
        validate-IsUsable c valid,
        rw same (override-IsTyped vars base (read_file-IsTyped _ base typed read)),
      )

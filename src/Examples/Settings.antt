-- ===== src/Examples/Settings.antt =====
-- The results on the settings of src/config.rs, each applied to a start with a few variables set.
use redistill.Base.{
  ℕ, ◌+◌, ◌*◌, ◌/◌, ◌≡◌, refl, ◌↔◌, Option, none, some, List, [], ◌∷◌, arith, if◌then◌else◌, Bytes,
  codes, beq, length,
}
use mathlib.Core.List.{map}
use redistill.Store.Entry.{Entry}
use redistill.Store.Assoc.{assoc_map}
use redistill.Store.State.{Env, IsWf, Store, all_keys_s3_fifo}
use redistill.Store.Balance.{IsAccounted}
use redistill.Commands.Set.{handle_set}
use redistill.Commands.Run.{start, then_step, set_step}
use redistill.Config.{
  Text, Config, default_config, default_server, default_memory, default_security, default_logging,
  default_performance, default_persistence,
}
use redistill.Config.Policy.{Unicode, as_str, from_str, ascii_lower, from_str-as_str}
use redistill.Config.Load.{
  Vars, File, missing, ok, load, read_file, parse_uint, parse_digits, set_uint, set_bool, override,
  override_server, override_security, override_memory, override_performance, override_persistence,
  validate,
}
use redistill.Config.Sound.{IsUsable, load-base, validate-IsUsable}
use redistill.Config.Effective.{effective}
use redistill.Config.Reading.{IsBase, load_iff}
use redistill.Examples.Samples.{in_order}
use redistill.Store.View.{Shows}
use redistill.Store.View.Meaning.{absent}
use redistill.Commands.Promised.{AllMeet, run-AllMeet}
use redistill.Config.Numbers.{set_uint-decimal}
use redistill.Store.View.{set_request, get_request, hset_request, hgetall_request}
use redistill.Base.Int.{pos}
use redistill.Commands.Visible.{
  Timeline, on_store, ttl_command, pttl_command, expire_command, persist_command,
}
use redistill.Config.Opening.{
  load-new-AllMeet, new-IsReady, Floats, env_of, new, load-new-IsAccounted,
}
use redistill.Resp.Decimal.{decimal, scan, is_ascii_digit}

abbrev tenths : Floats
tenths = record {
  Float = ℕ;
  as_f64 = λ n. n;
  one_tenth = 1;
  nine_tenths = 9;
  times = λ x y. x * y;
  ceil_as_usize = λ x. (x + 9) / 10;
}

-- Characters beyond ASCII stay as they are.
abbrev plain_unicode : Unicode
plain_unicode before c behind = c ∷ []

abbrev vars : Vars
vars name =
    if beq name (codes "REDIS_MAX_MEMORY")
    then some (codes "300")
    else if beq name (codes "REDIS_NUM_SHARDS")
    then some (codes "+2")
    else if beq name (codes "REDIS_PORT")
    then some (codes "70000")
    else none

abbrev no_toml : Text → Option (Config ℕ)
no_toml s = none

abbrev no_files : Text → File
no_files path = missing

abbrev settings : Config ℕ
settings = override vars (default_config 1)

loaded : load 1 no_toml vars no_files ≡ ok settings
unfolding load read_file override override_server override_security override_memory
    override_performance override_persistence validate set_uint set_bool parse_uint parse_digits
    scan is_ascii_digit beq default_config default_server default_memory default_security
    default_logging default_performance default_persistence
loaded = refl

load_iff_example : (load 1 no_toml vars no_files ≡ ok settings) ↔ (
    (base : Config ℕ) × IsBase 1 no_toml vars no_files base
    × (settings ≡ effective vars base)
    × IsUsable settings)
load_iff_example = load_iff 1 no_toml vars no_files settings

set_uint_example : set_uint 65535 (some (decimal 70000)) 6379 ≡ 6379
set_uint_example = set_uint-decimal 65535 70000 6379 (omega arith)

lowered : map ascii_lower (codes "AllKeys-S3FIFO") ≡ as_str all_keys_s3_fifo
unfolding as_str
lowered = refl

from_str_example : from_str plain_unicode (codes "AllKeys-S3FIFO") ≡ all_keys_s3_fifo
from_str_example =
    from_str-as_str plain_unicode all_keys_s3_fifo (codes "AllKeys-S3FIFO") (omega arith) lowered

some_memory : settings.memory.max_memory ≡ 300
unfolding override override_memory set_uint parse_uint parse_digits scan is_ascii_digit beq
some_memory = refl

abbrev env : Env
env = env_of plain_unicode (assoc_map Entry) in_order (λ key. length key) (λ n. n) 0 settings

abbrev opened : Store env
opened = new tenths env settings.server.num_shards 0

abbrev set_a : List Bytes
set_a = codes "SET" ∷ codes "a" ∷ codes "1" ∷ []

load-new_example :
    IsWf env (handle_set env opened set_a [] 7).1
    × IsAccounted env (handle_set env opened set_a [] 7).1
load-new_example =
    load-new-IsAccounted tenths plain_unicode (assoc_map Entry) in_order (λ key. length key)
      (λ n. n) 0 0 1 no_toml vars no_files settings loaded (omega (arith, some_memory))
      (then_step start (set_step set_a [] 7))

abbrev commands : Timeline
commands =
    (on_store (get_request (codes "a")), 3)
    ∷ (on_store (set_request (codes "a") (codes "1") none), 4)
    ∷ (expire_command (codes "a") (pos 5), 5)
    ∷ (on_store (hset_request (codes "h") ((codes "f", codes "v") ∷ [])), 5)
    ∷ (ttl_command (codes "a"), 7)
    ∷ (persist_command (codes "a"), 9)
    ∷ (pttl_command (codes "a"), 12)
    ∷ (on_store (hgetall_request (codes "h")), 12)
    ∷ []

load-new-AllMeet_example : AllMeet env opened (λ key. none) commands
load-new-AllMeet_example =
    load-new-AllMeet tenths plain_unicode (assoc_map Entry) in_order (λ key. length key) (λ n. n) 0
      0 1 no_toml vars no_files settings commands loaded (omega arith)

opened_empty : Shows env 0 opened (λ key. none)
opened_empty =
    let (base, read, same, valid) = load-base 1 no_toml vars no_files settings loaded in
    let usable = validate-IsUsable settings valid in
    let ready = new-IsReady tenths env settings.server.num_shards 0 usable.some_shard in
    record { wf = ready.wf; same = λ j later h. rw (ready.empty j) }

run-AllMeet_example : AllMeet env opened (λ key. none) commands
run-AllMeet_example =
    run-AllMeet env 0 opened (λ key. none) (λ key. none) commands opened_empty (λ key. absent)
      (omega arith)

-- ===== src/Examples/Servers.antt =====
-- The results on the server, each applied to one with a small store and a log.
use redistill.Base.{
  min, ◌≡◌, refl, true, false, none, some, List, [], ◌∷◌, arith, Bytes, codes, beq, inl, length,
}
use redistill.Store.Balance.{IsBalanced}
use redistill.Commands.Words.{eq_ignore_case}
use redistill.Aof.Log.{wrote, append, after_write, count_written, sync, flush_sync}
use redistill.Aof.Replay.{execute_all}
use redistill.Aof.Rewrite.{file_at_path}
use redistill.Aof.History.{appended, synced, steps, step}
use redistill.Server.{Settings, System, World, Connection, Answers, log_to}
use redistill.Server.Words
use redistill.Server.Words.{word_of, find_word, names}
use redistill.Server.Execute.{dispatch, execute_command}
use redistill.Server.Execute.Gate.{presents_password, IsShut}
use redistill.Server.Execute.Logging.{dispatch-is_logged}
use redistill.Server.Execute.Balance.{CommandKeepsAccounts, execute_command-IsBalanced}
use redistill.Server.Link.{Turn, handle_connection}
use redistill.Server.Link.Shut.{handle_connection-IsShut}
use redistill.Server.Rate.{let_in, let_in_first}
use redistill.Server.Startup.{load_phase, opened_with, running, startup, startup-steps}
use redistill.Aof.Policy.{every_sec, parse, policy_of}
use redistill.Examples.Samples.{here, two_keys, two_keys-IsWf}
use redistill.Examples.Snapshots.{plain, no_saves}
use redistill.Examples.Logs.{
  ping, set_a, ping-FitsVec, set_a-FitsVec, fresh_log, fresh_log-Represents,
}

abbrev pub cfg : Settings
cfg = record {
  password = codes "pw";
  persistence_enabled = true;
  aof_enabled = true;
  aof_fsync = codes "EverySec";
  connection_rate_limit = 2;
  batch_size = 16;
}

abbrev pub sys : System
sys = record { bincode = plain; process_id = 1; uptime = 5; two_decimals = λ a b. codes "1.00" }

abbrev pub world : World here
world = record {
  store = two_keys;
  aof = some fresh_log;
  saves = no_saves;
  total_commands = 0;
  local_cmd_count = 255;
  total_connections = 0;
  active_connections = 0;
  rejected_connections = 0;
  last_rate_check = 0;
  connections_this_second = 0;
  spawned = [];
}

abbrev pub fine : Answers
fine = record { write = wrote; on_disk = true; save_failure = none; has_runtime = true }

abbrev member : Connection
member = record { authenticated = true; writer = [] }

set_a-keeps : CommandKeepsAccounts here set_a two_keys
unfolding word_of find_word names eq_ignore_case
set_a-keeps = tt

execute_command_example :
    IsBalanced here two_keys (execute_command here cfg sys world set_a member 10 fine).0.store
execute_command_example =
    execute_command-IsBalanced here cfg sys refl world set_a member 10 fine set_a-keeps
      two_keys-IsWf

dispatch_example :
    (dispatch here cfg sys Words.del_word world member set_a 10 fine).0.aof
    ≡ log_to set_a fine (some fresh_log)
dispatch_example = dispatch-is_logged here cfg sys Words.del_word world member set_a 10 fine

abbrev turn_of : List Bytes → Turn
turn_of command = record {
  command = command;
  now = 10;
  answers = fine;
  buffered = false;
  flushed = true;
}

abbrev wrong_auth : List Bytes
wrong_auth = codes "AUTH" ∷ codes "guess" ∷ []

wrong_auth-wrong : presents_password cfg wrong_auth ≡ false
unfolding eq_ignore_case beq
wrong_auth-wrong = refl

set_a-wrong : presents_password cfg set_a ≡ false
unfolding eq_ignore_case beq
set_a-wrong = refl

handle_connection_example :
    IsShut here world
      (handle_connection here cfg sys (turn_of set_a ∷ turn_of wrong_auth ∷ []) world true).0
handle_connection_example =
    handle_connection-IsShut here cfg sys refl (turn_of set_a ∷ turn_of wrong_auth ∷ []) world true
      (set_a-wrong, (wrong_auth-wrong, tt))

every_sec_parsed : parse cfg.aof_fsync ≡ inl every_sec
unfolding parse policy_of beq
every_sec_parsed = refl

whole :
    (steps here fresh_log (appended set_a true ∷ appended ping true ∷ synced true ∷ [])).synced
    ≡ length
        (steps here fresh_log (appended set_a true ∷ appended ping true ∷ synced true ∷ [])).content
unfolding steps step append after_write count_written sync flush_sync
whole = refl

startup_example :
    startup here cfg sys 3 10 fine
      (file_at_path
        (steps here fresh_log (appended set_a true ∷ appended ping true ∷ synced true ∷ [])))
      0
      world
    ≡ some (
        running (
          opened_with here
            (file_at_path
              (steps here fresh_log (appended set_a true ∷ appended ping true ∷ synced true ∷ [])))
            0
            every_sec
            (execute_all
              (λ w cmd.
                (execute_command here cfg sys w cmd
                  (record { authenticated = true; writer = [] })
                  10
                  fine).0)
              (load_phase here cfg sys world)
              (set_a ∷ ping ∷ []))))
startup_example =
    startup-steps here cfg sys fresh_log []
      (appended set_a true ∷ appended ping true ∷ synced true ∷ []) 3 10 fine 0 every_sec world refl
      every_sec_parsed fresh_log-Represents (tt, (tt, (tt, tt))) whole
      (set_a-FitsVec, (ping-FitsVec, tt)) (omega arith)

-- At its clock 7, the last check of the server was at 0.
let_in_example : let_in here cfg 5 world ≡ min 5 2
let_in_example = let_in_first here cfg 5 world (omega arith) (omega arith) (omega arith)

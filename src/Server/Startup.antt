-- ===== src/Server/Startup.antt =====
-- `main` of src/main.rs, where it brings the store back: the snapshot, then the log; and the tasks that
-- commands spawn.
use redistill.Base.{
  ap, ◌∙◌, Bool, ◌⊎◌, inl, inr, ℕ, ◌%◌, ◌^◌, ◌<◌, ◌≡◌, true, false, Option, none, some, List, [],
  if◌then◌else◌, Bytes, length, All,
}
use redistill.Store.State.{Env}
use redistill.Aof.Log.{Log, open_log}
use redistill.Aof.Policy.{FsyncPolicy, parse}
use redistill.Aof.RoundTrip.{FitsVec}
use redistill.Aof.Replay.{Replay, replayed, malformed, replay, execute_all, replay-log}
use redistill.Aof.Rewrite.{Disk, rewrite, file_at_path, file_at_path_attached}
use redistill.Aof.History.{Event, steps, all_recorded, Reopens, Represents, steps-Represents}
use redistill.Persistence.{save_snapshot_sync}
use redistill.Persistence.Load.{load_snapshot}
use redistill.Server.{Settings, System, World, Answers}
use redistill.Server.Execute.{execute_command}

-- The state that the server serves, or the end of the process.
pub data Started (S : Type 0) : Type 0 where
  running : S → Started S
  exited : Started S

abbrev pub opened_with : (E : Env) → Bytes → ℕ → FsyncPolicy → World E → World E
opened_with E file synced fsync w = record w { aof = some (open_log file synced fsync) }

module _ (E : Env) (cfg : Settings) (sys : System) where
  -- An error is printed, and the store is kept as it then is.
  unfoldable pub load_phase : World E → World E
  load_phase w =
      if cfg.persistence_enabled
      then record w { store = (load_snapshot E sys.bincode w.saves.snapshot w.store).0 }
      else w

  -- Each command runs on a cleared buffer, on a connection that is authenticated.
  unfoldable pub replay_command : ℕ → Answers → World E → List Bytes → World E
  replay_command now answers w cmd =
      (execute_command E cfg sys w cmd (record { authenticated = true; writer = [] }) now answers).0

  -- No file is an empty one.
  unfoldable pub replay_phase : ℕ → ℕ → Answers → Bytes → World E → Option (Replay (World E))
  replay_phase fuel now answers file w = replay (replay_command now answers) fuel file w 0

  -- The log is opened behind the replay; a malformed one ends the process.
  unfoldable pub open_phase :
      Bytes → ℕ → FsyncPolicy → Option (Replay (World E)) → Option (Started (World E))
  open_phase file synced fsync none = none
  open_phase file synced fsync (some (replayed w n)) =
      some (running (opened_with E file synced fsync w))
  open_phase file synced fsync (some (malformed w n e)) = some exited

  -- Behind the snapshot, by `aof_enabled` and the policy.
  unfoldable pub start_log :
      Bool
      → FsyncPolicy ⊎ Bytes
      → ℕ
      → ℕ
      → Answers
      → Bytes
      → ℕ
      → World E
      → Option (Started (World E))
  start_log false policy fuel now answers file synced w = some (running w)
  start_log true (inr e) fuel now answers file synced w = some exited
  start_log true (inl fsync) fuel now answers file synced w =
      open_phase file synced fsync (replay_phase fuel now answers file w)

  -- The snapshot, then the log, of which so many bytes are on disk; `none` is fuel that ran out.
  unfoldable pub startup : ℕ → ℕ → Answers → Bytes → ℕ → World E → Option (Started (World E))
  startup fuel now answers file synced w =
      start_log cfg.aof_enabled (parse cfg.aof_fsync) fuel now answers file synced (load_phase w)

  -- A task, when it runs: `save_snapshot_sync` finds the flag cleared that BGSAVE set.
  unfoldable pub run_save_task : Option Bytes → World E → World E
  run_save_task failure w = record w {
    saves =
        (save_snapshot_sync sys.bincode E w.store (record (w.saves) { save_in_progress = false })
          failure).0;
  }

  unfoldable pub run_rewrite_task : ℕ → Disk → Option Log → World E → World E
  run_rewrite_task now disk none w = w
  run_rewrite_task now disk (some l) w = record w { aof = some (rewrite E l w.store now disk).0 }

  replay_phase-steps :
      (l : Log) (cmds : List (List Bytes)) (events : List (Event E)) (fuel now : ℕ)
      (answers : Answers) (w : World E)
      → Represents E l cmds
      → All (Reopens E) events
      → (steps E l events).synced ≡ length (steps E l events).content
      → All FitsVec (all_recorded E cmds events)
      → length (all_recorded E cmds events) < fuel
      → replay_phase fuel now answers (file_at_path (steps E l events)) w
        ≡ some (
            replayed
              (execute_all (replay_command now answers) w (all_recorded E cmds events))
              (length (all_recorded E cmds events) % 2 ^ 64))
  unfolding replay_phase
  replay_phase-steps l cmds events fuel now answers w r h whole fits enough =
      let t = steps-Represents E l cmds events h r in
      rw (file_at_path_attached (steps E l events) t.at_path whole, t.content)
        (replay-log (replay_command now answers) fuel (all_recorded E cmds events) w fits enough)

  -- The log stands for the list of its commands: after any appends, syncs and rewrites behind which
  -- all of the log is on disk, the next start loads the snapshot and runs execute_command, on an
  -- authenticated connection, on just the commands that the list then has, in order, and serves the
  -- state that this gives, with the log opened behind it. An append adds its command to the list, a
  -- sync changes nothing, and a rewrite puts the commands of the store's live entries in the place
  -- of all. The log is enabled, and its policy readable; the writes of the appends succeed and a
  -- rewrite can open the renamed file; the parts of the commands have sizes that a Vec can have,
  -- and the fuel exceeds the number of commands.
  pub startup-steps :
      (l : Log) (cmds : List (List Bytes)) (events : List (Event E)) (fuel now : ℕ)
      (answers : Answers) (on_disk : ℕ) (fsync : FsyncPolicy) (w : World E)
      → cfg.aof_enabled ≡ true
      → parse cfg.aof_fsync ≡ inl fsync
      → Represents E l cmds
      → All (Reopens E) events
      → (steps E l events).synced ≡ length (steps E l events).content
      → All FitsVec (all_recorded E cmds events)
      → length (all_recorded E cmds events) < fuel
      → startup fuel now answers (file_at_path (steps E l events)) on_disk w
        ≡ some (
            running (
              opened_with E (file_at_path (steps E l events)) on_disk fsync (
                execute_all
                  (λ world cmd.
                    (execute_command E cfg sys world cmd
                      (record { authenticated = true; writer = [] })
                      now
                      answers).0)
                  (load_phase w)
                  (all_recorded E cmds events))))
  unfolding startup start_log open_phase replay_command
  startup-steps l cmds events fuel now answers on_disk fsync w enabled parsed r h whole fits
        enough =
      let file = file_at_path (steps E l events) in
      ap (λ b. start_log b (parse cfg.aof_fsync) fuel now answers file on_disk (load_phase w))
        enabled
      ∙ ap (λ p. start_log true p fuel now answers file on_disk (load_phase w)) parsed
      ∙ ap (open_phase file on_disk fsync)
          (replay_phase-steps l cmds events fuel now answers (load_phase w) r h whole fits enough)

-- ===== src/Server/Shutdown.antt =====
-- The end of `main` in src/main.rs: the last sync of the log and the last snapshot, and the start behind
-- it.
use redistill.Base.{
  ℕ, ◌^◌, ◌<◌, ◌≡◌, ap, inl, Bool, true, false, ◌&&◌, Option, none, some, if◌then◌else◌, Bytes,
  length, All,
}
use redistill.Store.State.{Env}
use redistill.Aof.Log.{Log, sync}
use redistill.Persistence.{Saves, save_snapshot_sync}
use redistill.Persistence.Stream.{all_live_entries}
use redistill.Persistence.RoundTrip.{IsFaithful, IsSmall, load_snapshot-save_snapshot_sync}
use redistill.Persistence.Restored.{HasUniqueFields, restore_all}
use redistill.Server.{Settings, System, World, Answers}
use redistill.Server.Startup.{load_phase, startup, start_log, running}

module _ (E : Env) (cfg : Settings) (sys : System) where
  unfoldable pub last_sync : Option Log → Bool → Option Log
  last_sync none synced = none
  last_sync (some l) synced = some (sync l synced).0

  -- `save_on_shutdown` is the setting of that name; `failure` is the text of the file operation that
  -- fails in the snapshot, if one does.
  unfoldable pub last_save : Bool → Option Bytes → World E → Saves
  last_save save_on_shutdown failure w =
      if cfg.persistence_enabled && save_on_shutdown
      then (save_snapshot_sync sys.bincode E w.store w.saves failure).0
      else w.saves

  unfoldable pub shutdown : Bool → Bool → Option Bytes → World E → World E
  shutdown save_on_shutdown synced failure w = record w {
    aof = last_sync w.aof synced;
    saves = last_save save_on_shutdown failure w;
  }

  -- What is in the store at a shutdown is there at the next start, without a log: behind a shutdown
  -- whose snapshot succeeds, the start serves a store in which each entry stands that was live at
  -- the shutdown and has not expired by then, in order, with its whole value and its expiry, never
  -- accessed, and accounted for where there is a memory limit. The persistence and save_on_shutdown
  -- are enabled and the log is not, what bincode serializes it deserializes again, the encodings
  -- have lengths that a u32 holds, no hash has a field twice, and there are fewer than 2^64
  -- entries.
  pub startup-shutdown :
      IsFaithful sys.bincode
      → (w fresh : World E) (n fuel now : ℕ) (answers : Answers) (file : Bytes) (on_disk : ℕ)
      → cfg.persistence_enabled ≡ true
      → cfg.aof_enabled ≡ false
      → (save_snapshot_sync sys.bincode E w.store w.saves none).1 ≡ inl n
      → All
          (IsSmall sys.bincode E.hash_maps w.store.clock)
          (all_live_entries E w.store.clock w.store.shards)
      → All HasUniqueFields (all_live_entries E w.store.clock w.store.shards)
      → length (all_live_entries E w.store.clock w.store.shards) < 2 ^ 64
      → startup E cfg sys fuel now answers file on_disk
          (record fresh { saves = (shutdown true true none w).saves })
        ≡ some (
            running (record fresh {
              saves = (shutdown true true none w).saves;
              store =
                  (restore_all E w.store.clock fresh.store.clock
                    (all_live_entries E w.store.clock w.store.shards)
                    (fresh.store, 0)).0;
            }))
  unfolding shutdown last_save load_phase startup start_log
  startup-shutdown faithful w fresh n fuel now answers file on_disk enabled no_log saved small us
        few =
      rw (enabled, no_log)
        (ap
          (λ r. some (
            running (record fresh {
              saves = (save_snapshot_sync sys.bincode E w.store w.saves none).0;
              store = r.0;
            })))
          (load_snapshot-save_snapshot_sync E sys.bincode faithful w.store fresh.store w.saves n
            saved small us few))

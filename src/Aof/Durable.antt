-- ===== src/Aof/Durable.antt =====
-- What of the log of src/aof.rs is on disk, and when it is rewritten again.
use redistill.Base.{
  ℕ, ◌*◌, ◌≤◌, ◌<◌, max, ◌≡◌, refl, sym, ◌≢◌, ◌∙◌, All, inl, inr, Bool, true, false, List, [], ◌++◌,
  arith, Bytes, length, length-append, Bool-cases, ◌∷◌,
}
use redistill.Store.State.{Env, Store}
use redistill.Resp.Decimal.{max_u64}
use redistill.Resp.Writer.{write_array}
use redistill.Aof.Policy.{FsyncPolicy, always, every_sec, no}
use redistill.Aof.Frame.{write_resp_array-write_array}
use redistill.Aof.Log.{
  Log, Write, wrote, write_failed, append, sync, after_write, flush_sync, count_written,
  should_rewrite, everysec_tick,
}
use redistill.Aof.Snapshot.{Progress, write_store_snapshot}
use redistill.Aof.Snapshot.Records.{records, write_store_snapshot-records}
use redistill.Aof.Rewrite.{
  Disk, snapshot_failed, flush_failed, rename_failed, reopen_failed, completed, rewrite_inner,
  rewrite, file_at_path, file_at_path_attached,
}
use redistill.Aof.History.{
  Event, appended, synced, rewritten, step, steps, all_recorded, Reopens, Represents,
  steps-Represents,
}

-- No more is on disk than there is, and all of it unless the log is dirty or its policy Always.
pub record IsDurable (l : Log) : Type 0 where
  pub bound : l.synced ≤ length l.content
  pub clean : l.fsync ≢ always → l.dirty ≡ false → l.synced ≡ length l.content

flush_sync-IsDurable : (l : Log) (on_disk : Bool) → IsDurable l → IsDurable (flush_sync l on_disk).0
unfolding flush_sync
flush_sync-IsDurable l true d = record { bound = omega arith; clean = λ _ _. refl }
flush_sync-IsDurable l false d = d

count_written-IsDurable :
    (n : ℕ) (l : Log) (b : Bool) → IsDurable l → IsDurable (count_written n (l, b)).0
unfolding count_written
count_written-IsDurable n l true d = record { bound = d.bound; clean = d.clean }
count_written-IsDurable n l false d = d

-- Longer content, before it is marked dirty or synced.
after_write-IsDurable :
    (p : FsyncPolicy) (l : Log) (on_disk : Bool)
    → p ≡ l.fsync
    → l.synced ≤ length l.content
    → IsDurable (after_write p l on_disk).0
unfolding after_write flush_sync
after_write-IsDurable always l true e h = record { bound = omega arith; clean = λ _ _. refl }
after_write-IsDurable always l false e h = record {
  bound = h;
  clean = λ other _. absurd (other (sym e));
}
after_write-IsDurable every_sec l on_disk e h = record {
  bound = h;
  clean = λ _ dirty. absurd (ground (arith, dirty));
}
after_write-IsDurable no l on_disk e h = record {
  bound = h;
  clean = λ _ dirty. absurd (ground (arith, dirty));
}

append-IsDurable :
    (l : Log) (cmd : List Bytes) (on_disk : Bool)
    → IsDurable l
    → IsDurable (append l cmd wrote on_disk).0
unfolding append
append-IsDurable l cmd on_disk d = rw (write_resp_array-write_array l.content cmd) (
    count_written-IsDurable (length (write_array [] cmd)) _ _ (
      after_write-IsDurable l.fsync (record l { content = l.content ++ write_array [] cmd }) on_disk
        refl (omega (arith, d.bound, length-append l.content (write_array [] cmd)))))

sync-IsDurable : (l : Log) (on_disk : Bool) → IsDurable l → IsDurable (sync l on_disk).0
unfolding sync flush_sync
sync-IsDurable l true d = record { bound = omega arith; clean = λ _ _. refl }
sync-IsDurable l false d = d

rewrite_inner-IsDurable :
    (l : Log) (snapshot : Progress) (disk : Disk)
    → IsDurable l
    → IsDurable (rewrite_inner l snapshot disk).0
unfolding rewrite_inner
rewrite_inner-IsDurable l snapshot snapshot_failed d = d
rewrite_inner-IsDurable l snapshot flush_failed d = d
rewrite_inner-IsDurable l snapshot rename_failed d = d
rewrite_inner-IsDurable l snapshot reopen_failed d = record { bound = d.bound; clean = d.clean }
rewrite_inner-IsDurable l snapshot completed d = record { bound = omega arith; clean = λ _ _. refl }

flag-IsDurable :
    (l : Log) (b : Bool) → IsDurable l → IsDurable (record l { rewrite_in_progress = b })
flag-IsDurable l b d = record { bound = d.bound; clean = d.clean }

module _ (E : Env) where
  rewrite-IsDurable :
      (l : Log) (s : Store E) (now : ℕ) (disk : Disk)
      → IsDurable l
      → IsDurable (rewrite E l s now disk).0
  unfolding rewrite
  rewrite-IsDurable l s now disk d = elim (Bool-cases l.rewrite_in_progress) [
    | inl busy ↦ rw busy (flag-IsDurable l true d)
    | inr idle ↦ rw idle (
        flag-IsDurable _ false (
          rewrite_inner-IsDurable (record l { rewrite_in_progress = true })
            (write_store_snapshot E s now) disk (flag-IsDurable l true d)))
  ]

  step-IsDurable : (l : Log) (event : Event E) → IsDurable l → IsDurable (step E l event)
  unfolding step
  step-IsDurable l (appended cmd on_disk) d = append-IsDurable l cmd on_disk d
  step-IsDurable l (synced on_disk) d = sync-IsDurable l on_disk d
  step-IsDurable l (rewritten s now disk) d = rewrite-IsDurable l s now disk d

  steps-IsDurable : (l : Log) (events : List (Event E)) → IsDurable l → IsDurable (steps E l events)
  unfolding steps
  steps-IsDurable l [] d = d
  steps-IsDurable l (event ∷ events) d =
      steps-IsDurable (step E l event) events (step-IsDurable l event d)

  everysec_tick_lem :
      (l : Log)
      → IsDurable l
      → l.fsync ≢ always
      → ((everysec_tick l true).synced ≡ length (everysec_tick l true).content)
        × ((everysec_tick l true).dirty ≡ false)
        × ((everysec_tick l true).content ≡ l.content)
        × ((everysec_tick l true).at_path ≡ l.at_path)
  unfolding everysec_tick sync flush_sync
  everysec_tick_lem l d other = elim (Bool-cases l.dirty) [
    | inl e ↦ rw (e, everysec_tick) (refl, refl, refl, refl)
    | inr e ↦ rw (e, everysec_tick) (d.clean other e, refl, refl, refl)
  ]

  -- After any appends, syncs and rewrites, the next tick of everysec_task whose sync succeeds
  -- leaves the log clean, and in the file that the next start reads just the records of the
  -- commands that were appended, or of the snapshot of the last rewrite and of the commands
  -- appended behind it. At the start the log holds the records of some commands, no more of it is
  -- on disk than there is, and all of it unless it is dirty or its policy Always; behind the events
  -- the policy is not Always. The writes of the appends succeed and a rewrite can open the renamed
  -- file; the other file operations may fail.
  pub everysec_tick-steps :
      (l : Log) (cmds : List (List Bytes)) (events : List (Event E))
      → IsDurable l
      → Represents E l cmds
      → All (Reopens E) events
      → (steps E l events).fsync ≢ always
      → let t = everysec_tick (steps E l events) true in
        (file_at_path t ≡ records (all_recorded E cmds events)) × (t.dirty ≡ false)
  everysec_tick-steps l cmds events d r h other =
      let (whole, clean, kept, there) =
        everysec_tick_lem (steps E l events) (steps-IsDurable l events d) other in
      let after = steps-Represents E l cmds events h r in
      (
        file_at_path_attached (everysec_tick (steps E l events) true) (there ∙ after.at_path) whole
            ∙ kept
            ∙ after.content,
        clean,
      )

append_unsynced :
    (l : Log) (cmd : List Bytes) → l.fsync ≡ always → (append l cmd wrote false).1 ≡ false
unfolding append after_write flush_sync count_written
append_unsynced l cmd e = rw e

-- Under the policy Always an append that succeeds has put the whole record behind the log and has
-- all of the log on disk, whatever the disk answers.
pub append_always :
    (l : Log) (cmd : List Bytes) (write : Write) (on_disk : Bool)
    → l.fsync ≡ always
    → (append l cmd write on_disk).1 ≡ true
    → ((append l cmd write on_disk).0.content ≡ l.content ++ write_array [] cmd)
      × ((append l cmd write on_disk).0.synced ≡ length (append l cmd write on_disk).0.content)
unfolding append after_write flush_sync count_written
append_always l cmd (write_failed n) on_disk e ok = absurd (ground (arith, ok))
append_always l cmd wrote true e ok =
    rw (e, write_resp_array-write_array l.content cmd) (refl, refl)
append_always l cmd wrote false e ok = absurd (ground (arith, ok, append_unsynced l cmd e))

-- Right behind a rewrite that succeeded the log asks for no other, if the larger of its size and of
-- the least size, times the percentage, is at least 100, and its size is below the largest u64.
pub should_rewrite-rewrite :
    (E : Env) (l : Log) (s : Store E) (now min_size percentage : ℕ)
    → l.rewrite_in_progress ≡ false
    → length (write_store_snapshot E s now).file < max_u64
    → 100 ≤ max (length (write_store_snapshot E s now).file) min_size * percentage
    → should_rewrite (rewrite E l s now completed).0 min_size percentage ≡ false
unfolding should_rewrite rewrite rewrite_inner
should_rewrite-rewrite E l s now min_size percentage idle small large =
    rw (idle, (write_store_snapshot-records E s now).1) (ground arith)

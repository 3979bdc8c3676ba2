-- ===== src/Aof/History.antt =====
-- The log of src/aof.rs as the list of the commands that a start would replay.
use redistill.Base.{
  ℕ, ◌≡◌, refl, sym, ◌∙◌, ◌≢◌, Bool, true, false, none, List, [], ◌∷◌, ◌++◌, append-nil, Bytes,
  length, All,
}
use redistill.Store.State.{Env, Store}
use redistill.Resp.Writer.{write_array}
use redistill.Aof.Policy.{FsyncPolicy, always, every_sec, no}
use redistill.Aof.Frame.{write_resp_array-write_array}
use redistill.Aof.Log.{Log, wrote, append, sync, after_write, flush_sync, count_written}
use redistill.Aof.Snapshot.Records.{
  shards_commands, records, records-append, write_store_snapshot-records,
}
use redistill.Aof.Rewrite.{
  Disk, snapshot_failed, flush_failed, rename_failed, reopen_failed, completed, rewrite_inner,
  rewrite,
}

-- The file is the same, and no rewrite has begun or ended.
record SameFile (l t : Log) : Type 0 where
  content : t.content ≡ l.content
  at_path : t.at_path ≡ l.at_path
  rewrite_in_progress : t.rewrite_in_progress ≡ l.rewrite_in_progress

same_file : (l : Log) → SameFile l l
same_file l = record { content = refl; at_path = refl; rewrite_in_progress = refl }

SameFile-trans : {l t u : Log} → SameFile l t → SameFile t u → SameFile l u
SameFile-trans f g = record {
  content = g.content ∙ f.content;
  at_path = g.at_path ∙ f.at_path;
  rewrite_in_progress = g.rewrite_in_progress ∙ f.rewrite_in_progress;
}

flush_sync-SameFile : (l : Log) (on_disk : Bool) → SameFile l (flush_sync l on_disk).0
unfolding flush_sync
flush_sync-SameFile l true = record { content = refl; at_path = refl; rewrite_in_progress = refl }
flush_sync-SameFile l false = same_file l

after_write-SameFile :
    (p : FsyncPolicy) (l : Log) (on_disk : Bool) → SameFile l (after_write p l on_disk).0
unfolding after_write
after_write-SameFile always l on_disk = flush_sync-SameFile l on_disk
after_write-SameFile every_sec l on_disk = record {
  content = refl;
  at_path = refl;
  rewrite_in_progress = refl;
}
after_write-SameFile no l on_disk = record {
  content = refl;
  at_path = refl;
  rewrite_in_progress = refl;
}

count_written-SameFile : (n : ℕ) (l : Log) (b : Bool) → SameFile l (count_written n (l, b)).0
unfolding count_written
count_written-SameFile n l true = record {
  content = refl;
  at_path = refl;
  rewrite_in_progress = refl;
}
count_written-SameFile n l false = same_file l

-- An append whose write succeeds, whatever the sync comes to.
append-SameFile :
    (l : Log) (cmd : List Bytes) (on_disk : Bool)
    → SameFile
        (record l { content = l.content ++ write_array [] cmd })
        (append l cmd wrote on_disk).0
unfolding append
append-SameFile l cmd on_disk = rw (write_resp_array-write_array l.content cmd) (
    SameFile-trans
      (after_write-SameFile l.fsync (record l { content = l.content ++ write_array [] cmd })
        on_disk)
      (count_written-SameFile (length (write_array [] cmd)) _ _))

sync-SameFile : (l : Log) (on_disk : Bool) → SameFile l (sync l on_disk).0
unfolding sync flush_sync
sync-SameFile l true = record { content = refl; at_path = refl; rewrite_in_progress = refl }
sync-SameFile l false = same_file l

-- A command appended, with the answer of the disk to its sync; a sync; a rewrite.
pub data Event (E : Env) : Type 0 where
  appended : List Bytes → Bool → Event E
  synced : Bool → Event E
  rewritten : Store E → ℕ → Disk → Event E

module _ (E : Env) where
  unfoldable pub step : Log → Event E → Log
  step l (appended cmd on_disk) = (append l cmd wrote on_disk).0
  step l (synced on_disk) = (sync l on_disk).0
  step l (rewritten s now disk) = (rewrite E l s now disk).0

  unfoldable pub steps : Log → List (Event E) → Log
  steps l [] = l
  steps l (event ∷ events) = steps (step l event) events

  -- What the events come to on the list of commands.
  abbrev pub recorded : List (List Bytes) → Event E → List (List Bytes)
  recorded cmds (appended cmd on_disk) = cmds ++ cmd ∷ []
  recorded cmds (synced on_disk) = cmds
  recorded cmds (rewritten s now completed) = shards_commands E now s.shards
  recorded cmds (rewritten s now _) = cmds

  abbrev pub all_recorded : List (List Bytes) → List (Event E) → List (List Bytes)
  all_recorded cmds [] = cmds
  all_recorded cmds (event ∷ events) = all_recorded (recorded cmds event) events

  -- The writer can open its file again behind the rename.
  abbrev pub Reopens : Event E → Type 0
  Reopens (rewritten s now disk) = disk ≢ reopen_failed
  Reopens _ = Unit

  -- The log holds the records of the commands, in the file at the path.
  pub record Represents (l : Log) (cmds : List (List Bytes)) : Type 0 where
    pub content : l.content ≡ records cmds
    pub at_path : l.at_path ≡ none
    pub idle : l.rewrite_in_progress ≡ false

  Represents-SameFile :
      {l t : Log} {cmds : List (List Bytes)} → SameFile l t → Represents l cmds → Represents t cmds
  Represents-SameFile f r = record {
    content = f.content ∙ r.content;
    at_path = f.at_path ∙ r.at_path;
    idle = f.rewrite_in_progress ∙ r.idle;
  }

  records-snoc :
      (cmds : List (List Bytes)) (cmd : List Bytes)
      → records (cmds ++ cmd ∷ []) ≡ records cmds ++ write_array [] cmd
  records-snoc cmds cmd = records-append cmds (cmd ∷ []) ∙ rw append-nil

  rewritten-Represents :
      (l : Log) (cmds : List (List Bytes)) (s : Store E) (now : ℕ) (disk : Disk)
      → disk ≢ reopen_failed
      → Represents l cmds
      → Represents (rewrite E l s now disk).0 (recorded cmds (rewritten s now disk))
  unfolding rewrite rewrite_inner
  rewritten-Represents l cmds s now snapshot_failed h r =
      rw r.idle (record { content = r.content; at_path = r.at_path; idle = refl })
  rewritten-Represents l cmds s now flush_failed h r =
      rw r.idle (record { content = r.content; at_path = r.at_path; idle = refl })
  rewritten-Represents l cmds s now rename_failed h r =
      rw r.idle (record { content = r.content; at_path = r.at_path; idle = refl })
  rewritten-Represents l cmds s now reopen_failed h r = absurd (h refl)
  rewritten-Represents l cmds s now completed h r =
      rw r.idle
        (record { content = (write_store_snapshot-records E s now).0; at_path = refl; idle = refl })

  step-Represents :
      (l : Log) (cmds : List (List Bytes)) (event : Event E)
      → Reopens event
      → Represents l cmds
      → Represents (step l event) (recorded cmds event)
  unfolding step
  step-Represents l cmds (appended cmd on_disk) h r =
      Represents-SameFile (append-SameFile l cmd on_disk) (record {
        content = rw r.content (sym (records-snoc cmds cmd));
        at_path = r.at_path;
        idle = r.idle;
      })
  step-Represents l cmds (synced on_disk) h r = Represents-SameFile (sync-SameFile l on_disk) r
  step-Represents l cmds (rewritten s now disk) h r = rewritten-Represents l cmds s now disk h r

  -- After any appends, syncs and rewrites the log holds the records of just the commands that the
  -- abstract list of commands then has, at its path. The writes of the appends succeed and a
  -- rewrite can open the renamed file.
  pub steps-Represents :
      (l : Log) (cmds : List (List Bytes)) (events : List (Event E))
      → All Reopens events
      → Represents l cmds
      → Represents (steps l events) (all_recorded cmds events)
  unfolding steps
  steps-Represents l cmds [] h r = r
  steps-Represents l cmds (event ∷ events) (h, hs) r =
      steps-Represents (step l event) (recorded cmds event) events hs
        (step-Represents l cmds event h r)

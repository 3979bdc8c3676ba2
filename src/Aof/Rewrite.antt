-- ===== src/Aof/Rewrite.antt =====
-- `Aof::rewrite` of src/aof.rs: a snapshot of the store takes the place of the log.
use redistill.Base.{
  ℕ, ◌≡◌, refl, ap, Bool, true, false, Option, none, some, if◌then◌else◌, Bytes, length, take, [],
  ◌∷◌,
}
use redistill.Store.State.{Env, Store}
use redistill.Aof.Log.{Log}
use redistill.Aof.Snapshot.{Progress, write_store_snapshot}

-- How far the file operations of `rewrite_inner` come: the first that fails, or all the way.
pub data Disk : Type 0 where
  snapshot_failed flush_failed rename_failed reopen_failed completed : Disk

-- The file at `path` is the new one from the rename on, the writer's from the second `open` on.
unfoldable pub rewrite_inner : Log → Progress → Disk → Log × Bool
rewrite_inner l snapshot reopen_failed = (record l { at_path = some snapshot.file }, false)
rewrite_inner l snapshot completed = (
  record l {
    content = snapshot.file;
    synced = length snapshot.file;
    at_path = none;
    dirty = false;
    size_bytes = snapshot.bytes;
    last_rewrite_size = snapshot.bytes;
  },
  true,
)
rewrite_inner l snapshot _ = (l, false)

-- `Ok(None)` if another rewrite is running; else whether `rewrite_inner` succeeded.
unfoldable pub rewrite : (E : Env) → Log → Store E → ℕ → Disk → Log × Option Bool
rewrite E l s now disk =
    let (l1, success) =
      rewrite_inner (record l { rewrite_in_progress = true }) (write_store_snapshot E s now) disk in
    if l.rewrite_in_progress
    then (l, none)
    else (record l1 { rewrite_in_progress = false }, some success)

take_all : (s : Bytes) → take (length s) s ≡ s
take_all [] = refl
take_all (b ∷ s) = ap (◌∷◌ b) (take_all s)

-- What is sure to be in the file that the next start reads. What the writer only buffers is lost when
-- the process ends before a flush.
abbrev pub file_at_path : Log → Bytes
file_at_path l = elim l.at_path [ none ↦ take l.synced l.content | some file ↦ file ]

pub file_at_path_attached :
    (l : Log) → l.at_path ≡ none → l.synced ≡ length l.content → file_at_path l ≡ l.content
file_at_path_attached l e all = rw (e, all, take_all l.content)

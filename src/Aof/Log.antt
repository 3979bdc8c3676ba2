-- ===== src/Aof/Log.antt =====
-- `Aof` of src/aof.rs: the log's state, `append`, `sync` and the test for a rewrite. What the disk
-- answers is an argument of each operation.
use redistill.Base.{
  ℕ, ◌+◌, ◌*◌, ◌/◌, ◌%◌, ◌^◌, min, max, Bool, true, false, ◌&&◌, not, Option, none, List, [], ◌++◌,
  ltb, leb, ◌==◌, if◌then◌else◌, Bytes, length, take,
}
use redistill.Aof.Policy.{FsyncPolicy, always}
use redistill.Aof.Frame.{write_resp_array}
use redistill.Resp.Decimal.{max_u64}

-- `content` is what the writer holds, its buffer included, and `synced` how many bytes of it are on
-- disk. `at_path` is the file at `path`, where it is not the writer's any more.
pub record Log : Type 0 where
  pub content : Bytes
  pub synced : ℕ
  pub at_path : Option Bytes
  pub fsync : FsyncPolicy
  pub dirty : Bool
  pub size_bytes : ℕ
  pub last_rewrite_size : ℕ
  pub rewrite_in_progress : Bool

-- `Aof::open` on a file of which so many bytes are on disk.
unfoldable pub open_log : Bytes → ℕ → FsyncPolicy → Log
open_log file synced fsync = record {
  content = file;
  synced = synced;
  at_path = none;
  fsync = fsync;
  dirty = false;
  size_bytes = length file % 2 ^ 64;
  last_rewrite_size = length file % 2 ^ 64;
  rewrite_in_progress = false;
}

-- What `write_all` calls came to: done, or an error behind some bytes.
pub data Write : Type 0 where
  wrote : Write
  write_failed : ℕ → Write

-- `w.flush()?; w.get_ref().sync_data()?`, which succeeds or fails.
unfoldable pub flush_sync : Log → Bool → Log × Bool
flush_sync l synced = if synced then (record l { synced = length l.content }, true) else (l, false)

-- `size_bytes.fetch_add(written)`, behind a success
unfoldable pub count_written : ℕ → Log × Bool → Log × Bool
count_written written (l, success) =
    if success
    then (record l { size_bytes = (l.size_bytes + written) % 2 ^ 64 }, true)
    else (l, false)

-- The match on the policy.
unfoldable pub after_write : FsyncPolicy → Log → Bool → Log × Bool
after_write always l synced = flush_sync l synced
after_write _ l synced = (record l { dirty = true }, true)

-- The Boolean is false for `Err`.
unfoldable pub append : Log → List Bytes → Write → Bool → Log × Bool
append l command (write_failed n) synced =
    (record l { content = l.content ++ take n (write_resp_array [] command).0 }, false)
append l command wrote synced =
    let (content, written) = write_resp_array l.content command in
    count_written written (after_write l.fsync (record l { content = content }) synced)

unfoldable pub sync : Log → Bool → Log × Bool
sync l synced =
    let (l1, success) = flush_sync l synced in
    if success then (record l1 { dirty = false }, true) else (l1, false)

-- `saturating_add` and `saturating_mul` of a u64
abbrev pub saturating_add : ℕ → ℕ → ℕ
saturating_add a b = min (a + b) max_u64

abbrev pub saturating_mul : ℕ → ℕ → ℕ
saturating_mul a b = min (a * b) max_u64

unfoldable pub should_rewrite : Log → ℕ → ℕ → Bool
should_rewrite l min_size_bytes percentage =
    let base = max l.last_rewrite_size min_size_bytes in
    let trigger = saturating_add base (saturating_mul base percentage / 100) in
    if ltb l.size_bytes min_size_bytes then false else leb trigger l.size_bytes

-- One tick of `rewrite_supervisor_task`: whether it starts a rewrite.
unfoldable pub supervisor_tick : Log → ℕ → ℕ → Bool
supervisor_tick l min_size percentage =
    not (percentage == 0) && should_rewrite l min_size percentage && not l.rewrite_in_progress

-- One tick of `everysec_task`, and the last sync at shutdown.
unfoldable pub everysec_tick : Log → Bool → Log
everysec_tick l synced = if l.dirty then (sync l synced).0 else l

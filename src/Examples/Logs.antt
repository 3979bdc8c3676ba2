-- ===== src/Examples/Logs.antt =====
-- The results on the log, each applied to a log of a few commands.
use redistill.Base.{
  ◌≢◌, ◌%◌, ◌^◌, ◌≡◌, refl, true, false, some, List, [], ◌∷◌, ◌++◌, arith, Bytes, codes, length,
}
use mathlib.Core.List.{cons-ne-nil}
use redistill.Resp.Decimal.{decimal, fill_digits, write_u64}
use redistill.Resp.Writer.{write_array, write_bulks, write_bulk_string}
use redistill.Aof.Policy.{always, every_sec}
use redistill.Aof.Reader.{ok, ErrorKind, next_command}
use redistill.Aof.RoundTrip.{FitsVec, next_command-write_array}
use redistill.Aof.Replay.{Replay, replay, malformed, replay_ends, replay_cut}
use redistill.Aof.Reader.{capacity_overflow}
use redistill.Aof.Log.{
  everysec_tick, Log, open_log, wrote, append, after_write, flush_sync, count_written,
}
use redistill.Aof.Snapshot.{write_store_snapshot}
use redistill.Aof.Rewrite.{file_at_path}
use redistill.Aof.Snapshot.Records.{records, shards_commands, write_store_snapshot-records}
use redistill.Aof.Rewrite.{completed}
use redistill.Aof.History.{
  Represents, appended, rewritten, steps, all_recorded, step, steps-Represents,
}
use redistill.Aof.Durable.{IsDurable, everysec_tick-steps, append_always}
use redistill.Examples.Samples.{here, two_keys}

abbrev pub ping : List Bytes
ping = codes "PING" ∷ []

abbrev pub set_a : List Bytes
set_a = codes "SET" ∷ codes "a" ∷ codes "1" ∷ []

pub ping-FitsVec : FitsVec ping
ping-FitsVec = record { count = omega arith; sizes = (omega arith, tt) }

pub set_a-FitsVec : FitsVec set_a
set_a-FitsVec = record {
  count = omega arith;
  sizes = (omega arith, (omega arith, (omega arith, tt)));
}

next_command_example :
    next_command (write_array [] set_a ++ codes "*1") ≡ ok (some (set_a, codes "*1"))
next_command_example = next_command-write_array set_a (codes "*1") set_a-FitsVec

-- A state that is the list of the commands run.
abbrev remember : List (List Bytes) → List Bytes → List (List Bytes)
remember done cmd = done ++ cmd ∷ []

replay_ends_example :
    (r : Replay (List (List Bytes))) × (replay remember 4 (codes "*1\n") [] 0 ≡ some r)
replay_ends_example = replay_ends remember 4 (codes "*1\n") [] 0 (omega arith)

cut_ping : codes "*1\r\n$4\r\nPI" ++ codes "NG\r\n" ≡ write_array [] ping
unfolding write_array write_bulks write_bulk_string write_u64 decimal fill_digits
cut_ping = refl

replay_cut_example :
    (e : ErrorKind) × (replay remember 5 (records (set_a ∷ []) ++ codes "*1\r\n$4\r\nPI") [] 0
      ≡ some (malformed (set_a ∷ []) 1 e))
    × (e ≢ capacity_overflow)
replay_cut_example =
    replay_cut remember 5 (set_a ∷ []) ping (codes "*1\r\n$4\r\nPI") (codes "NG\r\n") []
      (set_a-FitsVec, tt) ping-FitsVec cut_ping (cons-ne-nil _ _) (cons-ne-nil _ _) (omega arith)

abbrev pub fresh_log : Log
fresh_log = open_log [] 0 every_sec

pub fresh_log-Represents : Represents here fresh_log []
unfolding open_log
fresh_log-Represents = record { content = refl; at_path = refl; idle = refl }

fresh_log-IsDurable : IsDurable fresh_log
unfolding open_log
fresh_log-IsDurable = record { bound = omega arith; clean = λ _ _. refl }

steps_example :
    Represents here
      (steps here fresh_log
        (appended set_a false ∷ rewritten two_keys 10 completed ∷ appended ping true ∷ []))
      (all_recorded here []
        (appended set_a false ∷ rewritten two_keys 10 completed ∷ appended ping true ∷ []))
steps_example =
    steps-Represents here fresh_log []
      (appended set_a false ∷ rewritten two_keys 10 completed ∷ appended ping true ∷ [])
      (tt, (ground arith, (tt, tt))) fresh_log-Represents

abbrev two_appends : Log
two_appends = steps here fresh_log (appended set_a false ∷ appended ping false ∷ [])

two_appends-every_sec : two_appends.fsync ≡ every_sec
unfolding steps step append after_write count_written open_log
two_appends-every_sec = refl

every_sec-ne-always : every_sec ≢ always
every_sec-ne-always = ground arith

everysec_tick_example :
    (file_at_path (everysec_tick two_appends true) ≡ records (set_a ∷ ping ∷ []))
    × ((everysec_tick two_appends true).dirty ≡ false)
everysec_tick_example =
    everysec_tick-steps here fresh_log [] (appended set_a false ∷ appended ping false ∷ [])
      fresh_log-IsDurable fresh_log-Represents (tt, (tt, tt))
      (rw two_appends-every_sec every_sec-ne-always)

abbrev safe_log : Log
safe_log = open_log [] 0 always

safe_log-always : safe_log.fsync ≡ always
unfolding open_log
safe_log-always = refl

safe_append : (append safe_log set_a wrote true).1 ≡ true
unfolding open_log append after_write flush_sync count_written
safe_append = refl

append_always_example :
    ((append safe_log set_a wrote true).0.content ≡ safe_log.content ++ write_array [] set_a)
    × ((append safe_log set_a wrote true).0.synced
        ≡ length (append safe_log set_a wrote true).0.content)
append_always_example = append_always safe_log set_a wrote true safe_log-always safe_append

snapshot_example :
    ((write_store_snapshot here two_keys 10).file
      ≡ records (shards_commands here 10 two_keys.shards))
    × ((write_store_snapshot here two_keys 10).bytes
        ≡ length (write_store_snapshot here two_keys 10).file % 2 ^ 64)
snapshot_example = write_store_snapshot-records here two_keys 10

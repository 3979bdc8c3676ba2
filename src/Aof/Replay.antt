-- ===== src/Aof/Replay.antt =====
-- The loop of `main` in src/main.rs that replays a log of src/aof.rs. What a command does is a
-- parameter: Server/Startup puts `execute_command` there.
use mathlib.Core.Path.{subst}
use redistill.Base.{
  ℕ, zero, suc, ◌+◌, ◌-◌, ◌%◌, ◌^◌, ◌<◌, ◌≡◌, refl, sym, ap, ◌∙◌, ◌≢◌, ◌⊎◌, inl, inr, Option, none,
  some, List, [], ◌∷◌, ◌++◌, append_assoc, append-nil, arith, Bytes, length, All,
}
use redistill.Resp.Writer.{write_array}
use redistill.Aof.Reader.{Result, ok, err, ErrorKind, capacity_overflow, next_command}
use redistill.Aof.RoundTrip.{FitsVec, next_command-write_array}
use redistill.Aof.Progress.{LeavesLess, next_command-LeavesLess}
use redistill.Aof.Cut.{next_command_cut}
use redistill.Aof.Snapshot.Records.{records}

-- The state behind the last command and the count `replayed`; at a malformed record the server
-- refuses to start, and at `capacity_overflow` it panics: the process ends either way.
pub data Replay (S : Type 0) : Type 0 where
  replayed : S → ℕ → Replay S
  malformed : S → ℕ → ErrorKind → Replay S

Next-cases :
    (r : Result (Option (List Bytes × Bytes)))
    → (r ≡ ok none)
      ⊎ (((cmd : List Bytes) × (rest : Bytes) × (r ≡ ok (some (cmd, rest))))
          ⊎ ((e : ErrorKind) × (r ≡ err e)))
Next-cases (ok none) = inl refl
Next-cases (ok (some (cmd, rest))) = inr (inl (cmd, rest, refl))
Next-cases (err e) = inr (inr (e, refl))

module _ {S : Type 0} (execute : S → List Bytes → S) where
  -- `none` is fuel that ran out.
  unfoldable pub replay : ℕ → Bytes → S → ℕ → Option (Replay S)
  replay zero file s count = none
  replay (suc fuel) file s count = elim (next_command file) [
    | ok none ↦ some (replayed s count)
    | ok (some (cmd, rest)) ↦ replay fuel rest (execute s cmd) ((count + 1) % 2 ^ 64)
    | err e ↦ some (malformed s count e)
  ]

  abbrev pub execute_all : S → List (List Bytes) → S
  execute_all s [] = s
  execute_all s (cmd ∷ cmds) = execute_all (execute s cmd) cmds

  -- On any file the replay of the log ends, once the fuel exceeds the length of the file: with the
  -- store, or at a record that is malformed, or whose numbers overflow the capacity of a Vec, where
  -- the process ends.
  pub replay_ends :
      (fuel : ℕ) (file : Bytes) (s : S) (count : ℕ)
      → length file < fuel
      → (r : Replay S) × (replay fuel file s count ≡ some r)
  unfolding replay
  replay_ends zero file s count h = absurd (omega arith)
  replay_ends (suc fuel) file s count h = elim (Next-cases (next_command file)) [
    | inl e ↦ rw (e, replay) (replayed s count, refl)
    | inr (inr (e, x)) ↦ rw (x, replay) (malformed s count e, refl)
    | inr (inl (cmd, rest, x)) ↦
        let less : LeavesLess (length file) (ok (some (cmd, rest))) =
          subst (LeavesLess (length file)) x (next_command-LeavesLess file) in
        rw (x, replay) (replay_ends fuel rest (execute s cmd) ((count + 1) % 2 ^ 64) (omega arith))
  ]

  replay-record :
      (fuel : ℕ) (cmd : List Bytes) (rest : Bytes) (s : S) (count : ℕ)
      → FitsVec cmd
      → replay (suc fuel) (write_array [] cmd ++ rest) s count
        ≡ replay fuel rest (execute s cmd) ((count + 1) % 2 ^ 64)
  unfolding replay
  replay-record fuel cmd rest s count fits = rw (next_command-write_array cmd rest fits, replay)

  replay-records :
      (fuel : ℕ) (cmds : List (List Bytes)) (rest : Bytes) (s : S) (count : ℕ)
      → All FitsVec cmds
      → count < 2 ^ 64
      → replay (length cmds + fuel) (records cmds ++ rest) s count
        ≡ replay fuel rest (execute_all s cmds) ((count + length cmds) % 2 ^ 64)
  replay-records fuel [] rest s count h small =
      let e : (count + 0) % 2 ^ 64 ≡ count = omega arith in
      let z : 0 + fuel ≡ fuel = omega arith in rw (e, z)
  replay-records fuel (cmd ∷ cmds) rest s count (h, hs) small =
      let e : suc (length cmds) + fuel ≡ suc (length cmds + fuel) = omega arith in
      let f : ((count + 1) % 2 ^ 64 + length cmds) % 2 ^ 64 ≡ (count + suc (length cmds)) % 2 ^ 64 =
        omega arith in
      rw (append_assoc (write_array [] cmd) (records cmds) rest, e)
        (replay-record (length cmds + fuel) cmd (records cmds ++ rest) s count h
          ∙ replay-records fuel cmds rest (execute s cmd) ((count + 1) % 2 ^ 64) hs (omega arith)
          ∙ ap (replay fuel rest (execute_all (execute s cmd) cmds)) f)

  -- With fuel beyond the count of the records, the round behind them is reached.
  replay-behind :
      (fuel : ℕ) (cmds : List (List Bytes)) (rest : Bytes) (s : S)
      → All FitsVec cmds
      → length cmds < fuel
      → replay fuel (records cmds ++ rest) s 0
        ≡ replay (suc (fuel - length cmds - 1)) rest (execute_all s cmds) (length cmds % 2 ^ 64)
  replay-behind fuel cmds rest s h enough =
      let e : length cmds + suc (fuel - length cmds - 1) ≡ fuel = omega arith in
      let z : 0 + length cmds ≡ length cmds = omega arith in
      subst
        (λ f.
          replay f (records cmds ++ rest) s 0
          ≡ replay (suc (fuel - length cmds - 1)) rest (execute_all s cmds) (length cmds % 2 ^ 64))
        e (replay-records (suc (fuel - length cmds - 1)) cmds rest s 0 h (omega arith) ∙ rw z)

  replay_eof :
      (fuel : ℕ) (s : S) (count : ℕ) → replay (suc fuel) [] s count ≡ some (replayed s count)
  unfolding replay next_command
  replay_eof fuel s count = refl

  -- The records of some commands are replayed by running the commands in order.
  pub replay-log :
      (fuel : ℕ) (cmds : List (List Bytes)) (s : S)
      → All FitsVec cmds
      → length cmds < fuel
      → replay fuel (records cmds) s 0 ≡ some (replayed (execute_all s cmds) (length cmds % 2 ^ 64))
  replay-log fuel cmds s h enough =
      ap (λ file. replay fuel file s 0) (sym (append-nil (records cmds)))
      ∙ replay-behind fuel cmds [] s h enough
      ∙ replay_eof _ _ _

  replay_err :
      (fuel : ℕ) (p : Bytes) (e : ErrorKind) (s : S) (count : ℕ)
      → next_command p ≡ err e
      → replay (suc fuel) p s count ≡ some (malformed s count e)
  unfolding replay
  replay_err fuel p e s count x = rw (x, replay)

  -- A log that was cut off inside its last record is replayed up to that record, and there found
  -- malformed, without an overflow of a capacity: the cut record is not run, in whole or in part.
  -- Both parts of the record have bytes, the parts of the commands have sizes that a Vec can have,
  -- and the fuel exceeds the number of whole records.
  pub replay_cut :
      (fuel : ℕ) (cmds : List (List Bytes)) (cmd : List Bytes) (p q : Bytes) (s : S)
      → All FitsVec cmds
      → FitsVec cmd
      → p ++ q ≡ write_array [] cmd
      → p ≢ []
      → q ≢ []
      → length cmds < fuel
      → (e : ErrorKind) × (replay fuel (records cmds ++ p) s 0
          ≡ some (malformed (execute_all s cmds) (length cmds % 2 ^ 64) e))
        × (e ≢ capacity_overflow)
  replay_cut fuel cmds cmd p q s h fits whole hp hq enough =
      let (e, x, regular) = next_command_cut cmd p q fits whole hp hq in
      (e, replay-behind fuel cmds p s h enough ∙ replay_err _ p e _ _ x, regular)

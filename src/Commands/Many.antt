-- ===== src/Commands/Many.antt =====
-- `handle_mget` and `handle_mset` of src/main.rs.
use redistill.Base.{
  ℕ, true, Option, none, some, List, [], ◌∷◌, ltb, if◌then◌else◌, Bytes, codes, length,
}
use redistill.Base.Int.{ℤ, pos, ◌+ℤ◌, sub_ℕ, pos_part}
use redistill.Resp.Writer.{write_simple_string, write_array_header, write_error}
use redistill.Store.Entry.{entry_size}
use redistill.Store.State.{Env, Store}
use redistill.Store.Strings.{get, get_existing_size}
use redistill.Store.Evict.{evict_if_needed}
use redistill.Commands.Words.{wrong_arguments, oom_message}
use redistill.Commands.Set.{set_accounted, write_optional}

-- The arguments two by two, if they come out even.
unfoldable pub pairs_of : List Bytes → Option (List (Bytes × Bytes))
pairs_of [] = some []
pairs_of (k ∷ []) = none
pairs_of (k ∷ v ∷ rest) = elim (pairs_of rest) [ none ↦ none | some pairs ↦ some ((k, v) ∷ pairs) ]

unfoldable pub or_zero : Option ℕ → ℕ
or_zero none = 0
or_zero (some n) = n

module _ (E : Env) where
  unfoldable pub get_each : Store E → List Bytes → Bytes → ℕ → Bytes × Store E
  get_each s [] w now = (w, s)
  get_each s (key ∷ keys) w now =
      let (value, s1) = get E s key now in get_each s1 keys (write_optional w value) now

  unfoldable pub handle_mget : Store E → List Bytes → Bytes → ℕ → Bytes × Store E
  handle_mget s (cmd ∷ key ∷ keys) w now =
      get_each s (key ∷ keys) (write_array_header w (length (key ∷ keys))) now
  handle_mget s _ w now = (write_error w wrong_arguments, s)

  -- The first loop: what the pairs add, less what the keys count for now.
  unfoldable pub net_size : Store E → List (Bytes × Bytes) → ℕ → ℤ → ℤ
  net_size s [] now net = net
  net_size s ((key, value) ∷ pairs) now net = net_size s pairs now (
      net
      +ℤ sub_ℕ (entry_size (length key) (length value)) (or_zero (get_existing_size E s key now)))

  unfoldable pub set_each : Store E → List (Bytes × Bytes) → ℕ → Store E
  set_each s [] now = s
  set_each s ((key, value) ∷ pairs) now = set_each (set_accounted E s key value none now) pairs now

  unfoldable pub mset_pairs : Store E → List (Bytes × Bytes) → Bytes → ℕ → Bytes × Store E
  mset_pairs s pairs w now =
      let net = pos_part (net_size s pairs now (pos 0)) in
      let (room, s1) = if ltb 0 net then evict_if_needed E s net else (true, s) in
      if room
      then (write_simple_string w (codes "OK"), set_each s1 pairs now)
      else (write_error w oom_message, s1)

  unfoldable pub mset_args : Store E → Option (List (Bytes × Bytes)) → Bytes → ℕ → Bytes × Store E
  mset_args s (some (p ∷ pairs)) w now = mset_pairs s (p ∷ pairs) w now
  mset_args s _ w now = (write_error w (codes "wrong number of arguments for MSET"), s)

  unfoldable pub handle_mset : Store E → List Bytes → Bytes → ℕ → Bytes × Store E
  handle_mset s [] w now = mset_args s none w now
  handle_mset s (cmd ∷ args) w now = mset_args s (pairs_of args) w now

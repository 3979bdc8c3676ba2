-- ===== src/Commands/Counter.antt =====
-- `handle_incr`, `handle_incrby` and `handle_decrby` of src/main.rs.
use redistill.Base.{
  ℕ, ◌-◌, ◌^◌, Bool, true, ◌&&◌, Option, none, some, List, ◌∷◌, ltb, leb, ◌==◌, if◌then◌else◌,
  Bytes, codes, length,
}
use redistill.Base.Int.{ℤ, pos, ◌+ℤ◌, sub_ℕ, pos_part, neg_part, ltb_ℤ}
use redistill.Resp.Decimal.{max_i64, parse_i64, to_string}
use redistill.Resp.Writer.{write_signed_integer, write_error}
use redistill.Store.Entry.{EntryValue, string, hash, is_expired, entry_size, calculate_entry_size}
use redistill.Store.State.{Env, Store, find}
use redistill.Store.Access.{expire_key}
use redistill.Store.Evict.{evict_if_needed}
use redistill.Commands.Words.{wrong_arguments, not_an_integer, wrong_type_message, oom_message}
use redistill.Commands.Set.{set_accounted}

unfoldable pub is_i64 : ℤ → Bool
is_i64 i = leb (pos_part i) max_i64 && leb (neg_part i) (2 ^ 63)

-- `i64::checked_add`
unfoldable pub checked_add : ℤ → ℤ → Option ℤ
unfolding ◌+ℤ◌
checked_add a b = if is_i64 (a +ℤ b) then some (a +ℤ b) else none

-- The value, the TTL to keep and the old size, or the message of an error.
pub data Current : Type 0 where
  current : ℤ → Option ℕ → ℕ → Current
  unusable : Bytes → Current

-- A number at the key, with the TTL that is left of it.
unfoldable pub number_at : Bytes → Bytes → Option ℕ → Current
number_at key bytes ttl = elim (parse_i64 bytes) [
  | none ↦ unusable not_an_integer
  | some v ↦ current v ttl (calculate_entry_size (length key) (string bytes))
]

-- `expiry.saturating_sub(now)`
unfoldable pub ttl_left : Option ℕ → ℕ → Option ℕ
ttl_left none now = none
ttl_left (some expiry) now = some (expiry - now)

module _ (E : Env) where
  unfoldable pub read_string : EntryValue → Store E → Bytes → Option ℕ → ℕ → Current × Store E
  read_string (hash fields) s key expiry now = (unusable wrong_type_message, s)
  read_string (string bytes) s key expiry now =
      if is_expired now expiry
      then (current (pos 0) none 0, expire_key E s key now)
      else (number_at key bytes (ttl_left expiry now), s)

  unfoldable pub read_counter : Store E → Bytes → ℕ → Current × Store E
  read_counter s key now = elim (find E s key) [
    | none ↦ (current (pos 0) none 0, s)
    | some e ↦ read_string e.value s key e.expiry now
  ]

  -- Behind the addition.
  unfoldable pub store_counter : Store E → Bytes → ℤ → Option ℕ → ℕ → Bytes → ℕ → Bytes × Store E
  store_counter s key new_val ttl old_size w now =
      let net_size = entry_size (length key) (length (to_string new_val)) - old_size in
      let (room, s1) = if ltb 0 net_size then evict_if_needed E s net_size else (true, s) in
      if room
      then (write_signed_integer w new_val, set_accounted E s1 key (to_string new_val) ttl now)
      else (write_error w oom_message, s1)

  unfoldable pub add_to_counter : Current → Store E → Bytes → ℤ → Bytes → ℕ → Bytes × Store E
  add_to_counter (unusable message) s key delta w now = (write_error w message, s)
  add_to_counter (current v ttl old_size) s key delta w now = elim (checked_add v delta) [
    | none ↦ (
      write_error w (
          if ltb_ℤ (pos 0) delta
          then codes "increment would produce overflow"
          else codes "decrement would produce overflow"),
      s,
    )
    | some new_val ↦ store_counter s key new_val ttl old_size w now
  ]

  unfoldable pub handle_incr : Store E → List Bytes → Bytes → ℕ → ℤ → Bytes × Store E
  handle_incr s (cmd ∷ key ∷ rest) w now delta =
      let (c, s1) = read_counter s key now in add_to_counter c s1 key delta w now
  handle_incr s _ w now delta = (write_error w wrong_arguments, s)

  unfoldable pub handle_incrby : Store E → List Bytes → Bytes → ℕ → Bytes × Store E
  handle_incrby s (cmd ∷ key ∷ amount ∷ rest) w now = elim (parse_i64 amount) [
    | none ↦ (write_error w not_an_integer, s)
    | some increment ↦ handle_incr s (cmd ∷ key ∷ amount ∷ rest) w now increment
  ]
  handle_incrby s _ w now = (write_error w wrong_arguments, s)

  -- `decrement == i64::MIN`, whose negation is no i64
  unfoldable pub is_least : ℤ → Bool
  is_least i = neg_part i == 2 ^ 63

  unfoldable pub handle_decrby : Store E → List Bytes → Bytes → ℕ → Bytes × Store E
  handle_decrby s (cmd ∷ key ∷ amount ∷ rest) w now = elim (parse_i64 amount) [
    | none ↦ (write_error w not_an_integer, s)
    | some decrement ↦
        if is_least decrement
        then (write_error w not_an_integer, s)
        else handle_incr s (cmd ∷ key ∷ amount ∷ rest) w now
            (sub_ℕ (neg_part decrement) (pos_part decrement))
  ]
  handle_decrby s _ w now = (write_error w wrong_arguments, s)

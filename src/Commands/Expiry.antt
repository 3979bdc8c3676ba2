-- ===== src/Commands/Expiry.antt =====
-- `handle_ttl`, `handle_pttl`, `handle_expire` and `handle_persist` of src/main.rs.
use redistill.Base.{
  ℕ, ◌+◌, ◌-◌, ◌*◌, ◌%◌, ◌^◌, Option, none, some, List, [], ◌∷◌, ltb, leb, if◌then◌else◌, Bytes,
  min,
}
use redistill.Base.Int.{ℤ, pos, negsuc}
use redistill.Resp.Decimal.{max_u64, max_i64, parse_i64}
use redistill.Resp.Writer.{write_integer, write_signed_integer, write_error}
use redistill.Store.Entry.{is_expired}
use redistill.Store.State.{Env, Store, find, put}
use redistill.Store.Access.{expire_key}
use redistill.Store.Strings.{delete}
use redistill.Commands.Words.{wrong_arguments, not_an_integer}

-- `as i64` of a u64
unfoldable pub as_i64 : ℕ → ℤ
as_i64 n = if leb n max_i64 then pos n else negsuc (2 ^ 64 - n - 1)

-- The replies of TTL and PTTL for a key that is gone, and for one without an expiry.
abbrev pub no_key_reply : ℤ
no_key_reply = negsuc 1

abbrev pub no_expiry_reply : ℤ
no_expiry_reply = negsuc 0

-- The milliseconds that are left, saturating.
unfoldable pub millis_left : ℕ → ℕ → ℤ
millis_left expiry now = pos (min (min ((expiry - now) * 1000) max_u64) max_i64)

module _ (E : Env) where
  -- TTL and PTTL, at what is left of an expiry that has not passed.
  unfoldable pub remaining : (ℕ → ℕ → ℤ) → Store E → Bytes → ℕ → ℤ × Store E
  remaining left s key now = elim (find E s key) [
    | none ↦ (no_key_reply, s)
    | some e ↦ (elim e.expiry [
      | none ↦ (no_expiry_reply, s)
      | some expiry ↦
          if leb expiry now then (no_key_reply, expire_key E s key now) else (left expiry now, s)
    ])
  ]

  unfoldable pub reply_signed : Bytes → ℤ × Store E → Bytes × Store E
  reply_signed w (i, s) = (write_signed_integer w i, s)

  unfoldable pub reply_count : Bytes → ℕ × Store E → Bytes × Store E
  reply_count w (n, s) = (write_integer w n, s)

  unfoldable pub handle_ttl : Store E → List Bytes → Bytes → ℕ → Bytes × Store E
  handle_ttl s (cmd ∷ key ∷ rest) w now =
      reply_signed w (remaining (λ expiry now. as_i64 (expiry - now)) s key now)
  handle_ttl s _ w now = (write_error w wrong_arguments, s)

  unfoldable pub handle_pttl : Store E → List Bytes → Bytes → ℕ → Bytes × Store E
  handle_pttl s (cmd ∷ key ∷ rest) w now = reply_signed w (remaining millis_left s key now)
  handle_pttl s _ w now = (write_error w wrong_arguments, s)

  -- The key is given a new expiry, in u64.
  unfoldable pub expire_at : Store E → Bytes → ℕ → ℕ → ℕ × Store E
  expire_at s key seconds now = elim (find E s key) [
    | none ↦ (0, s)
    | some e ↦
        if is_expired now e.expiry
        then (0, expire_key E s key now)
        else (1, put E s key (record e { expiry = some ((now + seconds) % 2 ^ 64) }))
  ]

  -- A time that is not positive deletes the key.
  unfoldable pub expire_by : Store E → Bytes → ℤ → ℕ → ℕ × Store E
  expire_by s key (negsuc n) now = delete E s (key ∷ []) now
  expire_by s key (pos n) now = if ltb 0 n then expire_at s key n now else delete E s (key ∷ []) now

  unfoldable pub expire_parsed : Store E → Bytes → Option ℤ → Bytes → ℕ → Bytes × Store E
  expire_parsed s key none w now = (write_error w not_an_integer, s)
  expire_parsed s key (some v) w now = reply_count w (expire_by s key v now)

  unfoldable pub handle_expire : Store E → List Bytes → Bytes → ℕ → Bytes × Store E
  handle_expire s (cmd ∷ key ∷ seconds ∷ rest) w now = expire_parsed s key (parse_i64 seconds) w now
  handle_expire s _ w now = (write_error w wrong_arguments, s)

  unfoldable pub persist_key : Store E → Bytes → ℕ → ℕ × Store E
  persist_key s key now = elim (find E s key) [
    | none ↦ (0, s)
    | some e ↦ (elim e.expiry [
      | none ↦ (0, s)
      | some expiry ↦
          if leb expiry now
          then (0, expire_key E s key now)
          else (1, put E s key (record e { expiry = none }))
    ])
  ]

  unfoldable pub handle_persist : Store E → List Bytes → Bytes → ℕ → Bytes × Store E
  handle_persist s (cmd ∷ key ∷ rest) w now = reply_count w (persist_key s key now)
  handle_persist s _ w now = (write_error w wrong_arguments, s)

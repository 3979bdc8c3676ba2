-- ===== src/Resp/Parser.antt =====
-- `RespParser` of src/protocol.rs: `try_parse` on the buffered bytes. The cursor is the suffix of the
-- buffer that is still to be read.
use redistill.Base.{
  ℕ, zero, suc, ◌+◌, ◌-◌, ◌*◌, List, [], ◌∷◌, ◌++◌, ltb, ◌==◌, not, if◌then◌else◌, Bytes, length,
  take, drop,
}
use redistill.Resp.Decimal.{is_ascii_digit}

abbrev pub max_array_len : ℕ
max_array_len = 1_000_000

abbrev pub max_string_len : ℕ
max_string_len = 512_000_000

abbrev pub max_buffer_size : ℕ
max_buffer_size = 1_073_741_824

-- Rust's `Result<Option<A>, ()>`: `Ok(Some(a))`, `Ok(None)` and `Err(())`.
pub data Outcome {ℓ} (A : Type ℓ) : Type ℓ where
  frame : A → Outcome A
  more : Outcome A
  invalid : Outcome A

infixl 5 ◌>>=◌
abbrev pub ◌>>=◌ {ℓ κ} : {A : Type ℓ} {B : Type κ} → Outcome A → (A → Outcome B) → Outcome B
frame a >>= f = f a
more >>= f = more
invalid >>= f = invalid

-- The two digit loops: they stop at the carriage return, which stays unread.
unfoldable pub read_len : ℕ → Bytes → ℕ → Outcome (ℕ × Bytes)
read_len limit [] len = more
read_len limit (byte ∷ s) len =
    let rest = read_len limit s (len * 10 + (byte - b'0')) in
    if byte == b'\r'
    then frame (len, byte ∷ s)
    else if not (is_ascii_digit byte)
    then invalid
    else if ltb limit (len * 10 + (byte - b'0'))
    then invalid
    else rest

-- At the carriage return: `\n` must follow.
unfoldable pub skip_crlf : Bytes → Outcome Bytes
skip_crlf (c ∷ n ∷ s) = if n == b'\n' then frame s else more
skip_crlf _ = more

-- The content of a bulk string, and the two bytes behind it, which are not looked at.
unfoldable pub take_bulk : ℕ → Bytes → Outcome (Bytes × Bytes)
take_bulk str_len s =
    if ltb (length s) (str_len + 2) then more else frame (take str_len s, drop (str_len + 2) s)

-- One round of the loop over the items.
unfoldable pub read_bulk : Bytes → Outcome (Bytes × Bytes)
read_bulk [] = more
read_bulk (c ∷ s) =
    if c == b'$'
    then (do (str_len, s1) ← read_len max_string_len s 0; s2 ← skip_crlf s1; take_bulk str_len s2)
    else more

unfoldable pub read_items : ℕ → Bytes → List Bytes → Outcome (List Bytes × Bytes)
read_items zero s result = frame (result, s)
read_items (suc n) s result = do (item, s1) ← read_bulk s; read_items n s1 (result ++ item ∷ [])

-- Behind the test of the length.
unfoldable pub read_array : Bytes → Outcome (List Bytes × Bytes)
read_array [] = more
read_array (c ∷ s) =
    if c == b'*'
    then (do
      (array_len, s1) ← read_len max_array_len s 0
      s2 ← skip_crlf s1
      read_items array_len s2 [])
    else invalid

-- A frame comes with the buffer that `advance(cursor)` leaves; otherwise the buffer is kept.
unfoldable pub try_parse : Bytes → Outcome (List Bytes × Bytes)
try_parse buffer = if ltb (length buffer) 4 then more else read_array buffer

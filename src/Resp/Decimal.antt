-- ===== src/Resp/Decimal.antt =====
-- Decimal numbers of src/protocol.rs: `write_u64`, `parse_u64` and `parse_i64`, and the standard
-- library's `to_string` of an integer, which the handlers and the log call.
use redistill.Base.{
  ℕ, zero, suc, ◌+◌, ◌-◌, ◌*◌, ◌/◌, ◌%◌, ◌^◌, Bool, ◌&&◌, not, Option, none, some, [], ◌∷◌, ◌++◌,
  ltb, leb, ◌==◌, if◌then◌else◌, Bytes,
}
use redistill.Base.Int.{ℤ, pos, negsuc, sub_ℕ}

abbrev pub max_u64 : ℕ
max_u64 = 2 ^ 64 - 1

abbrev pub max_i64 : ℕ
max_i64 = 2 ^ 63 - 1

unfoldable pub is_ascii_digit : ℕ → Bool
is_ascii_digit b = leb b'0' b && leb b b'9'

-- The loop `while n > 0` of `write_u64`: `i` slots of `buf` are free, `out` is `buf[i..]`.
unfoldable pub fill_digits : ℕ → ℕ → Bytes → Bytes
fill_digits zero n out = out
fill_digits (suc i) n out =
    let rest = fill_digits i (n / 10) ((b'0' + n % 10) ∷ out) in if n == 0 then out else rest

-- The digits that `write_u64` appends; the standard library prints a u64 alike.
unfoldable pub decimal : ℕ → Bytes
decimal n = if n == 0 then b'0' ∷ [] else fill_digits 20 n []

unfoldable pub write_u64 : Bytes → ℕ → Bytes
write_u64 buffer n = buffer ++ decimal n

-- `to_string` of an i64.
unfoldable pub to_string : ℤ → Bytes
to_string (pos n) = decimal n
to_string (negsuc n) = b'-' ∷ decimal (suc n)

-- The loop of `parse_u64` and of `parse_i64`: `limit` is the largest value of the type, at which
-- `checked_mul` and `checked_add` give up.
unfoldable pub scan : ℕ → Bytes → ℕ → Option ℕ
scan limit [] val = some val
scan limit (b ∷ s) val =
    let rest = scan limit s (val * 10 + (b - b'0')) in
    if not (is_ascii_digit b)
    then none
    else if ltb limit (val * 10)
    then none
    else if ltb limit (val * 10 + (b - b'0'))
    then none
    else rest

unfoldable pub parse_u64 : Bytes → Option ℕ
parse_u64 [] = none
parse_u64 (b ∷ s) = scan max_u64 (b ∷ s) 0

-- `Some(-val)` or `Some(val)`
unfoldable pub with_sign : Bool → Option ℕ → Option ℤ
with_sign negative none = none
with_sign negative (some val) = some (if negative then sub_ℕ 0 val else pos val)

-- `bytes[start..]`, where there is a byte left
unfoldable pub scan_from : Bool → Bytes → Option ℤ
scan_from negative [] = none
scan_from negative (b ∷ s) = with_sign negative (scan max_i64 (b ∷ s) 0)

unfoldable pub parse_i64 : Bytes → Option ℤ
parse_i64 [] = none
parse_i64 (b ∷ s) = let negative = b == b'-' in scan_from negative (if negative then s else b ∷ s)

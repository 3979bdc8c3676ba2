-- ===== src/Config/Numbers.antt =====
-- Numbers in the variables that src/config.rs reads.
use redistill.Base.{
  ℕ, zero, suc, ◌+◌, ◌-◌, ◌*◌, ◌/◌, ◌%◌, ◌^◌, ◌≤◌, ◌<◌, ◌≡◌, ◌≢◌, inl, inr, false, Option, none,
  some, [], ◌∷◌, arith, ltb, leb, ◌==◌, if◌then◌else◌, Bool-cases, Option-cases, ltb→lt, leb→le,
  ltb→le,
}
use redistill.Config.{Text}
use redistill.Config.Load.{max_u64, parse_digits, parse_uint, set_uint}
use redistill.Resp.Decimal.{is_ascii_digit, scan, decimal, fill_digits}
use redistill.Resp.RoundTrip.{scan-decimal, decimal_head, div-lt-pow, scan-fill_digits}

scan-le : (limit : ℕ) (s : Text) (val n : ℕ) → val ≤ limit → scan limit s val ≡ some n → n ≤ limit
unfolding scan is_ascii_digit
scan-le limit [] val n h e = ground arith
scan-le limit (c ∷ s) val n h e = ground (arith, scan-le limit s (val * 10 + (c - b'0')) n)

parse_uint-le : (limit : ℕ) (s : Text) (n : ℕ) → parse_uint limit s ≡ some n → n ≤ limit
unfolding parse_uint parse_digits
parse_uint-le limit [] n e = cc
parse_uint-le limit (c ∷ []) n e = elim (Bool-cases (c == b'+')) [
  | inl plus ↦ let k = rw plus at e in cc
  | inr other ↦ scan-le limit (c ∷ []) 0 n (omega arith) (rw other at e)
]
parse_uint-le limit (c ∷ d ∷ s) n e = elim (Bool-cases (c == b'+')) [
  | inl plus ↦ scan-le limit (d ∷ s) 0 n (omega arith) (rw plus at e)
  | inr other ↦ scan-le limit (c ∷ d ∷ s) 0 n (omega arith) (rw other at e)
]

pub set_uint-le :
    (limit : ℕ) (var : Option Text) (old : ℕ) → old ≤ limit → set_uint limit var old ≤ limit
unfolding set_uint
set_uint-le limit none old h = h
set_uint-le limit (some v) old h = elim (Option-cases (parse_uint limit v)) [
  | inl e ↦ rw e h
  | inr (n, e) ↦ rw e (parse_uint-le limit v n e)
]

-- A number that passes the limit is not read.
scan_digit_over :
    (limit n : ℕ) (out : Text) → limit < n → scan limit ((b'0' + n % 10) ∷ out) (n / 10) ≡ none
unfolding scan is_ascii_digit
scan_digit_over limit n out h = ground arith

scan-fill_digits_over :
    (limit i n : ℕ) (out : Text)
    → limit < n
    → n < 10 ^ i
    → scan limit (fill_digits i n out) 0 ≡ none
unfolding fill_digits
scan-fill_digits_over limit zero n out h lt = absurd (omega arith)
scan-fill_digits_over limit (suc i) n out h lt =
    let z : (n == 0) ≡ false = ground arith in
    let less = div-lt-pow n i lt in
    elim (Bool-cases (ltb limit (n / 10))) [
      | inl over ↦ rw z (
          scan-fill_digits_over limit i (n / 10) ((b'0' + n % 10) ∷ out)
            (ltb→lt limit (n / 10) over) less)
      | inr within ↦
          rw (z, scan-fill_digits limit i (n / 10) ((b'0' + n % 10) ∷ out) (ltb→le _ _ within) less)
            (scan_digit_over limit n out h)
    ]

scan-decimal_over : (limit n : ℕ) → limit < n → n ≤ max_u64 → scan limit (decimal n) 0 ≡ none
unfolding decimal
scan-decimal_over limit n h lt =
    let z : (n == 0) ≡ false = ground arith in
    rw z (scan-fill_digits_over limit 20 n [] h (omega arith))

parse_uint-scan :
    (limit d : ℕ) (s : Text) → d ≢ b'+' → parse_uint limit (d ∷ s) ≡ scan limit (d ∷ s) 0
unfolding parse_uint parse_digits
parse_uint-scan limit d s h = ground arith

parse_uint-decimal :
    (limit n : ℕ)
    → n ≤ max_u64
    → parse_uint limit (decimal n) ≡ (if leb n limit then some n else none)
parse_uint-decimal limit n h =
    let (d, s, e, plus) = decimal_head n in
    rw (e, parse_uint-scan limit d s (omega arith), ← e)
      (elim (Bool-cases (leb n limit)) [
        | inl within ↦ rw (within, scan-decimal limit n (leb→le n limit within) h)
        | inr over ↦ rw (over, scan-decimal_over limit n (ground arith) h)
      ])

-- A number printed in decimal into a variable is read back as the value of its field if the field's
-- type holds it, and is passed over otherwise. The number is at most the largest u64.
pub set_uint-decimal :
    (limit n old : ℕ)
    → n ≤ max_u64
    → set_uint limit (some (decimal n)) old ≡ (if leb n limit then n else old)
unfolding set_uint
set_uint-decimal limit n old h = ground (arith, parse_uint-decimal limit n h)

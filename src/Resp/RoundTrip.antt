-- ===== src/Resp/RoundTrip.antt =====
-- The numbers that src/protocol.rs writes, and its parsers on them.
use native.Mathlib.Nat.{pow-suc}
use mathlib.Core.List.{cons-ne-nil}
use redistill.Base.{
  ℕ, zero, suc, ◌+◌, ◌-◌, ◌/◌, ◌%◌, ◌^◌, ◌≤◌, ◌<◌, ◌≡◌, ◌≢◌, refl, Bool, true, false, none, some,
  [], ◌∷◌, arith, ◌==◌, inl, inr, Bytes, Bool-cases,
}
use redistill.Base.Int.{ℤ, pos, negsuc, ◌≤ℤ◌}
use redistill.Resp.Decimal.{
  max_u64, max_i64, is_ascii_digit, fill_digits, decimal, to_string, scan, parse_u64, with_sign,
  scan_from, parse_i64,
}

pub div-lt-pow : (n i : ℕ) → n < 10 ^ suc i → n / 10 < 10 ^ i
div-lt-pow n i h = omega (arith, pow-suc 10 i)

scan_digit :
    (limit n : ℕ) (out : Bytes)
    → n ≤ limit
    → scan limit ((b'0' + n % 10) ∷ out) (n / 10) ≡ scan limit out n
unfolding scan is_ascii_digit
scan_digit limit n out h = ground arith

pub scan-fill_digits :
    (limit i n : ℕ) (out : Bytes)
    → n ≤ limit
    → n < 10 ^ i
    → scan limit (fill_digits i n out) 0 ≡ scan limit out n
unfolding fill_digits
scan-fill_digits limit zero n out h lt = let e : n ≡ 0 = omega arith in rw e
scan-fill_digits limit (suc i) n out h lt = ground (
  arith,
  scan_digit limit n out h,
  div-lt-pow n i lt,
  scan-fill_digits limit i (n / 10) ((b'0' + n % 10) ∷ out),
)

pub scan-decimal : (limit n : ℕ) → n ≤ limit → n ≤ max_u64 → scan limit (decimal n) 0 ≡ some n
unfolding decimal
scan-decimal limit n h lt = elim (Bool-cases (n == 0)) [
  | inl z ↦ rw z (let e : n ≡ 0 = ground arith in unfold scan is_ascii_digit in ground arith)
  | inr p ↦ rw p (unfold scan in scan-fill_digits limit 20 n [] h (omega arith))
]

fill_digits-ne-nil : (i n : ℕ) (out : Bytes) → out ≢ [] → fill_digits i n out ≢ []
unfolding fill_digits
fill_digits-ne-nil zero n out h = h
fill_digits-ne-nil (suc i) n out h =
    ground (arith, fill_digits-ne-nil i (n / 10) ((b'0' + n % 10) ∷ out) (cons-ne-nil _ _))

pub decimal-ne-nil : (n : ℕ) → decimal n ≢ []
unfolding decimal fill_digits
decimal-ne-nil n =
    ground (arith, fill_digits-ne-nil 19 (n / 10) ((b'0' + n % 10) ∷ []) (cons-ne-nil _ _))

parse_u64-scan : (s : Bytes) → s ≢ [] → parse_u64 s ≡ scan max_u64 s 0
unfolding parse_u64
parse_u64-scan [] h = absurd (h refl)
parse_u64-scan (b ∷ s) h = refl

-- Every u64 is read back from its decimal print.
pub parse_u64-decimal : (n : ℕ) → n ≤ max_u64 → parse_u64 (decimal n) ≡ some n
parse_u64-decimal n h =
    rw (parse_u64-scan (decimal n) (decimal-ne-nil n)) (scan-decimal max_u64 n h h)

-- The first byte of a decimal print is a digit, so no sign.
fill_digits_head :
    (i n : ℕ) (c : ℕ) (out : Bytes)
    → b'0' ≤ c
    → (d : ℕ) × (s : Bytes) × (fill_digits i n (c ∷ out) ≡ d ∷ s) × (b'0' ≤ d)
unfolding fill_digits
fill_digits_head zero n c out h = (c, out, refl, h)
fill_digits_head (suc i) n c out h = elim (Bool-cases (n == 0)) [
  | inl z ↦ (c, out, rw z, h)
  | inr p ↦ rw p (fill_digits_head i (n / 10) (b'0' + n % 10) (c ∷ out) (omega arith))
]

pub decimal_head : (n : ℕ) → (d : ℕ) × (s : Bytes) × (decimal n ≡ d ∷ s) × (b'0' ≤ d)
unfolding decimal fill_digits
decimal_head n = elim (Bool-cases (n == 0)) [
  | inl z ↦ (b'0', [], rw z, omega arith)
  | inr p ↦ rw p (fill_digits_head 19 (n / 10) (b'0' + n % 10) [] (omega arith))
]

scan_from-scan :
    (negative : Bool) (s : Bytes)
    → s ≢ []
    → scan_from negative s ≡ with_sign negative (scan max_i64 s 0)
unfolding scan_from
scan_from-scan negative [] h = absurd (h refl)
scan_from-scan negative (b ∷ s) h = refl

parse_i64-scan_from : (d : ℕ) (s : Bytes) → d ≢ b'-' → parse_i64 (d ∷ s) ≡ scan_from false (d ∷ s)
unfolding parse_i64
parse_i64-scan_from d s h = ground arith

parse_i64-minus : (s : Bytes) → parse_i64 (b'-' ∷ s) ≡ scan_from true s
unfolding parse_i64
parse_i64-minus s = refl

-- Every i64 but the least one is read back from its print.
pub parse_i64-to_string :
    (i : ℤ) → negsuc (max_i64 - 1) ≤ℤ i → i ≤ℤ pos max_i64 → parse_i64 (to_string i) ≡ some i
unfolding to_string with_sign
parse_i64-to_string (pos n) lo hi =
    let (d, s, e, h) = decimal_head n in
    rw
      (
        e,
        parse_i64-scan_from d s (omega arith),
        ← e,
        scan_from-scan false (decimal n) (decimal-ne-nil n),
      )
      (rw (scan-decimal max_i64 n (omega arith) (omega arith)))
parse_i64-to_string (negsuc n) lo hi =
    rw (parse_i64-minus, scan_from-scan true (decimal (suc n)) (decimal-ne-nil (suc n)))
      (rw (scan-decimal max_i64 (suc n) (omega arith) (omega arith)) (ground arith))

-- The least i64 is printed, and is not read back: its digits pass the largest i64.
parse_i64_least : parse_i64 (to_string (negsuc max_i64)) ≡ none
unfolding parse_i64 to_string decimal fill_digits scan_from with_sign scan is_ascii_digit
parse_i64_least = refl

-- ===== src/Aof/RoundTrip.antt =====
-- `next_command` of src/aof.rs on the records that `append` wrote.
use mathlib.Core.Path.{subst}
use mathlib.Core.List.{cons-ne-nil}
use redistill.Base.{
  ℕ, zero, suc, ◌+◌, ◌/◌, ◌%◌, ◌≤◌, ◌≡◌, refl, ◌∙◌, ◌≢◌, inl, inr, false, some, List, [], ◌∷◌, ◌++◌,
  append_assoc, append-nil, arith, ◌==◌, Bytes, codes, beq, length, drop, All, length-append,
  take-append, Bool-cases, le→ltb, ◌*◌,
}
use redistill.Resp.Decimal.{max_u64, fill_digits, decimal}
use redistill.Resp.RoundTrip.{parse_u64-decimal, decimal_head}
use redistill.Resp.Writer.{crlf, write_array}
use redistill.Resp.Frames.{bulk, bulks, write_array-bulks}
use redistill.Aof.Reader.{
  ok, read_until, strip_crlf, parse_num, header_num, read_exact, read_part, read_parts,
  read_command, next_command, read_content, read_end, check_end, allocate, max_isize, bytes_size,
  read_all_parts,
}

fill_digits-digits :
    (i n : ℕ) (out : Bytes) → All (λ c. b'0' ≤ c) out → All (λ c. b'0' ≤ c) (fill_digits i n out)
unfolding fill_digits
fill_digits-digits zero n out h = h
fill_digits-digits (suc i) n out h = elim (Bool-cases (n == 0)) [
  | inl z ↦ rw z h
  | inr p ↦ rw p (fill_digits-digits i (n / 10) ((b'0' + n % 10) ∷ out) (omega arith, h))
]

decimal-digits : (n : ℕ) → All (λ c. b'0' ≤ c) (decimal n)
unfolding decimal
decimal-digits n = elim (Bool-cases (n == 0)) [
  | inl z ↦ rw z (omega arith, tt)
  | inr p ↦ rw p (fill_digits-digits 20 n [] tt)
]

read_until_lem :
    (s rest : Bytes) → All (λ c. b'0' ≤ c) s → read_until (s ++ (crlf ++ rest)) ≡ (s ++ crlf, rest)
unfolding read_until
read_until_lem [] rest h = refl
read_until_lem (b ∷ s) rest (hb, h) = rw (read_until_lem s rest h) (ground arith)

longer_than_crlf : (b c : ℕ) (s : Bytes) → beq (b ∷ c ∷ (s ++ crlf)) (codes "\r\n") ≡ false
unfolding beq
longer_than_crlf b c [] = ground arith
longer_than_crlf b c (d ∷ s) = ground arith

strip_crlf-append : (s : Bytes) → strip_crlf (s ++ crlf) ≡ some s
unfolding strip_crlf beq
strip_crlf-append [] = refl
strip_crlf-append (b ∷ []) = ground arith
strip_crlf-append (b ∷ c ∷ s) = rw (longer_than_crlf b c s, strip_crlf-append (c ∷ s))

parse_num-decimal : (n : ℕ) → n ≤ max_u64 → parse_num (decimal n) ≡ ok n
unfolding parse_num
parse_num-decimal n h =
    let (d, s, e, _) = decimal_head n in
    let digits : All (λ c. b'0' ≤ c) (d ∷ s) =
      subst (λ l. All (λ c. b'0' ≤ c) l) e (decimal-digits n) in
    let p : (d == b'+') ≡ false = ground (arith, digits.0) in
    rw (e, p, ← e) (rw (parse_u64-decimal n h))

-- A header line, for a mark that is no newline.
header_num-decimal :
    (mark n : ℕ) → n ≤ max_u64 → header_num mark (strip_crlf (mark ∷ (decimal n ++ crlf))) ≡ ok n
unfolding header_num
header_num-decimal mark n h =
    rw (strip_crlf-append (mark ∷ decimal n), parse_num-decimal n h) (ground arith)

read_until-header :
    (mark n : ℕ) (rest : Bytes)
    → mark ≢ b'\n'
    → read_until (mark ∷ (decimal n ++ (crlf ++ rest))) ≡ (mark ∷ (decimal n ++ crlf), rest)
unfolding read_until
read_until-header mark n rest h =
    let p : (mark == b'\n') ≡ false = ground arith in
    rw (read_until_lem (decimal n) rest (decimal-digits n), p)

drop-append_self : (xs ys : Bytes) → drop (length xs) (xs ++ ys) ≡ ys
drop-append_self [] ys = refl
drop-append_self (x ∷ xs) ys = drop-append_self xs ys

read_exact-append : (s rest : Bytes) → read_exact (length s) (s ++ rest) ≡ ok (s, rest)
unfolding read_exact
read_exact-append s rest =
    let d : drop (length s) (s ++ rest) ≡ rest = drop-append_self s rest in
    rw (
      le→ltb (length (s ++ rest)) (length s) (omega (arith, length-append s rest)),
      take-append s rest,
      d,
    )

allocate_ok : (size : ℕ) → size ≤ max_isize → allocate size ≡ ok tt
unfolding allocate
allocate_ok size h = rw (le→ltb max_isize size h)

read_part-bulk : (s rest : Bytes) → length s ≤ max_isize → read_part (bulk s ++ rest) ≡ ok (s, rest)
unfolding read_part read_content read_end check_end beq
read_part-bulk s rest h =
    rw (append_assoc (decimal (length s)) (crlf ++ (s ++ crlf)) rest, append_assoc s crlf rest)
      (rw
        (
          read_until-header b'$' (length s) (s ++ (crlf ++ rest)) (omega arith),
          header_num-decimal b'$' (length s) (omega arith),
          allocate_ok (length s) h,
          read_exact-append s (crlf ++ rest),
        )
        (rw (read_exact-append crlf rest)))

read_parts-bulks :
    (items done : List Bytes) (rest : Bytes)
    → All (λ s. length s ≤ max_isize) items
    → read_parts (length items) (bulks items ++ rest) done ≡ ok (done ++ items, rest)
unfolding read_parts
read_parts-bulks [] done rest h = rw append-nil
read_parts-bulks (s ∷ items) done rest (hs, h) =
    rw (append_assoc (bulk s) (bulks items) rest, read_part-bulk s (bulks items ++ rest) hs)
      (read_parts-bulks items (done ++ s ∷ []) rest h ∙ rw append_assoc)

-- A command whose parts are of a size that a `Vec` can have, as those of any command in memory.
pub record FitsVec (cmd : List Bytes) : Type 0 where
  pub count : length cmd * bytes_size ≤ max_isize
  pub sizes : All (λ s. length s ≤ max_isize) cmd

pub read_command-write_array :
    (cmd : List Bytes) (rest : Bytes)
    → FitsVec cmd
    → read_command (write_array [] cmd ++ rest) ≡ ok (cmd, rest)
unfolding read_command read_all_parts
read_command-write_array cmd rest fits = rw (write_array-bulks [] cmd) (
    rw (append_assoc (decimal (length cmd)) (crlf ++ bulks cmd) rest) (
      rw (
        read_until-header b'*' (length cmd) (bulks cmd ++ rest) (omega arith),
        header_num-decimal b'*' (length cmd) (omega (arith, fits.count)),
        allocate_ok (length cmd * bytes_size) fits.count,
        read_parts-bulks cmd [] rest fits.sizes,
      )))

next_command-read_command :
    (s : Bytes) (frame : List Bytes × Bytes)
    → s ≢ []
    → read_command s ≡ ok frame
    → next_command s ≡ ok (some frame)
unfolding next_command
next_command-read_command [] frame ne h = absurd (ne refl)
next_command-read_command (b ∷ s) frame ne h = rw h

pub write_array-ne-nil : (cmd : List Bytes) (rest : Bytes) → write_array [] cmd ++ rest ≢ []
write_array-ne-nil cmd rest = rw (write_array-bulks [] cmd) (cons-ne-nil _ _)

-- A record of the log is read back whole, and the bytes behind it stay in the file. The parts of
-- the command have sizes that a Vec can have.
pub next_command-write_array :
    (cmd : List Bytes) (rest : Bytes)
    → FitsVec cmd
    → next_command (write_array [] cmd ++ rest) ≡ ok (some (cmd, rest))
next_command-write_array cmd rest fits =
    next_command-read_command (write_array [] cmd ++ rest) (cmd, rest) (write_array-ne-nil cmd rest)
      (read_command-write_array cmd rest fits)

-- ===== src/Resp/Frames.antt =====
-- `try_parse` of src/protocol.rs on the frames that `write_array` writes.
use redistill.Base.{
  ℕ, zero, suc, ◌+◌, ◌/◌, ◌%◌, ◌^◌, ◌≤◌, ◌<◌, ◌≡◌, refl, sym, ◌∙◌, List, [], ◌∷◌, ◌++◌,
  append_assoc, append-nil, arith, le→ltb, ◌==◌, inl, inr, Bytes, length, drop, All, length-append,
  take-append, Bool-cases,
}
use redistill.Resp.Decimal.{is_ascii_digit, fill_digits, decimal, write_u64, max_u64}
use redistill.Resp.RoundTrip.{div-lt-pow, decimal-ne-nil}
use redistill.Resp.Writer.{crlf, write_bulk_string, write_bulks, write_array}
use redistill.Resp.Parser.{
  max_array_len, max_string_len, frame, read_len, skip_crlf, take_bulk, read_bulk, read_items,
  read_array, try_parse,
}

read_len_digit :
    (limit n : ℕ) (out : Bytes)
    → n ≤ limit
    → read_len limit ((b'0' + n % 10) ∷ out) (n / 10) ≡ read_len limit out n
unfolding read_len is_ascii_digit
read_len_digit limit n out h = ground arith

read_len-fill_digits :
    (limit i n : ℕ) (out rest : Bytes)
    → n ≤ limit
    → n < 10 ^ i
    → read_len limit (fill_digits i n out ++ rest) 0 ≡ read_len limit (out ++ rest) n
unfolding fill_digits
read_len-fill_digits limit zero n out rest h lt = let e : n ≡ 0 = omega arith in rw e
read_len-fill_digits limit (suc i) n out rest h lt = ground (
  arith,
  read_len_digit limit n (out ++ rest) h,
  div-lt-pow n i lt,
  read_len-fill_digits limit i (n / 10) ((b'0' + n % 10) ∷ out) rest,
)

read_len-decimal :
    (limit n : ℕ) (rest : Bytes)
    → n ≤ limit
    → n ≤ max_u64
    → read_len limit (decimal n ++ (crlf ++ rest)) 0 ≡ frame (n, crlf ++ rest)
unfolding decimal
read_len-decimal limit n rest h lt = elim (Bool-cases (n == 0)) [
  | inl z ↦ rw z (let e : n ≡ 0 = ground arith in unfold read_len is_ascii_digit in ground arith)
  | inr p ↦
      rw p (
        read_len-fill_digits limit 20 n [] (crlf ++ rest) h (omega arith) ∙ unfold read_len in refl)
]

-- What one bulk string reads as on the wire.
abbrev pub bulk : Bytes → Bytes
bulk s = b'$' ∷ (decimal (length s) ++ (crlf ++ (s ++ crlf)))

-- What the items of an array read as.
abbrev pub bulks : List Bytes → Bytes
bulks [] = []
bulks (s ∷ items) = bulk s ++ bulks items

write_bulk_string-bulk : (buffer s : Bytes) → write_bulk_string buffer s ≡ buffer ++ bulk s
unfolding write_bulk_string write_u64
write_bulk_string-bulk buffer s = simp append_assoc

write_bulks-bulks :
    (buffer : Bytes) (items : List Bytes) → write_bulks buffer items ≡ buffer ++ bulks items
unfolding write_bulks
write_bulks-bulks buffer [] = sym (append-nil buffer)
write_bulks-bulks buffer (s ∷ items) =
    rw (write_bulks-bulks (write_bulk_string buffer s) items, write_bulk_string-bulk buffer s)
      (append_assoc buffer (bulk s) (bulks items))

pub write_array-bulks :
    (buffer : Bytes) (items : List Bytes)
    → write_array buffer items ≡ buffer ++ b'*' ∷ (decimal (length items) ++ (crlf ++ bulks items))
unfolding write_array write_u64
write_array-bulks buffer items = rw write_bulks-bulks (simp append_assoc)

pub drop-append : (n : ℕ) (xs ys : Bytes) → drop (length xs + n) (xs ++ ys) ≡ drop n ys
drop-append n [] ys = let e : 0 + n ≡ n = omega arith in rw e
drop-append n (x ∷ xs) ys =
    let e : suc (length xs) + n ≡ suc (length xs + n) = omega arith in rw e (drop-append n xs ys)

take_bulk_lem : (s rest : Bytes) → take_bulk (length s) (s ++ (crlf ++ rest)) ≡ frame (s, rest)
unfolding take_bulk
take_bulk_lem s rest = rw (
  le→ltb (length (s ++ (crlf ++ rest))) (length s + 2)
      (omega (arith, length-append s (crlf ++ rest))),
  take-append s (crlf ++ rest),
  drop-append 2 s (crlf ++ rest),
)

pub read_bulk-bulk :
    (s rest : Bytes) → length s ≤ max_string_len → read_bulk (bulk s ++ rest) ≡ frame (s, rest)
unfolding read_bulk skip_crlf
read_bulk-bulk s rest h =
    rw
      (
        append_assoc (decimal (length s)) (crlf ++ (s ++ crlf)) rest,
        append_assoc s crlf rest,
        read_len-decimal max_string_len (length s) (s ++ (crlf ++ rest)) h (omega arith),
      )
      (take_bulk_lem s rest)

read_items-bulks :
    (items done : List Bytes) (rest : Bytes)
    → All (λ s. length s ≤ max_string_len) items
    → read_items (length items) (bulks items ++ rest) done ≡ frame (done ++ items, rest)
unfolding read_items
read_items-bulks [] done rest h = rw append-nil
read_items-bulks (s ∷ items) done rest (hs, h) =
    rw (append_assoc (bulk s) (bulks items) rest, read_bulk-bulk s (bulks items ++ rest) hs)
      (read_items-bulks items (done ++ s ∷ []) rest h ∙ rw append_assoc)

-- A command that the parser's limits admit.
pub record Fits (cmd : List Bytes) : Type 0 where
  pub count : length cmd ≤ max_array_len
  pub sizes : All (λ s. length s ≤ max_string_len) cmd

read_array-write_array :
    (cmd : List Bytes) (rest : Bytes)
    → Fits cmd
    → read_array (write_array [] cmd ++ rest) ≡ frame (cmd, rest)
unfolding read_array skip_crlf
read_array-write_array cmd rest fits = rw (write_array-bulks [] cmd) (
    rw
      (
        append_assoc (decimal (length cmd)) (crlf ++ bulks cmd) rest,
        read_len-decimal max_array_len (length cmd) (bulks cmd ++ rest) fits.count (omega arith),
      )
      (read_items-bulks cmd [] rest fits.sizes))

length-decimal : (n : ℕ) → 0 < length (decimal n)
length-decimal n = ground (arith, decimal-ne-nil n)

length-write_array : (cmd : List Bytes) → 4 ≤ length (write_array [] cmd)
length-write_array cmd = rw (write_array-bulks [] cmd) (
    omega (
      arith,
      length-append (decimal (length cmd)) (crlf ++ bulks cmd),
      length-decimal (length cmd),
    ))

-- A frame that write_array wrote is parsed back whole, and the bytes behind it stay in the buffer.
-- The command has at most a million items, each of at most 512,000,000 bytes.
pub try_parse-write_array :
    (cmd : List Bytes) (rest : Bytes)
    → Fits cmd
    → try_parse (write_array [] cmd ++ rest) ≡ frame (cmd, rest)
unfolding try_parse
try_parse-write_array cmd rest fits =
    rw
      (le→ltb (length (write_array [] cmd ++ rest)) 4
        (omega (arith, length-append (write_array [] cmd) rest, length-write_array cmd)))
      (read_array-write_array cmd rest fits)

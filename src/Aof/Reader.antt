-- ===== src/Aof/Reader.antt =====
-- `CommandReader` of src/aof.rs: the records of a log, read back at startup. The reader is what is
-- left of the file.
use mathlib.Core.Option.{map}
use redistill.Base.{
  ℕ, zero, suc, ◌-◌, ◌*◌, ◌^◌, Option, none, some, List, [], ◌∷◌, ◌++◌, ltb, ◌==◌, if◌then◌else◌,
  Bytes, codes, beq, length, take, drop,
}
use redistill.Resp.Decimal.{parse_u64}

-- The kinds of error that `next_command` makes, and the panic of a `Vec` whose capacity overflows,
-- which ends the process.
pub data ErrorKind : Type 0 where
  invalid_data : ErrorKind
  unexpected_eof : ErrorKind
  capacity_overflow : ErrorKind

-- `io::Result`
pub data Result {ℓ} (A : Type ℓ) : Type ℓ where
  ok : A → Result A
  err : ErrorKind → Result A

infixl 5 ◌>>=◌
abbrev pub ◌>>=◌ {ℓ κ} : {A : Type ℓ} {B : Type κ} → Result A → (A → Result B) → Result B
ok a >>= f = f a
err e >>= f = err e

-- `read_until(b'\n', &mut line)`: the line with its newline, or all that is left.
unfoldable pub read_until : Bytes → Bytes × Bytes
read_until [] = ([], [])
read_until (b ∷ s) =
    let (line, rest) = read_until s in if b == b'\n' then (b ∷ [], s) else (b ∷ line, rest)

-- `line[..line.len() - 2]`, if `line.ends_with(b"\r\n")`.
unfoldable pub strip_crlf : Bytes → Option Bytes
strip_crlf [] = none
strip_crlf (b ∷ s) =
    let rest = strip_crlf s in if beq (b ∷ s) (codes "\r\n") then some [] else map (◌∷◌ b) rest

-- `map_err`
abbrev pub or_invalid {ℓ} : {A : Type ℓ} → Option A → Result A
or_invalid none = err invalid_data
or_invalid (some a) = ok a

-- The standard library's `parse` of a usize takes a plus sign too.
unfoldable pub parse_num : Bytes → Result ℕ
parse_num [] = err invalid_data
parse_num (b ∷ s) = or_invalid (if b == b'+' then parse_u64 s else parse_u64 (b ∷ s))

-- The number behind the mark of a header line, which has to end in CRLF: the tests of `line`, then
-- `parse_num(&line[1..line.len() - 2])`.
unfoldable pub header_num : ℕ → Option Bytes → Result ℕ
header_num mark none = err invalid_data
header_num mark (some []) = err invalid_data
header_num mark (some (b ∷ s)) = if b == mark then parse_num s else err invalid_data

-- `read_exact` into a buffer of `n` bytes.
unfoldable pub read_exact : ℕ → Bytes → Result (Bytes × Bytes)
read_exact n s = if ltb (length s) n then err unexpected_eof else ok (take n s, drop n s)

unfoldable pub check_end : Bytes → Bytes × Bytes → Result (Bytes × Bytes)
check_end buf (end, s) = if beq end (codes "\r\n") then ok (buf, s) else err invalid_data

unfoldable pub read_end : Bytes × Bytes → Result (Bytes × Bytes)
read_end (buf, s) = read_exact 2 s >>= check_end buf

-- The most bytes that a `Vec` takes, `isize::MAX`.
abbrev pub max_isize : ℕ
max_isize = 2 ^ 63 - 1

-- The size of one `Bytes`: four words.
abbrev pub bytes_size : ℕ
bytes_size = 32

-- `Vec::with_capacity` and `vec!` of so many bytes in all.
unfoldable pub allocate : ℕ → Result (Unit {0})
allocate size = if ltb max_isize size then err capacity_overflow else ok tt

unfoldable pub read_content : ℕ → Bytes → Result (Bytes × Bytes)
read_content blen s = allocate blen >>= λ buf. read_exact blen s >>= read_end

-- One round of the loop over the parts.
unfoldable pub read_part : Bytes → Result (Bytes × Bytes)
read_part [] = err unexpected_eof
read_part (b ∷ s) = do
  blen ← header_num b'$' (strip_crlf (read_until (b ∷ s)).0)
  read_content blen (read_until (b ∷ s)).1

unfoldable pub read_parts : ℕ → Bytes → List Bytes → Result (List Bytes × Bytes)
read_parts zero s parts = ok (parts, s)
read_parts (suc count) s parts = do
  (part, s1) ← read_part s
  read_parts count s1 (parts ++ part ∷ [])

-- `Vec::with_capacity(count)`, then the loop.
unfoldable pub read_all_parts : ℕ → Bytes → Result (List Bytes × Bytes)
read_all_parts count s = allocate (count * bytes_size) >>= λ parts. read_parts count s []

-- Behind the test for the end of the file: the command with what is left of the file.
unfoldable pub read_command : Bytes → Result (List Bytes × Bytes)
read_command s = do
  count ← header_num b'*' (strip_crlf (read_until s).0)
  read_all_parts count (read_until s).1

unfoldable pub next_command : Bytes → Result (Option (List Bytes × Bytes))
next_command [] = ok none
next_command (b ∷ s) = do frame ← read_command (b ∷ s); ok (some frame)

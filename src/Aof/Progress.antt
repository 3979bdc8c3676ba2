-- ===== src/Aof/Progress.antt =====
-- `next_command` of src/aof.rs takes bytes off the file with each command, so that a replay ends.
use redistill.Base.{
  ℕ, zero, suc, ◌*◌, ◌≤◌, ◌<◌, inl, inr, Option, none, some, List, [], ◌∷◌, ◌++◌, arith, ltb, Bytes,
  codes, beq, length, drop, Bool-cases,
}
use redistill.Aof.Reader.{
  Result, ok, err, ◌>>=◌, read_until, strip_crlf, header_num, read_exact, check_end, read_end,
  read_content, read_part, read_parts, read_command, next_command, allocate, max_isize, bytes_size,
  read_all_parts,
}

-- At most so much of the file is left.
abbrev LeavesAtMost {ℓ} : {A : Type ℓ} → ℕ → Result (A × Bytes) → Type 0
LeavesAtMost n (ok (a, s)) = length s ≤ n
LeavesAtMost n (err e) = Unit

LeavesAtMost-mono :
    {A : Type 0} (m n : ℕ) (r : Result (A × Bytes)) → m ≤ n → LeavesAtMost m r → LeavesAtMost n r
LeavesAtMost-mono m n (ok (a, s)) h l = omega arith
LeavesAtMost-mono m n (err e) h l = tt

module _ {A B : Type 0} (f : A × Bytes → Result (B × Bytes)) where
  bind-LeavesAtMost :
      (n : ℕ) (r : Result (A × Bytes))
      → LeavesAtMost n r
      → ((a : A) (s : Bytes) → length s ≤ n → LeavesAtMost n (f (a, s)))
      → LeavesAtMost n (r >>= f)
  bind-LeavesAtMost n (ok (a, s)) h g = g a s h
  bind-LeavesAtMost n (err e) h g = tt

num-LeavesAtMost :
    {B : Type 0} (m : ℕ) (f : ℕ → Result (B × Bytes)) (r : Result ℕ)
    → ((n : ℕ) → LeavesAtMost m (f n))
    → LeavesAtMost m (r >>= f)
num-LeavesAtMost m f (ok n) g = g n
num-LeavesAtMost m f (err e) g = tt

length-drop : (n : ℕ) (s : Bytes) → length (drop n s) ≤ length s
length-drop zero s = omega arith
length-drop (suc n) [] = omega arith
length-drop (suc n) (b ∷ s) = omega (arith, length-drop n s)

length-read_until : (b : ℕ) (s : Bytes) → length (read_until (b ∷ s)).1 ≤ length s
unfolding read_until
length-read_until b [] = ground arith
length-read_until b (c ∷ s) = ground (arith, length-read_until c s)

read_exact-LeavesAtMost : (n : ℕ) (s : Bytes) → LeavesAtMost (length s) (read_exact n s)
unfolding read_exact
read_exact-LeavesAtMost n s = elim (Bool-cases (ltb (length s) n)) [
  | inl e ↦ rw e tt
  | inr p ↦ rw p (length-drop n s)
]

check_end-LeavesAtMost : (buf end s : Bytes) → LeavesAtMost (length s) (check_end buf (end, s))
unfolding check_end
check_end-LeavesAtMost buf end s = elim (Bool-cases (beq end (codes "\r\n"))) [
  | inl e ↦ rw e (omega arith)
  | inr p ↦ rw p tt
]

read_end-LeavesAtMost : (buf s : Bytes) → LeavesAtMost (length s) (read_end (buf, s))
unfolding read_end
read_end-LeavesAtMost buf s =
    bind-LeavesAtMost (check_end buf) (length s) (read_exact 2 s) (read_exact-LeavesAtMost 2 s)
      (λ end s1 h. LeavesAtMost-mono _ _ _ h (check_end-LeavesAtMost buf end s1))

read_content-LeavesAtMost : (n : ℕ) (s : Bytes) → LeavesAtMost (length s) (read_content n s)
unfolding read_content allocate
read_content-LeavesAtMost n s = elim (Bool-cases (ltb max_isize n)) [
  | inl over ↦ rw over tt
  | inr p ↦ rw p (
      bind-LeavesAtMost read_end (length s) (read_exact n s) (read_exact-LeavesAtMost n s)
        (λ buf s1 h. LeavesAtMost-mono _ _ _ h (read_end-LeavesAtMost buf s1)))
]

read_part-LeavesAtMost : (s : Bytes) → LeavesAtMost (length s) (read_part s)
unfolding read_part
read_part-LeavesAtMost [] = tt
read_part-LeavesAtMost (b ∷ s) =
    num-LeavesAtMost _ _ (header_num b'$' (strip_crlf (read_until (b ∷ s)).0)) (λ n.
      LeavesAtMost-mono (length (read_until (b ∷ s)).1) _ _ (omega (arith, length-read_until b s))
        (read_content-LeavesAtMost n (read_until (b ∷ s)).1))

read_parts-LeavesAtMost :
    (count : ℕ) (s : Bytes) (parts : List Bytes)
    → LeavesAtMost (length s) (read_parts count s parts)
unfolding read_parts
read_parts-LeavesAtMost zero s parts = omega arith
read_parts-LeavesAtMost (suc count) s parts =
    bind-LeavesAtMost (λ r. read_parts count r.1 (parts ++ r.0 ∷ [])) (length s) (read_part s)
      (read_part-LeavesAtMost s)
      (λ part s1 h.
        LeavesAtMost-mono _ _ _ h (read_parts-LeavesAtMost count s1 (parts ++ part ∷ [])))

read_all_parts-LeavesAtMost :
    (count : ℕ) (s : Bytes) → LeavesAtMost (length s) (read_all_parts count s)
unfolding read_all_parts allocate
read_all_parts-LeavesAtMost count s = elim (Bool-cases (ltb max_isize (count * bytes_size))) [
  | inl over ↦ rw over tt
  | inr p ↦ rw p (read_parts-LeavesAtMost count s [])
]

read_command-LeavesAtMost : (b : ℕ) (s : Bytes) → LeavesAtMost (length s) (read_command (b ∷ s))
unfolding read_command
read_command-LeavesAtMost b s =
    num-LeavesAtMost _ _ (header_num b'*' (strip_crlf (read_until (b ∷ s)).0)) (λ n.
      LeavesAtMost-mono _ _ _ (length-read_until b s)
        (read_all_parts-LeavesAtMost n (read_until (b ∷ s)).1))

-- What is left behind a command is shorter than the file was.
abbrev pub LeavesLess : ℕ → Result (Option (List Bytes × Bytes)) → Type 0
LeavesLess n (ok none) = Unit
LeavesLess n (ok (some (cmd, rest))) = length rest < n
LeavesLess n (err e) = Unit

some-LeavesLess :
    (n : ℕ) (r : Result (List Bytes × Bytes))
    → LeavesAtMost n r
    → LeavesLess (suc n) (r >>= (λ frame. ok (some frame)))
some-LeavesLess n (ok (cmd, rest)) h = omega arith
some-LeavesLess n (err e) h = tt

pub next_command-LeavesLess : (s : Bytes) → LeavesLess (length s) (next_command s)
unfolding next_command
next_command-LeavesLess [] = tt
next_command-LeavesLess (b ∷ s) =
    some-LeavesLess (length s) (read_command (b ∷ s)) (read_command-LeavesAtMost b s)

-- ===== src/Aof/Cut.antt =====
-- `next_command` of src/aof.rs on a file that goes on, and on one that was cut off.
use mathlib.Core.List.{cons-ne-nil}
use mathlib.Core.Path.{subst}
use redistill.Base.{
  ℕ, zero, suc, ◌*◌, ◌≤◌, ◌≡◌, refl, sym, ap, ◌∙◌, ◌≢◌, ◌⊎◌, inl, inr, Bool, true, false, ◌||◌,
  none, List, [], ◌∷◌, ◌++◌, append-nil, arith, ltb, ◌==◌, Bytes, codes, beq, length, length-append,
  Bool-cases, le→ltb, ltb→le, take-append_le, drop-append_le,
}
use redistill.Aof.Reader.{
  Result, ok, err, ◌>>=◌, ErrorKind, invalid_data, unexpected_eof, capacity_overflow, read_until,
  strip_crlf, header_num, read_exact, check_end, read_end, read_content, read_part, read_parts,
  read_command, next_command, allocate, max_isize, bytes_size, read_all_parts,
}
use redistill.Aof.RoundTrip.{FitsVec, read_command-write_array}
use redistill.Resp.Writer.{write_array}

-- What was read is read too with more bytes behind, which then stay; and so is a capacity that
-- overflows.
abbrev Extends {ℓ} : {A : Type ℓ} → Bytes → Result (A × Bytes) → Result (A × Bytes) → Type ℓ
Extends more (ok (a, s)) r = r ≡ ok (a, s ++ more)
Extends more (err capacity_overflow) r = r ≡ err capacity_overflow
Extends more (err e) r = Unit

abbrev left_of : {A : Type 0} → Result (A × Bytes) → Bytes
left_of (ok (a, s)) = s
left_of (err e) = []

module _ {ℓ κ} {A : Type ℓ} {B : Type κ} (f : A × Bytes → Result (B × Bytes)) where
  bind-Extends :
      (more : Bytes) (r t : Result (A × Bytes))
      → Extends more r t
      → ((a : A) (s : Bytes) → Extends more (f (a, s)) (f (a, s ++ more)))
      → Extends more (r >>= f) (t >>= f)
  bind-Extends more (ok (a, s)) t h g = rw h (g a s)
  bind-Extends more (err capacity_overflow) t h g = rw h
  bind-Extends more (err invalid_data) t h g = tt
  bind-Extends more (err unexpected_eof) t h g = tt

read_exact-Extends :
    (n : ℕ) (s more : Bytes) → Extends more (read_exact n s) (read_exact n (s ++ more))
unfolding read_exact
read_exact-Extends n s more = elim (Bool-cases (ltb (length s) n)) [
  | inl short ↦ rw short tt
  | inr p ↦
      let h : n ≤ length s = ltb→le _ _ p in
      rw (
        p,
        le→ltb (length (s ++ more)) n (omega (arith, length-append s more)),
        take-append_le n s more h,
        drop-append_le n s more h,
      )
]

abbrev newline_in : Bytes → Bool
newline_in [] = false
newline_in (b ∷ s) = b == b'\n' || newline_in s

read_until_whole : (s : Bytes) → newline_in s ≡ false → (read_until s).0 ≡ s
unfolding read_until
read_until_whole [] h = refl
read_until_whole (b ∷ s) h = ground (arith, read_until_whole s)

strip_crlf-newline_in : (s : Bytes) → newline_in s ≡ false → strip_crlf s ≡ none
unfolding strip_crlf beq
strip_crlf-newline_in [] h = refl
strip_crlf-newline_in (b ∷ []) h = ground arith
strip_crlf-newline_in (b ∷ c ∷ s) h = ground (arith, strip_crlf-newline_in (c ∷ s))

read_until-append :
    (s more : Bytes)
    → newline_in s ≡ true
    → read_until (s ++ more) ≡ ((read_until s).0, (read_until s).1 ++ more)
unfolding read_until
read_until-append [] more h = absurd (ground arith)
read_until-append (b ∷ s) more h = elim (Bool-cases (b == b'\n')) [
  | inl e ↦ rw e
  | inr p ↦ rw (p, read_until-append s more (ground arith))
]

module _ {ℓ} {B : Type ℓ} (f : ℕ → Bytes → Result (B × Bytes)) where
  num-Extends :
      (more s t : Bytes) (r : Result ℕ)
      → ((n : ℕ) → Extends more (f n s) (f n t))
      → Extends more (r >>= (λ n. f n s)) (r >>= (λ n. f n t))
  num-Extends more s t (ok n) g = g n
  num-Extends more s t (err capacity_overflow) g = refl
  num-Extends more s t (err invalid_data) g = tt
  num-Extends more s t (err unexpected_eof) g = tt

  header-Extends :
      (mark : ℕ) (s more : Bytes)
      → ((n : ℕ) (t : Bytes) → Extends more (f n t) (f n (t ++ more)))
      → Extends more
          (header_num mark (strip_crlf (read_until s).0) >>= (λ n. f n (read_until s).1))
          (header_num mark (strip_crlf (read_until (s ++ more)).0)
            >>= (λ n. f n (read_until (s ++ more)).1))
  unfolding header_num
  header-Extends mark s more g = elim (Bool-cases (newline_in s)) [
    | inr p ↦ rw (read_until_whole s p, strip_crlf-newline_in s p) tt
    | inl p ↦ rw (read_until-append s more p) (
        num-Extends more (read_until s).1 ((read_until s).1 ++ more)
          (header_num mark (strip_crlf (read_until s).0)) (λ n. g n (read_until s).1))
  ]

check_end-Extends :
    (buf end s more : Bytes)
    → Extends more (check_end buf (end, s)) (check_end buf (end, s ++ more))
unfolding check_end
check_end-Extends buf end s more = elim (Bool-cases (beq end (codes "\r\n"))) [
  | inl e ↦ rw e
  | inr p ↦ rw p tt
]

read_end-Extends :
    (buf s more : Bytes) → Extends more (read_end (buf, s)) (read_end (buf, s ++ more))
unfolding read_end
read_end-Extends buf s more =
    bind-Extends (check_end buf) more (read_exact 2 s) (read_exact 2 (s ++ more))
      (read_exact-Extends 2 s more) (λ end s1. check_end-Extends buf end s1 more)

read_content-Extends :
    (n : ℕ) (s more : Bytes) → Extends more (read_content n s) (read_content n (s ++ more))
unfolding read_content allocate
read_content-Extends n s more = elim (Bool-cases (ltb max_isize n)) [
  | inl over ↦ rw over
  | inr p ↦ rw p (
      bind-Extends read_end more (read_exact n s) (read_exact n (s ++ more))
        (read_exact-Extends n s more) (λ buf s1. read_end-Extends buf s1 more))
]

read_part-Extends : (s more : Bytes) → Extends more (read_part s) (read_part (s ++ more))
unfolding read_part
read_part-Extends [] more = tt
read_part-Extends (b ∷ s) more =
    header-Extends read_content b'$' (b ∷ s) more (λ n t. read_content-Extends n t more)

read_parts-Extends :
    (count : ℕ) (s more : Bytes) (parts : List Bytes)
    → Extends more (read_parts count s parts) (read_parts count (s ++ more) parts)
unfolding read_parts
read_parts-Extends zero s more parts = refl
read_parts-Extends (suc count) s more parts =
    bind-Extends (λ r. read_parts count r.1 (parts ++ r.0 ∷ [])) more (read_part s)
      (read_part (s ++ more)) (read_part-Extends s more)
      (λ part s1. read_parts-Extends count s1 more (parts ++ part ∷ []))

read_all_parts-Extends :
    (count : ℕ) (s more : Bytes)
    → Extends more (read_all_parts count s) (read_all_parts count (s ++ more))
unfolding read_all_parts allocate
read_all_parts-Extends count s more = elim (Bool-cases (ltb max_isize (count * bytes_size))) [
  | inl over ↦ rw over
  | inr p ↦ rw p (read_parts-Extends count s more [])
]

read_command-Extends : (s more : Bytes) → Extends more (read_command s) (read_command (s ++ more))
unfolding read_command
read_command-Extends s more =
    header-Extends read_all_parts b'*' s more (λ count t. read_all_parts-Extends count t more)

append-ne-nil : (s q : Bytes) → q ≢ [] → s ++ q ≢ []
append-ne-nil [] q h = h
append-ne-nil (b ∷ s) q h = cons-ne-nil _ _

next_command_err :
    (p : Bytes) (e : ErrorKind) → p ≢ [] → read_command p ≡ err e → next_command p ≡ err e
unfolding next_command
next_command_err [] e ne h = absurd (ne refl)
next_command_err (b ∷ p) e ne h = rw h

ok-ne-err : {A : Type 0} (a : A) {e : ErrorKind} → ok a ≢ err e
ok-ne-err a x = cc

Result-cases {ℓ} :
    {A : Type ℓ} (r : Result A) → ((a : A) × (r ≡ ok a)) ⊎ ((e : ErrorKind) × (r ≡ err e))
Result-cases (ok a) = inl (a, refl)
Result-cases (err e) = inr (e, refl)

no_overflow :
    (q : Bytes) (e : ErrorKind) (r : Result (List Bytes × Bytes)) (frame : List Bytes × Bytes)
    → Extends q (err e) r
    → r ≡ ok frame
    → e ≢ capacity_overflow
no_overflow q capacity_overflow r frame ext same = absurd (ok-ne-err frame (sym same ∙ ext))
no_overflow q invalid_data r frame ext same = λ x. cc
no_overflow q unexpected_eof r frame ext same = λ x. cc

-- A record that was cut off, with bytes on both sides of the cut, is found malformed: no capacity
-- overflows.
pub next_command_cut :
    (cmd : List Bytes) (p q : Bytes)
    → FitsVec cmd
    → p ++ q ≡ write_array [] cmd
    → p ≢ []
    → q ≢ []
    → (e : ErrorKind) × (next_command p ≡ err e) × (e ≢ capacity_overflow)
next_command_cut cmd p q fits whole hp hq = elim (Result-cases (read_command p)) [
  | inr (e, h) ↦
      let ext : Extends q (err e) (read_command (p ++ q)) =
        subst (λ r. Extends q r (read_command (p ++ q))) h (read_command-Extends p q) in
      let same : read_command (p ++ q) ≡ ok (cmd, []) =
        rw (whole, ← append-nil (write_array [] cmd)) (read_command-write_array cmd [] fits) in
      (e, next_command_err p e hp h, no_overflow q e (read_command (p ++ q)) (cmd, []) ext same)
  | inl ((c, s), h) ↦
      let ext : Extends q (ok (c, s)) (read_command (p ++ q)) =
        subst (λ r. Extends q r (read_command (p ++ q))) h (read_command-Extends p q) in
      let same : read_command (p ++ q) ≡ ok (cmd, []) =
        rw (whole, ← append-nil (write_array [] cmd)) (read_command-write_array cmd [] fits) in
      absurd (append-ne-nil s q hq (ap left_of (sym ext ∙ same)))
]

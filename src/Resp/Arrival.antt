-- ===== src/Resp/Arrival.antt =====
-- `try_parse` of src/protocol.rs as more bytes arrive.
use redistill.Resp.Writer.{write_array}
use redistill.Resp.Frames.{Fits, try_parse-write_array}
use redistill.Base.{
  zero, length, append-nil, ℕ, ◌+◌, ◌-◌, ◌*◌, ◌≡◌, refl, ◌⊎◌, [], ◌∷◌, ◌++◌, arith, inl, inr, Bytes,
  List, Bool-cases, suc, ◌≢◌, ltb, ◌==◌, length, ◌≤◌, ltb→le, length-append, le→ltb, take-append_le,
  drop-append_le, sym, ◌∙◌,
}
use redistill.Resp.Parser.{
  Outcome, frame, more, invalid, ◌>>=◌, read_len, read_array, read_bulk, read_items, skip_crlf,
  take_bulk, try_parse, max_array_len, max_string_len,
}

-- The same decision, with `q` behind the bytes that it leaves unread.
abbrev pub extend {ℓ} : {A : Type ℓ} → Bytes → Outcome (A × Bytes) → Outcome (A × Bytes)
extend q (frame (a, s)) = frame (a, s ++ q)
extend q more = more
extend q invalid = invalid

-- Either nothing is decided yet, or the decision stands when `q` arrives.
abbrev Stands {ℓ} : {A : Type ℓ} → Bytes → Outcome (A × Bytes) → Outcome (A × Bytes) → Type ℓ
Stands q now later = (now ≡ more) ⊎ (later ≡ extend q now)

-- A step, and a rest that stands wherever it begins.
Stands-bind {ℓ κ} :
    {A : Type ℓ} {B : Type κ} (q : Bytes) (now later : Outcome (A × Bytes))
    (f : A × Bytes → Outcome (B × Bytes))
    → Stands q now later
    → ((a : A) (s : Bytes) → Stands q (f (a, s)) (f (a, s ++ q)))
    → Stands q (now >>= f) (later >>= f)
Stands-bind q now later f (inl e) k = inl (rw e)
Stands-bind q (frame (a, s)) later f (inr e) k = rw e (k a s)
Stands-bind q more later f (inr e) k = inl refl
Stands-bind q invalid later f (inr e) k = inr (rw e)

read_len-Stands :
    (q : Bytes) (limit : ℕ) (s : Bytes) (len : ℕ)
    → Stands q (read_len limit s len) (read_len limit (s ++ q) len)
unfolding read_len
read_len-Stands q limit [] len = inl refl
read_len-Stands q limit (b ∷ s) len =
    ground (arith, read_len-Stands q limit s (len * 10 + (b - b'0')))

-- Past the carriage return the two bytes may still be missing.
skip_crlf-append :
    (q s : Bytes)
    → (skip_crlf s ≡ more)
      ⊎ ((r : Bytes) × (skip_crlf s ≡ frame r) × (skip_crlf (s ++ q) ≡ frame (r ++ q)))
unfolding skip_crlf
skip_crlf-append q [] = inl refl
skip_crlf-append q (c ∷ []) = inl refl
skip_crlf-append q (c ∷ n ∷ s) = elim (Bool-cases (n == b'\n')) [
  | inl e ↦ inr (s, rw e, rw e)
  | inr e ↦ inl (rw e)
]

skip_crlf-Stands {κ} :
    {B : Type κ} (q s : Bytes) (f : Bytes → Outcome (B × Bytes))
    → ((r : Bytes) → Stands q (f r) (f (r ++ q)))
    → Stands q (skip_crlf s >>= f) (skip_crlf (s ++ q) >>= f)
skip_crlf-Stands q s f k = elim (skip_crlf-append q s) [
  | inl e ↦ inl (rw e)
  | inr (r, e, e') ↦ rw (e, e') (k r)
]

take_bulk-Stands : (q : Bytes) (n : ℕ) (s : Bytes) → Stands q (take_bulk n s) (take_bulk n (s ++ q))
unfolding take_bulk
take_bulk-Stands q n s = elim (Bool-cases (ltb (length s) (n + 2))) [
  | inl e ↦ inl (rw e)
  | inr e ↦
      let h : n + 2 ≤ length s = ltb→le (length s) (n + 2) e in
      let long : n + 2 ≤ length (s ++ q) = omega (arith, length-append s q) in
      inr (
        rw (
          e,
          le→ltb (length (s ++ q)) (n + 2) long,
          take-append_le n s q (omega arith),
          drop-append_le (n + 2) s q h,
        ))
]

read_bulk-Stands : (q s : Bytes) → Stands q (read_bulk s) (read_bulk (s ++ q))
unfolding read_bulk
read_bulk-Stands q [] = inl refl
read_bulk-Stands q (c ∷ s) = elim (Bool-cases (c == b'$')) [
  | inl e ↦ rw e (
      Stands-bind q (read_len max_string_len s 0) (read_len max_string_len (s ++ q) 0) _
        (read_len-Stands q max_string_len s 0) λ n r. skip_crlf-Stands q r _ (take_bulk-Stands q n))
  | inr e ↦ inl (rw e)
]

read_items-Stands :
    (q : Bytes) (n : ℕ) (s : Bytes) (done : List Bytes)
    → Stands q (read_items n s done) (read_items n (s ++ q) done)
unfolding read_items
read_items-Stands q zero s done = inr refl
read_items-Stands q (suc n) s done =
    Stands-bind q (read_bulk s) (read_bulk (s ++ q)) _ (read_bulk-Stands q s)
      λ item r. read_items-Stands q n r (done ++ item ∷ [])

read_array-Stands : (q s : Bytes) → Stands q (read_array s) (read_array (s ++ q))
unfolding read_array
read_array-Stands q [] = inl refl
read_array-Stands q (c ∷ s) = elim (Bool-cases (c == b'*')) [
  | inl e ↦ rw e (
      Stands-bind q (read_len max_array_len s 0) (read_len max_array_len (s ++ q) 0) _
        (read_len-Stands q max_array_len s 0)
        λ n r. skip_crlf-Stands q r _ (λ u. read_items-Stands q n u []))
  | inr e ↦ inr (rw e)
]

-- What try_parse decides, a frame or an error, it decides too with more bytes behind: the same
-- frame, those bytes then left in the buffer, or the error.
pub try_parse-append :
    (buffer q : Bytes)
    → try_parse buffer ≢ more
    → try_parse (buffer ++ q) ≡ extend q (try_parse buffer)
unfolding try_parse
try_parse-append buffer q decided = elim (Bool-cases (ltb (length buffer) 4)) [
  | inl e ↦ absurd (decided (rw e))
  | inr e ↦
      let h : 4 ≤ length buffer = ltb→le (length buffer) 4 e in
      let long : 4 ≤ length (buffer ++ q) = omega (arith, length-append buffer q) in
      rw (e, le→ltb (length (buffer ++ q)) 4 long)
        (settled (read_array-Stands q buffer) (λ m. decided (rw e m)))
]
  where
    settled :
        Stands q (read_array buffer) (read_array (buffer ++ q))
        → read_array buffer ≢ more
        → read_array (buffer ++ q) ≡ extend q (read_array buffer)
    settled (inl m) no_more = absurd (no_more m)
    settled (inr e) no_more = e

-- A frame behind which `q` stays unread is not a frame that leaves nothing.
extend-ne-frame :
    (q : Bytes) (cmd : List Bytes) (o : Outcome (List Bytes × Bytes))
    → q ≢ []
    → extend q o ≡ frame (cmd, [])
    → ⊥
extend-ne-frame q cmd (frame (c, [])) h e = h (cc)
extend-ne-frame q cmd (frame (c, x ∷ s)) h e = cc
extend-ne-frame q cmd more h e = cc
extend-ne-frame q cmd invalid h e = cc

is_more : (o : Outcome (List Bytes × Bytes)) → (o ≡ more) ⊎ (o ≢ more)
is_more (frame a) = inr (λ e. cc)
is_more more = inl refl
is_more invalid = inr (λ e. cc)

-- On a proper prefix of a frame try_parse waits for more bytes: it finds no frame and no error. The
-- command fits the limits of the parser.
pub try_parse_prefix :
    (cmd : List Bytes) (p q : Bytes)
    → Fits cmd
    → q ≢ []
    → p ++ q ≡ write_array [] cmd
    → try_parse p ≡ more
try_parse_prefix cmd p q fits some_left e = elim (is_more (try_parse p)) [
  | inl m ↦ m
  | inr decided ↦
      let whole : try_parse (p ++ q) ≡ frame (cmd, []) =
        rw (e, ← append-nil (write_array [] cmd)) (try_parse-write_array cmd [] fits) in
      absurd
        (extend-ne-frame q cmd (try_parse p) some_left (sym (try_parse-append p q decided) ∙ whole))
]

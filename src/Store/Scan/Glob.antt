-- ===== src/Store/Scan/Glob.antt =====
-- What `matches_pattern` of src/store.rs is to decide, as its comment has it: `*` stands for any
-- bytes, `?` for one, and any other byte for itself.
use redistill.Base.{
  ℕ, zero, suc, ◌≤◌, ◌≡◌, ◌↔◌, refl, Bool, true, false, ◌||◌, Option, none, some, [], ◌∷◌, arith,
  ◌==◌, ==_iff, Bytes, length, Bool-cases, Option-cases, inl, inr,
}
use redistill.Store.Scan.{match_loop, matches_pattern, only_stars}
use redistill.Store.Scan.Rounds.{matches_pattern_ends}

pub data Glob : Bytes → Bytes → Type 0 where
  done : Glob [] []
  same :
      {p k : ℕ} {pat key : Bytes}
      → (p == b'*') ≡ false
      → (p == b'?' || p == k) ≡ true
      → Glob pat key
      → Glob (p ∷ pat) (k ∷ key)
  close : {p : ℕ} {pat key : Bytes} → (p == b'*') ≡ true → Glob pat key → Glob (p ∷ pat) key
  widen :
      {p k : ℕ} {pat key : Bytes}
      → (p == b'*') ≡ true
      → Glob (p ∷ pat) key
      → Glob (p ∷ pat) (k ∷ key)

same_inv :
    {p k : ℕ} {pat key : Bytes}
    → (p == b'*') ≡ false
    → Glob (p ∷ pat) (k ∷ key)
    → ((p == b'?' || p == k) ≡ true) × Glob pat key
same_inv n (same a b d) = (b, d)
same_inv n (close a d) = cc
same_inv n (widen a d) = cc

close_inv : {p : ℕ} {pat : Bytes} → (p == b'*') ≡ true → Glob (p ∷ pat) [] → Glob pat []
close_inv e (close a d) = d

widen_inv :
    {p k : ℕ} {pat key : Bytes}
    → (p == b'*') ≡ true
    → Glob (p ∷ pat) (k ∷ key)
    → ¬ Glob pat (k ∷ key)
    → Glob (p ∷ pat) key
widen_inv e (same a b d) n = cc
widen_inv e (close a d) n = absurd (n d)
widen_inv e (widen a d) n = d

-- Two stars in a row are one.
two_stars :
    {p q : ℕ} {pat : Bytes} (key : Bytes)
    → (p == b'*') ≡ true
    → (q == b'*') ≡ true
    → Glob (q ∷ p ∷ pat) key
    → Glob (p ∷ pat) key
two_stars key e f (same a b d) = cc
two_stars key e f (close a d) = d
two_stars (k ∷ key) e f (widen a d) = widen e (two_stars key e f d)

-- Behind a star, a byte that the pattern takes first may be skipped.
skip_same :
    {p q k : ℕ} {pat : Bytes} (key : Bytes)
    → (p == b'*') ≡ false
    → (q == b'*') ≡ true
    → Glob (q ∷ p ∷ pat) (k ∷ key)
    → Glob (q ∷ pat) key
skip_same key e f (same a b d) = cc
skip_same key e f (close a d) = close f (same_inv e d).1
skip_same [] e f (widen a d) = skip_end e f d
  where
    skip_end :
        {p q : ℕ} {pat : Bytes}
        → (p == b'*') ≡ false
        → (q == b'*') ≡ true
        → Glob (q ∷ p ∷ pat) []
        → Glob (q ∷ pat) []
    skip_end e f (close a (close b d)) = cc
skip_same (c ∷ key) e f (widen a d) = widen f (skip_same key e f d)

only_stars-Glob : (pat : Bytes) → only_stars pat ≡ true → Glob pat []
unfolding only_stars
only_stars-Glob [] h = done
only_stars-Glob (p ∷ pat) h = close (ground (arith, h)) (only_stars-Glob pat (ground (arith, h)))

Glob-only_stars : {pat : Bytes} → Glob pat [] → only_stars pat ≡ true
unfolding only_stars
Glob-only_stars done = refl
Glob-only_stars (close a d) = rw (a, Glob-only_stars d)

-- If the run has ended, it has answered `G`.
abbrev Answers : Type 0 → Option Bool → Type 0
Answers G none = Unit {0}
Answers G (some true) = G
Answers G (some false) = ¬ G

-- `G` is the question at the start of the run.
module _ (G : Type 0) where
  -- What is known of the saved star: the question is whether it matches at the backup, and what
  -- matches from the backup on matches from here on.
  abbrev Saved : Bytes → Bytes → Option (Bytes × Bytes) → Type 0
  Saved key pat none = G → Glob pat key
  Saved key pat (some (after, backup)) =
      (G → Glob (b'*' ∷ after) backup)
      × (Glob (b'*' ∷ after) backup → G)
      × (Glob after backup → Glob pat key)
      × (length key ≤ length backup)

  record Sound (key pat : Bytes) (star : Option (Bytes × Bytes)) : Type 0 where
    now : Glob pat key → G
    later : G → Glob (b'*' ∷ pat) key
    saved : Saved key pat star

  Sound-starred :
      {p : ℕ} {pat key : Bytes}
      → (p == b'*') ≡ true
      → (Glob (p ∷ pat) key → G)
      → (G → Glob (b'*' ∷ p ∷ pat) key)
      → Sound key pat (some (pat, key))
  Sound-starred {p} {pat} {key} e now later =
      let is : p ≡ b'*' = (==_iff p b'*').0 e in
      let to : G → Glob (b'*' ∷ pat) key = λ g. rw is at (two_stars key e refl (later g)) in
      let from : Glob (b'*' ∷ pat) key → G = λ d. now (rw is d) in
      record { now = λ d. now (close e d); later = to; saved = (to, from, λ d. d, omega arith) }

  Saved-same :
      (p k : ℕ) (pat key : Bytes) (star : Option (Bytes × Bytes))
      → (p == b'*') ≡ false
      → Saved (k ∷ key) (p ∷ pat) star
      → Saved key pat star
  Saved-same p k pat key none e saved = λ g. (same_inv e (saved g)).1
  Saved-same p k pat key (some (after, backup)) e (to, from, down, le) =
      (to, from, λ d. (same_inv e (down d)).1, omega (arith, le))

  Sound-same :
      {p k : ℕ} {pat key : Bytes} (star : Option (Bytes × Bytes))
      → (p == b'*') ≡ false
      → (p == b'?' || p == k) ≡ true
      → Sound (k ∷ key) (p ∷ pat) star
      → Sound key pat star
  Sound-same {p} {k} {pat} {key} star e f s = record {
    now = λ d. s.now (same e f d);
    later = λ g. skip_same key e refl (s.later g);
    saved = Saved-same p k pat key star e s.saved;
  }

  -- A mismatch: the star takes one byte more.
  Sound-back :
      {b : ℕ} {after backup pat key : Bytes} {k : ℕ}
      → Saved (k ∷ key) pat (some (after, b ∷ backup))
      → ¬ Glob pat (k ∷ key)
      → Sound backup after (some (after, backup))
  Sound-back {backup} (to, from, down, le) no_match =
      let to' : G → Glob (b'*' ∷ _) backup = λ g. widen_inv refl (to g) (λ d. no_match (down d)) in
      record {
        now = λ d. from (widen refl (close refl d));
        later = to';
        saved = (to', λ d. from (widen refl d), λ d. d, omega arith);
      }

  match_loop-Answers :
      (n : ℕ) (key pat : Bytes) (star : Option (Bytes × Bytes))
      → Sound key pat star
      → Answers G (match_loop n key pat star)
  unfolding match_loop
  match_loop-Answers zero key pat star s = tt
  match_loop-Answers (suc n) [] pat star s = elim (Bool-cases (only_stars pat)) [
    | inl e ↦ rw e (s.now (only_stars-Glob pat e))
    | inr e ↦ rw e (λ g. cc (e, Glob-only_stars (close_inv refl (s.later g))))
  ]
  match_loop-Answers (suc n) (k ∷ key) [] none s = λ g. elim (s.saved g) [ ]
  match_loop-Answers (suc n) (k ∷ key) (p ∷ pat) none s = elim (Bool-cases (p == b'*')) [
    | inl e ↦
        rw e
          (match_loop-Answers n (k ∷ key) pat (some (pat, k ∷ key)) (Sound-starred e s.now s.later))
    | inr e ↦ elim (Bool-cases (p == b'?' || p == k)) [
      | inl f ↦ rw (e, f) (match_loop-Answers n key pat none (Sound-same none e f s))
      | inr f ↦ rw (e, f) (λ g. cc (f, (same_inv e (s.saved g)).0))
    ]
  ]
  match_loop-Answers (suc n) (k ∷ key) pat (some (after, [])) s = absurd (omega (arith, s.saved.3))
  match_loop-Answers (suc n) (k ∷ key) [] (some (after, b ∷ backup)) s =
      match_loop-Answers n backup after (some (after, backup))
        (Sound-back s.saved (λ d. elim d [ ]))
  match_loop-Answers (suc n) (k ∷ key) (p ∷ pat) (some (after, b ∷ backup)) s =
      elim (Bool-cases (p == b'*')) [
        | inl e ↦ rw e (
            match_loop-Answers n (k ∷ key) pat (some (pat, k ∷ key))
              (Sound-starred e s.now s.later))
        | inr e ↦ elim (Bool-cases (p == b'?' || p == k)) [
          | inl f ↦
              rw (e, f)
                (match_loop-Answers n key pat (some (after, b ∷ backup))
                  (Sound-same (some (after, b ∷ backup)) e f s))
          | inr f ↦
              rw (e, f)
                (match_loop-Answers n backup after (some (after, backup))
                  (Sound-back s.saved (λ d. cc (f, (same_inv e d).0))))
        ]
      ]

matches_pattern-Answers : (key pat : Bytes) → Answers (Glob pat key) (matches_pattern key pat)
unfolding matches_pattern
matches_pattern-Answers key pat =
    match_loop-Answers (Glob pat key) _ key pat none
      (record { now = λ d. d; later = λ d. close refl d; saved = λ d. d })

-- matches_pattern finds a match just when the pattern stands in the glob relation to the key: a
-- star stands for any bytes, a question mark for one byte, and any other byte for itself.
pub matches_pattern_iff : (key pat : Bytes) → (matches_pattern key pat ≡ some true) ↔ Glob pat key
matches_pattern_iff key pat = elim (Option-cases (matches_pattern key pat)) [
  | inl e ↦ absurd (matches_pattern_ends key pat e)
  | inr (true, e) ↦ ((λ h. rw e at (matches_pattern-Answers key pat)), λ d. e)
  | inr (false, e) ↦ ((λ h. cc (e, h)), λ d. absurd ((rw e at (matches_pattern-Answers key pat)) d))
]

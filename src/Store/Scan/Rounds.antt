-- ===== src/Store/Scan/Rounds.antt =====
-- The rounds of the loop of `matches_pattern` of src/store.rs.
use redistill.Base.{
  ℕ, zero, suc, ◌+◌, ◌*◌, ◌≤◌, ◌<◌, ◌≡◌, ◌≢◌, ◌||◌, none, some, [], ◌∷◌, arith, ◌==◌, Bytes, length,
  Bool-cases, inl, inr,
}
use redistill.Store.Scan.{match_loop, matches_pattern}

-- How many rounds are left at most, with a pattern of at most `p` bytes: the rest of the pattern, and
-- a whole pattern for each byte of the key that the backup can still pass.
abbrev rounds : ℕ → ℕ → ℕ
rounds p zero = 0
rounds p (suc k) = rounds p k + (p + 1)

rounds-le : (p a b : ℕ) → a ≤ b → rounds p a ≤ rounds p b
rounds-le p zero b h = omega arith
rounds-le p (suc a) zero h = absurd (omega (arith, h))
rounds-le p (suc a) (suc b) h = omega (arith, rounds-le p a b (omega (arith, h)))

rounds_product : (p k : ℕ) → rounds p k ≡ k * (p + 1)
rounds_product p zero = omega arith
rounds_product p (suc k) = grind (arith, rounds_product p k)

starred_ends :
    (n p : ℕ) (key pat after backup : Bytes)
    → length pat ≤ p
    → length after ≤ p
    → length key ≤ length backup
    → rounds p (length backup) + length pat < n
    → match_loop n key pat (some (after, backup)) ≢ none
unfolding match_loop
starred_ends zero p key pat after backup a b c h = absurd (omega (arith, h))
starred_ends (suc n) p [] pat after backup a b c h = ground arith
starred_ends (suc n) p (k ∷ key) pat after [] a b c h = absurd (omega (arith, c))
starred_ends (suc n) p (k ∷ key) [] after (x ∷ backup) a b c h =
    starred_ends n p backup after after backup b b (omega arith) (omega (arith, b, h))
starred_ends (suc n) p (k ∷ key) (q ∷ rest) after (x ∷ backup) a b c h =
    elim (Bool-cases (q == b'*')) [
      | inl e ↦ rw e (
          starred_ends n p (k ∷ key) rest rest (k ∷ key) (omega (arith, a)) (omega (arith, a))
            (omega arith)
            (omega (arith, h, rounds-le p (length (k ∷ key)) (length (x ∷ backup)) c)))
      | inr e ↦ elim (Bool-cases (q == b'?' || q == k)) [
        | inl f ↦
            rw (e, f)
              (starred_ends n p key rest after (x ∷ backup) (omega (arith, a)) b (omega (arith, c))
                (omega (arith, h)))
        | inr f ↦
            rw (e, f)
              (starred_ends n p backup after after backup b b (omega arith) (omega (arith, b, h)))
      ]
    ]

plain_ends :
    (n p : ℕ) (key pat : Bytes)
    → length pat ≤ p
    → rounds p (length key) + length pat < n
    → match_loop n key pat none ≢ none
unfolding match_loop
plain_ends zero p key pat a h = absurd (omega (arith, h))
plain_ends (suc n) p [] pat a h = ground arith
plain_ends (suc n) p (k ∷ key) [] a h = ground arith
plain_ends (suc n) p (k ∷ key) (q ∷ rest) a h = elim (Bool-cases (q == b'*')) [
  | inl e ↦ rw e (
      starred_ends n p (k ∷ key) rest rest (k ∷ key) (omega (arith, a)) (omega (arith, a))
        (omega arith) (omega (arith, h)))
  | inr e ↦ elim (Bool-cases (q == b'?' || q == k)) [
    | inl f ↦ rw (e, f) (plain_ends n p key rest (omega (arith, a)) (omega (arith, h)))
    | inr f ↦ rw (e, f) (ground arith)
  ]
]

-- The loop of matches_pattern ends with an answer, for every key and every pattern: the fuel that
-- is given does not run out.
pub matches_pattern_ends : (key pattern : Bytes) → matches_pattern key pattern ≢ none
unfolding matches_pattern
matches_pattern_ends key pattern =
    plain_ends ((length key + 2) * (length pattern + 2)) (length pattern) key pattern (omega arith)
      (grind (arith, rounds_product (length pattern) (length key)))

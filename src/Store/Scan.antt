-- ===== src/Store/Scan.antt =====
-- `scan` and `matches_pattern` of src/store.rs.
pub mod Rounds
pub mod Glob
use redistill.Base.{
  ◌∙◌, sym, append_assoc, append-nil, ℕ, zero, suc, ◌+◌, ◌*◌, ◌/◌, ◌%◌, ◌≤◌, ◌≡◌, refl, ap, Bool,
  true, false, ◌||◌, ◌&&◌, Option, none, some, List, [], ◌∷◌, ◌++◌, arith, ltb, leb, ◌==◌,
  if◌then◌else◌, codes, Bytes, All, length, length-append, drop, beq, beq_iff, beq_refl, ◌≢◌, min,
  max, Bool-cases, inl, inr,
}
use mathlib.Core.Path.{subst}
use redistill.Store.Entry.{Entry, is_expired}
use redistill.Store.State.{Env, Store}
use redistill.Store.Dash.{lookup, Unique}
use redistill.Store.Strings.Lookup.{is_among}

-- The trailing stars, and the end of the pattern.
unfoldable pub only_stars : Bytes → Bool
only_stars [] = true
only_stars (p ∷ pat) = p == b'*' && only_stars pat

-- One round of the loop of `matches_pattern` for each unit of fuel: what is left of the key and of the
-- pattern; and behind a star, the pattern after it and the key at `key_backup`. None: out of fuel.
unfoldable pub match_loop : ℕ → Bytes → Bytes → Option (Bytes × Bytes) → Option Bool
match_loop zero key pat star = none
match_loop (suc n) [] pat star = some (only_stars pat)
match_loop (suc n) (k ∷ key) pat none = elim pat [
  | [] ↦ some false
  | p ∷ rest ↦
      let starred = match_loop n (k ∷ key) rest (some (rest, k ∷ key)) in
      let same = match_loop n key rest none in
      if p == b'*' then starred else if p == b'?' || p == k then same else some false
]
match_loop (suc n) (k ∷ key) pat (some (after, backup)) =
    let back = match_loop n (drop 1 backup) after (some (after, drop 1 backup)) in
    elim pat [
      | [] ↦ back
      | p ∷ rest ↦
          let starred = match_loop n (k ∷ key) rest (some (rest, k ∷ key)) in
          let same = match_loop n key rest (some (after, backup)) in
          if p == b'*' then starred else if p == b'?' || p == k then same else back
    ]

-- The fuel exceeds (length key + 1) * (length pattern + 1), a bound on the rounds.
unfoldable pub matches_pattern : Bytes → Bytes → Option Bool
matches_pattern key pattern = match_loop ((length key + 2) * (length pattern + 2)) key pattern none

unfoldable pub is_some_true : Option Bool → Bool
is_some_true (some b) = b
is_some_true none = false

-- `pattern` is absent, or matches
unfoldable pub selects : Option Bytes → Bytes → Bool
selects none key = true
selects (some pat) key = is_some_true (matches_pattern key pat)

-- A scan of one shard stops at a cursor, or passes on to the next shard with what it has found and how
-- many entries it has checked.
pub data Page : Type 0 where
  paused : ℕ → List Bytes → Page
  passed : List Bytes → ℕ → Page

-- The cursor behind the entry at `pos`.
unfoldable pub cursor_after : ℕ → ℕ → ℕ → ℕ → ℕ
cursor_after num_shards shard entries pos =
    if ltb (pos + 1) entries
    then shard * 1000000000 + (pos + 1)
    else if ltb (shard + 1) num_shards
    then (shard + 1) * 1000000000
    else 0

-- The inner loop. `cursor_at` gives the cursor when it stops at a position.
unfoldable pub scan_entries :
    (ℕ → ℕ) → ℕ → Option Bytes → ℕ → List (Bytes × Entry) → ℕ → List Bytes → ℕ → Page
scan_entries cursor_at count pattern now [] pos result checked = passed result checked
scan_entries cursor_at count pattern now ((key, e) ∷ entries) pos result checked =
    if leb count (length result) || leb (count * 3) checked
    then paused (cursor_at pos) result
    else scan_entries cursor_at count pattern now entries (pos + 1)
        (if is_expired now e.expiry
          then result
          else if selects pattern key
          then result ++ key ∷ []
          else result)
        (checked + 1)

backtracks : matches_pattern (codes "user:1:x") (codes "u*:?:x") ≡ some true
unfolding matches_pattern match_loop only_stars
backtracks = refl

no_match : matches_pattern (codes "abcb") (codes "a*bc") ≡ some false
unfolding matches_pattern match_loop only_stars
no_match = refl

module _ (E : Env) where
  open E.dash use {Shard, iter}

  -- The outer loop, over the shards from `shard` on.
  unfoldable pub scan_shards :
      Store E → ℕ → Option Bytes → ℕ → List Shard → ℕ → ℕ → List Bytes → ℕ → ℕ × List Bytes
  scan_shards s count pattern now [] shard position result checked = (0, result)
  scan_shards s count pattern now (x ∷ shards) shard position result checked =
      elim (scan_entries (cursor_after s.num_shards shard (length (iter x))) count pattern now
        (drop position (iter x)) position result checked) [
          | paused cursor found ↦ (cursor, found)
          | passed found n ↦ scan_shards s count pattern now shards (shard + 1) 0 found n
        ]

  unfoldable pub scan : Store E → ℕ → ℕ → Option Bytes → ℕ → ℕ × List Bytes
  scan s cursor count_hint pattern now =
      let shard = cursor / 1000000000 in
      if leb s.num_shards shard
      then (0, [])
      else scan_shards s (min (max count_hint 10) 1000) pattern now (drop shard s.shards) shard
          (cursor % 1000000000) [] 0

abbrev pub keys_of : List (Bytes × Entry) → List Bytes
keys_of [] = []
keys_of ((key, e) ∷ entries) = key ∷ keys_of entries

length-keys_of : (p : List (Bytes × Entry)) → length (keys_of p) ≡ length p
length-keys_of [] = refl
length-keys_of (x ∷ p) = ap suc (length-keys_of p)

-- The loop takes live entries up to the count, and stops at the next one.
scan_entries-live :
    (cursor_at : ℕ → ℕ) (count now : ℕ) (p : List (Bytes × Entry)) (x : Bytes × Entry)
    (rest : List (Bytes × Entry)) (pos : ℕ) (result : List Bytes) (checked : ℕ)
    → All (λ y. is_expired now y.1.expiry ≡ false) p
    → length result + length p ≡ count
    → checked ≡ length result
    → scan_entries cursor_at count none now (p ++ x ∷ rest) pos result checked
      ≡ paused (cursor_at (pos + length p)) (result ++ keys_of p)
unfolding scan_entries selects
scan_entries-live cursor_at count now [] x rest pos result checked live full same =
    let stop : leb count (length result) ≡ true = ground (arith, full) in
    let here : pos + 0 ≡ pos = omega arith in rw (stop, here, append-nil result)
scan_entries-live cursor_at count now ((key, e) ∷ p) x rest pos result checked (l, live) full same =
    let go_on : (leb count (length result) || leb (count * 3) checked) ≡ false =
      ground (arith, full, same) in
    let there : pos + suc (length p) ≡ pos + 1 + length p = omega arith in
    rw (go_on, l, there)
      (scan_entries-live cursor_at count now p x rest (pos + 1) (result ++ key ∷ []) (checked + 1)
          live (omega (arith, length-append result (key ∷ []), full))
          (omega (arith, length-append result (key ∷ []), same))
        ∙ rw (append_assoc result (key ∷ []) (keys_of p)))

lookup-last :
    (p : List (Bytes × Entry)) (key : Bytes) (e : Entry) → lookup key (p ++ (key, e) ∷ []) ≢ none
lookup-last [] key e h = ground (arith, beq_refl key)
lookup-last ((j, v) ∷ p) key e h = ground (arith, lookup-last p key e)

-- The last of distinct keys is not among the others.
last-unlisted :
    (p : List (Bytes × Entry)) (key : Bytes) (e : Entry)
    → Unique (p ++ (key, e) ∷ [])
    → is_among key (keys_of p) ≡ false
last-unlisted [] key e u = refl
last-unlisted ((j, v) ∷ p) key e (h, u) = elim (Bool-cases (beq j key)) [
  | inl b ↦ let same : j ≡ key = (beq_iff j key).0 b in absurd (lookup-last p key e (rw same at h))
  | inr b ↦ rw b (last-unlisted p key e u)
]

module _ (E : Env) where
  open E.dash use {Shard, iter}

  scan_shards-one :
      (s : Store E) (shard : Shard) (p : List (Bytes × Entry)) (x : Bytes × Entry) (now : ℕ)
      → s.num_shards ≡ 1
      → iter shard ≡ p ++ x ∷ []
      → All (λ y. is_expired now y.1.expiry ≡ false) p
      → scan_shards E s (length p) none now (shard ∷ []) 0 0 [] 0 ≡ (0, keys_of p)
  unfolding scan_shards
  scan_shards-one s shard p x now count entries live =
      let cursor_at = cursor_after s.num_shards 0 (length (iter shard)) in
      let found : scan_entries cursor_at (length p) none now (iter shard) 0 [] 0
          ≡ paused (cursor_at (0 + length p)) (keys_of p) =
        rw entries (scan_entries-live _ (length p) now p x [] 0 [] 0 live (omega arith) refl) in
      let all : length (iter shard) ≡ length p + 1 = ap length entries ∙ length-append p (x ∷ []) in
      let over : cursor_at (0 + length p) ≡ 0 = unfold cursor_after in ground (arith, count, all) in
      rw (found, scan_shards, over)

  scan_one :
      (s : Store E) (shard : Shard) (p : List (Bytes × Entry)) (x : Bytes × Entry) (now : ℕ)
      → s.shards ≡ shard ∷ []
      → s.num_shards ≡ 1
      → iter shard ≡ p ++ x ∷ []
      → All (λ y. is_expired now y.1.expiry ≡ false) p
      → 10 ≤ length p
      → length p ≤ 1000
      → scan E s 0 (length p) none now ≡ (0, keys_of p)
  unfolding scan
  scan_one s shard p x now one count entries live lo hi =
      let clamp : min (max (length p) 10) 1000 ≡ length p = omega (arith, lo, hi) in
      let inside : leb s.num_shards 0 ≡ false = ground (arith, count) in
      rw (inside, clamp)
        (subst (λ l. scan_shards E s (length p) none now l 0 0 [] 0 ≡ (0, keys_of p)) (sym one)
          (scan_shards-one s shard p x now count entries live))

  -- In a store of one shard whose entries are some live ones, between 10 and 1,000, and one more
  -- behind them, SCAN from cursor 0 with a count of the former returns just those with cursor 0,
  -- which says that the iteration is complete; the key of the last entry is not among them.
  pub scan_misses :
      (s : Store E) (shard : Shard) (p : List (Bytes × Entry)) (key : Bytes) (e : Entry) (now : ℕ)
      → s.shards ≡ shard ∷ []
      → s.num_shards ≡ 1
      → iter shard ≡ p ++ (key, e) ∷ []
      → All (λ y. is_expired now y.1.expiry ≡ false) p
      → 10 ≤ length p
      → length p ≤ 1000
      → (scan E s 0 (length p) none now ≡ (0, keys_of p)) × (is_among key (keys_of p) ≡ false)
  scan_misses s shard p key e now one count entries live lo hi = (
    scan_one s shard p (key, e) now one count entries live lo hi,
    last-unlisted p key e (subst Unique entries (E.dash.iter-unique shard)),
  )

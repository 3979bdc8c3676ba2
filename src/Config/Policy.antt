-- ===== src/Config/Policy.antt =====
-- `FromStr` and `as_str` of `EvictionPolicy` in src/config.rs.
use redistill.Base.{
  ℕ, ◌+◌, ◌<◌, ◌≡◌, refl, sym, ◌∙◌, ◌≢◌, ◌&&◌, [], ◌∷◌, ◌++◌, arith, ltb, leb, if◌then◌else◌, codes,
  beq, All, lt→ltb, beq_iff,
}
use mathlib.Core.List.{map}
use redistill.Config.{Text}
use redistill.Store.State.{
  EvictionPolicy, no_eviction, all_keys_lru, all_keys_random, all_keys_s3_fifo,
}

unfoldable pub as_str : EvictionPolicy → Text
as_str no_eviction = codes "noeviction"
as_str all_keys_lru = codes "allkeys-lru"
as_str all_keys_random = codes "allkeys-random"
as_str all_keys_s3_fifo = codes "allkeys-s3fifo"

abbrev pub ascii_lower : ℕ → ℕ
ascii_lower c = if leb b'A' c && leb c b'Z' then c + 32 else c

-- `str::to_lowercase`. Beyond ASCII it goes by the tables of Unicode, and may look at the text around a
-- character: `unicode before c behind` is what it puts for `c`.
abbrev pub Unicode : Type 0
Unicode = Text → ℕ → Text → Text

module _ (unicode : Unicode) where
  unfoldable pub lower_behind : Text → Text → Text
  lower_behind before [] = []
  lower_behind before (c ∷ s) =
      (if ltb c 128 then ascii_lower c ∷ [] else unicode before c s)
      ++ lower_behind (before ++ c ∷ []) s

  unfoldable pub to_lowercase : Text → Text
  unfolding lower_behind
  to_lowercase s = lower_behind [] s

  unfoldable pub from_str : Text → EvictionPolicy
  from_str s =
      let name = to_lowercase s in
      if beq name (codes "allkeys-lru")
      then all_keys_lru
      else if beq name (codes "allkeys-random")
      then all_keys_random
      else if beq name (codes "allkeys-s3fifo")
      then all_keys_s3_fifo
      else if beq name (codes "noeviction")
      then no_eviction
      else all_keys_lru

  lower_behind-ascii :
      (before s : Text) → All (λ c. c < 128) s → lower_behind before s ≡ map ascii_lower s
  unfolding lower_behind
  lower_behind-ascii before [] h = refl
  lower_behind-ascii before (c ∷ s) (h, rest) =
      rw (lt→ltb c 128 h, lower_behind-ascii (before ++ c ∷ []) s rest)

  from_str_lower : (s t : Text) → to_lowercase s ≡ to_lowercase t → from_str s ≡ from_str t
  unfolding from_str
  from_str_lower s t e = rw e

  from_str-as_str_lower : (p : EvictionPolicy) → from_str (as_str p) ≡ p
  unfolding from_str as_str to_lowercase lower_behind beq
  from_str-as_str_lower no_eviction = refl
  from_str-as_str_lower all_keys_lru = refl
  from_str-as_str_lower all_keys_random = refl
  from_str-as_str_lower all_keys_s3_fifo = refl

  map_as_str : (p : EvictionPolicy) → to_lowercase (as_str p) ≡ as_str p
  unfolding as_str to_lowercase lower_behind
  map_as_str no_eviction = refl
  map_as_str all_keys_lru = refl
  map_as_str all_keys_random = refl
  map_as_str all_keys_s3_fifo = refl

  -- The name of an eviction policy, in ASCII letters of either case, is read back as that policy,
  -- whatever to_lowercase does beyond ASCII.
  pub from_str-as_str :
      (p : EvictionPolicy) (s : Text)
      → All (λ c. c < 128) s
      → map ascii_lower s ≡ as_str p
      → from_str s ≡ p
  unfolding to_lowercase
  from_str-as_str p s ascii e =
      from_str_lower s (as_str p) (lower_behind-ascii [] s ascii ∙ e ∙ sym (map_as_str p))
      ∙ from_str-as_str_lower p

  -- Any other text is the default policy.
  pub from_str_other :
      (s : Text) → ((p : EvictionPolicy) → to_lowercase s ≢ as_str p) → from_str s ≡ all_keys_lru
  unfolding from_str as_str
  from_str_other s h = ground (
    arith,
    beq_iff (to_lowercase s) (codes "noeviction"),
    beq_iff (to_lowercase s) (codes "allkeys-random"),
    beq_iff (to_lowercase s) (codes "allkeys-s3fifo"),
    h no_eviction,
    h all_keys_random,
    h all_keys_s3_fifo,
  )

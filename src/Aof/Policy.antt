-- ===== src/Aof/Policy.antt =====
-- `FsyncPolicy` of src/aof.rs.
use redistill.Base.{
  ◌+◌, ◌≡◌, refl, ◌↔◌, ◌⊎◌, inl, inr, ◌&&◌, [], ◌∷◌, ◌++◌, arith, leb, if◌then◌else◌, Bytes, codes,
  beq, beq_iff,
}

pub data FsyncPolicy : Type 0 where
  always every_sec no : FsyncPolicy

-- `to_ascii_lowercase`
abbrev pub to_ascii_lowercase : Bytes → Bytes
to_ascii_lowercase [] = []
to_ascii_lowercase (b ∷ s) = (if leb b'A' b && leb b b'Z' then b + 32 else b) ∷ to_ascii_lowercase s

-- The match in `parse`: the policy, or the message of `Err`.
unfoldable pub policy_of : Bytes → FsyncPolicy ⊎ Bytes
policy_of name =
    if beq name (codes "always")
    then inl always
    else if beq name (codes "everysec")
    then inl every_sec
    else if beq name (codes "no")
    then inl no
    else inr
        (codes "invalid aof_fsync policy: '" ++ (name ++ codes "' (expected always|everysec|no)"))

unfoldable pub parse : Bytes → FsyncPolicy ⊎ Bytes
parse s = policy_of (to_ascii_lowercase s)

unfoldable pub as_str : FsyncPolicy → Bytes
as_str always = codes "always"
as_str every_sec = codes "everysec"
as_str no = codes "no"

policy_of-as_str : (p : FsyncPolicy) → policy_of (as_str p) ≡ inl p
unfolding policy_of as_str beq
policy_of-as_str always = refl
policy_of-as_str every_sec = refl
policy_of-as_str no = refl

as_str_of_policy : (p : FsyncPolicy) (name : Bytes) → policy_of name ≡ inl p → name ≡ as_str p
unfolding policy_of as_str
as_str_of_policy always name h = ground (arith, beq_iff name (codes "always"))
as_str_of_policy every_sec name h = ground (arith, beq_iff name (codes "everysec"))
as_str_of_policy no name h = ground (arith, beq_iff name (codes "no"))

-- A policy is parsed from just the spellings of its name, in any case of the letters.
pub parse-as_str :
    (p : FsyncPolicy) (s : Bytes) → (parse s ≡ inl p) ↔ (to_ascii_lowercase s ≡ as_str p)
unfolding parse
parse-as_str p s = (as_str_of_policy p (to_ascii_lowercase s), λ e. rw e (policy_of-as_str p))

-- ===== src/Commands/Words.antt =====
-- Words of a command, compared without regard to case: `eq_ignore_case_3`, `eq_ignore_case_6` of
-- src/protocol.rs and the comparisons of lowered arrays in src/main.rs. Each compares the length, and
-- each byte with the bit 0x20 set.
use Prim.Native.Nat.{bit_or}
use redistill.Base.{ℕ, ◌≡◌, refl, Bool, true, false, ◌&&◌, [], ◌∷◌, ◌==◌, Bytes, codes}

abbrev pub lower : ℕ → ℕ
lower b = bit_or b 0x20

unfoldable pub eq_ignore_case : Bytes → Bytes → Bool
eq_ignore_case [] [] = true
eq_ignore_case [] (c ∷ w) = false
eq_ignore_case (b ∷ s) [] = false
eq_ignore_case (b ∷ s) (c ∷ w) = lower b == c && eq_ignore_case s w

mixed_case : eq_ignore_case (codes "SeT") (codes "set") ≡ true
unfolding eq_ignore_case
mixed_case = refl

abbrev pub wrong_arguments : Bytes
wrong_arguments = codes "wrong number of arguments"

abbrev pub not_an_integer : Bytes
not_an_integer = codes "value is not an integer or out of range"

abbrev pub wrong_type_message : Bytes
wrong_type_message = codes "WRONGTYPE Operation against a key holding the wrong kind of value"

abbrev pub oom_message : Bytes
oom_message = codes "OOM command not allowed when used memory > 'maxmemory'"

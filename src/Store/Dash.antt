-- ===== src/Store/Dash.antt =====
-- The concurrent map of the crate `dashmap`, as src/store.rs uses it: operations, and what its
-- documentation says of them. The order of an iteration is not said.
use mathlib.Core.List.{Perm, Permᴰ}
use mathlib.Core.Logic.{∥∥₁_elim}
use native.Mathlib.Nat.{ℕ_set}
use redistill.Base.{
  length, ℕ, ◌+◌, ◌≡◌, refl, ap, ◌∙◌, Option, none, some, List, [], ◌∷◌, arith, if◌then◌else◌,
  Bytes, beq, beq_iff, ◌≤◌,
}

module _ {ℓ} {V : Type ℓ} where
  abbrev pub lookup : Bytes → List (Bytes × V) → Option V
  lookup k [] = none
  lookup k ((j, v) ∷ l) = if beq j k then some v else lookup k l

  -- The entries of the other keys.
  unfoldable pub without : Bytes → List (Bytes × V) → List (Bytes × V)
  without k [] = []
  without k ((j, v) ∷ l) = let rest = without k l in if beq j k then rest else (j, v) ∷ rest

  -- No key has two entries.
  abbrev pub Unique : List (Bytes × V) → Type ℓ
  Unique [] = Unit
  Unique ((k, v) ∷ l) = (lookup k l ≡ none) × Unique l

  -- The sum of a weight over the entries.
  abbrev pub total : (Bytes → V → ℕ) → List (Bytes × V) → ℕ
  total w [] = 0
  total w ((k, v) ∷ l) = w k v + total w l

  abbrev pub weight : (Bytes → V → ℕ) → Bytes → Option V → ℕ
  weight w k none = 0
  weight w k (some v) = w k v

-- `iter` visits each entry once. `get`, `insert` and `remove` act on the entry of the key.
pub record DashMap (V : Type 0) : Type 1 where
  pub Shard : Type 0
  pub empty : Shard
  pub get : Shard → Bytes → Option V
  pub insert : Shard → Bytes → V → Shard
  pub remove : Shard → Bytes → Shard
  pub clear : Shard → Shard
  pub iter : Shard → List (Bytes × V)
  pub len : Shard → ℕ
  pub get-iter : (s : Shard) (k : Bytes) → get s k ≡ lookup k (iter s)
  pub iter-unique : (s : Shard) → Unique (iter s)
  pub len-iter : (s : Shard) → len s ≡ length (iter s)
  pub iter-empty : iter empty ≡ []
  pub iter-clear : (s : Shard) → iter (clear s) ≡ []
  pub iter-insert :
      (s : Shard) (k : Bytes) (v : V) → Perm (iter (insert s k v)) ((k, v) ∷ without k (iter s))
  pub iter-remove : (s : Shard) (k : Bytes) → Perm (iter (remove s k)) (without k (iter s))
  pub get-insert :
      (s : Shard) (k : Bytes) (v : V) (j : Bytes)
      → get (insert s k v) j ≡ (if beq k j then some v else get s j)
  pub get-remove :
      (s : Shard) (k j : Bytes) → get (remove s k) j ≡ (if beq k j then none else get s j)

module _ {ℓ} {V : Type ℓ} where
  pub lookup-without :
      (k j : Bytes) (l : List (Bytes × V))
      → lookup j (without k l) ≡ (if beq k j then none else lookup j l)
  unfolding without
  lookup-without k j [] = ground arith
  lookup-without k j ((i, v) ∷ l) =
      ground (arith, lookup-without k j l, beq_iff i k, beq_iff i j, beq_iff k j)

  pub Unique-without : (k : Bytes) (l : List (Bytes × V)) → Unique l → Unique (without k l)
  unfolding without
  Unique-without k [] u = tt
  Unique-without k ((j, v) ∷ l) u = ground (arith, Unique-without k l u.1, lookup-without k j l)

  without_of_lacking :
      (w : Bytes → V → ℕ) (k : Bytes) (l : List (Bytes × V))
      → lookup k l ≡ none
      → total w (without k l) ≡ total w l
  unfolding without
  without_of_lacking w k [] h = refl
  without_of_lacking w k ((j, v) ∷ l) h = ground (arith, without_of_lacking w k l)

  total-without :
      (w : Bytes → V → ℕ) (k : Bytes) (l : List (Bytes × V))
      → Unique l
      → total w (without k l) + weight w k (lookup k l) ≡ total w l
  unfolding without
  total-without w k [] u = refl
  total-without w k ((j, v) ∷ l) u =
      ground (arith, total-without w k l u.1, without_of_lacking w k l, beq_iff j k)

  total-permᴰ : (w : Bytes → V → ℕ) {l m : List (Bytes × V)} → Permᴰ l m → total w l ≡ total w m
  total-permᴰ w Permᴰ.nil = refl
  total-permᴰ w (Permᴰ.cons {a = x} {b = y} e p) =
      omega (arith, ap (λ (z : Bytes × V). w z.0 z.1) e, total-permᴰ w p)
  total-permᴰ w (Permᴰ.swap {a = x} {b = y} {a' = x'} {b' = y'} e f) =
      omega (arith, ap (λ (z : Bytes × V). w z.0 z.1) e, ap (λ (z : Bytes × V). w z.0 z.1) f)
  total-permᴰ w (Permᴰ.trans p q) = total-permᴰ w p ∙ total-permᴰ w q

  total-perm : (w : Bytes → V → ℕ) (l m : List (Bytes × V)) → Perm l m → total w l ≡ total w m
  total-perm w l m p = ∥∥₁_elim p (ℕ_set (total w l) (total w m)) (total-permᴰ w)

-- What the operations do to a sum over the entries of a map.
module _ {V : Type 0} (D : DashMap V) (w : Bytes → V → ℕ) where
  open D use {Shard, get, insert, remove, iter}

  pub total-iter-insert :
      (s : Shard) (k : Bytes) (v : V)
      → total w (iter (insert s k v)) + weight w k (get s k) ≡ total w (iter s) + w k v
  total-iter-insert s k v = rw (D.get-iter s k) (
      omega (
        arith,
        total-perm w _ _ (D.iter-insert s k v),
        total-without w k (iter s) (D.iter-unique s),
      ))

  pub total-iter-remove :
      (s : Shard) (k : Bytes)
      → total w (iter (remove s k)) + weight w k (get s k) ≡ total w (iter s)
  total-iter-remove s k = rw (D.get-iter s k) (
      omega
        (arith, total-perm w _ _ (D.iter-remove s k), total-without w k (iter s) (D.iter-unique s)))

  -- One entry is at most the whole.
  pub weight-le-total : (s : Shard) (k : Bytes) → weight w k (get s k) ≤ total w (iter s)
  weight-le-total s k = omega (arith, total-iter-remove s k)

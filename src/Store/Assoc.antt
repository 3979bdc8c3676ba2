-- ===== src/Store/Assoc.antt =====
-- A map that meets what src/store.rs expects of `dashmap`: an association list with unique keys. The
-- tests and the examples run on it.
use mathlib.Core.List.Perm
use redistill.Base.{
  ◌≡◌, refl, none, some, List, [], ◌∷◌, arith, if◌then◌else◌, Bytes, beq, beq_refl, length,
}
use redistill.Store.Dash.{lookup, without, Unique, DashMap, lookup-without, Unique-without}

abbrev pub Table : Type 0 → Type 0
Table V = (l : List (Bytes × V)) × Unique l

module _ {V : Type 0} where
  pub lookup-without_self : (k : Bytes) (l : List (Bytes × V)) → lookup k (without k l) ≡ none
  lookup-without_self k l = rw (lookup-without k k l, beq_refl k)

  abbrev pub insert : Table V → Bytes → V → Table V
  insert (l, u) k v = ((k, v) ∷ without k l, (lookup-without_self k l, Unique-without k l u))

  abbrev pub remove : Table V → Bytes → Table V
  remove (l, u) k = (without k l, Unique-without k l u)

  pub lookup-insert :
      (t : Table V) (k : Bytes) (v : V) (j : Bytes)
      → lookup j (insert t k v).0 ≡ (if beq k j then some v else lookup j t.0)
  lookup-insert (l, u) k v j = ground (arith, lookup-without k j l)

  pub lookup-remove :
      (t : Table V) (k j : Bytes)
      → lookup j (remove t k).0 ≡ (if beq k j then none else lookup j t.0)
  lookup-remove (l, u) k j = lookup-without k j l

abbrev pub assoc_map : (V : Type 0) → DashMap V
assoc_map V = record {
  Shard = Table V;
  empty = ([], tt);
  get = λ t k. lookup k t.0;
  insert = insert;
  remove = remove;
  clear = λ t. ([], tt);
  iter = λ t. t.0;
  len = λ t. length t.0;
  len-iter = λ t. refl;
  get-iter = λ t k. refl;
  iter-unique = λ t. t.1;
  iter-empty = refl;
  iter-clear = λ t. refl;
  iter-insert = λ t k v. Perm.refl ((k, v) ∷ without k t.0);
  iter-remove = λ t k. Perm.refl (without k t.0);
  get-insert = lookup-insert;
  get-remove = lookup-remove;
}

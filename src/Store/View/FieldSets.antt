-- ===== src/Store/View/FieldSets.antt =====
-- The fields of a hash of src/store.rs as a finite map: how many there are, and what stands at each.
use redistill.Base.{
  ℕ, ◌+◌, ◌-◌, ◌≤◌, ◌≡◌, refl, ap, ◌∙◌, Option, none, some, List, [], ◌∷◌, ◌++◌, arith, ◌==◌,
  if◌then◌else◌, Bytes, beq, length, Bool-cases, inl, inr, beq_iff,
}
use redistill.Store.Dash.{lookup, Unique}
use redistill.Store.Entry.{HashMaps, Fields, field_get, field_insert, field_remove}
use redistill.Store.Hashes.{insert_fields, remove_fields, flatten_fields, is_empty}

pub record Table : Type 0 where
  pub size : ℕ
  pub at : Bytes → Option Bytes

abbrev pub no_fields : Table
no_fields = record { size = 0; at = λ f. none }

abbrev pub is_set : Option Bytes → ℕ
is_set none = 0
is_set (some v) = 1

abbrev pub put_field : Bytes → Bytes → Table → Table
put_field f v t = record {
  size = t.size + 1 - is_set (t.at f);
  at = λ g. if beq f g then some v else t.at g;
}

abbrev pub cut_field : Bytes → Table → Table
cut_field f t = record {
  size = t.size - is_set (t.at f);
  at = λ g. if beq f g then none else t.at g;
}

-- The count of the fields that are new, and the table behind them.
abbrev pub put_fields : Fields → Table → ℕ × Table
put_fields [] t = (0, t)
put_fields ((f, v) ∷ fields) t =
    let (n, last) = put_fields fields (put_field f v t) in (1 - is_set (t.at f) + n, last)

-- The count of the fields that were there, and the table without them.
abbrev pub cut_fields : List Bytes → Table → ℕ × Table
cut_fields [] t = (0, t)
cut_fields (f ∷ fields) t =
    let (n, last) = cut_fields fields (cut_field f t) in (is_set (t.at f) + n, last)

-- The pairs are those of the table, each once, in whatever order.
pub record Lists (pairs : Fields) (t : Table) : Type 0 where
  pub size : length pairs ≡ t.size
  pub unique : Unique pairs
  pub same : (f : Bytes) → lookup f pairs ≡ t.at f

pub no_fields-Lists : Lists [] no_fields
no_fields-Lists = record { size = refl; unique = tt; same = λ f. refl }

-- Each field with its value behind it.
abbrev pub in_turn : Fields → List Bytes
in_turn [] = []
in_turn (pair ∷ pairs) = (pair.0 ∷ pair.1 ∷ []) ++ in_turn pairs

pub flatten_fields-in_turn : (map : Fields) → flatten_fields map ≡ in_turn map
unfolding flatten_fields
flatten_fields-in_turn [] = refl
flatten_fields-in_turn ((f, v) ∷ map) = rw (flatten_fields-in_turn map)

pub field_get-lookup : (f : Bytes) (map : Fields) → field_get f map ≡ lookup f map
unfolding field_get
field_get-lookup f [] = refl
field_get-lookup f ((g, v) ∷ map) = rw (field_get-lookup f map)

lookup-field_insert :
    (f v g : Bytes) (map : Fields)
    → lookup g (field_insert f v map) ≡ (if beq f g then some v else lookup g map)
unfolding field_insert
lookup-field_insert f v g [] = ground arith
lookup-field_insert f v g ((h, u) ∷ map) =
    ground (arith, lookup-field_insert f v g map, beq_iff h f, beq_iff h g, beq_iff f g)

Unique-field_insert : (f v : Bytes) (map : Fields) → Unique map → Unique (field_insert f v map)
unfolding field_insert
Unique-field_insert f v [] u = (refl, tt)
Unique-field_insert f v ((h, w) ∷ map) u = ground (
  arith,
  Unique-field_insert f v map u.1,
  lookup-field_insert f v h map,
  beq_iff h f,
  beq_iff f h,
)

is_set-le : (v : Option Bytes) → is_set v ≤ 1
is_set-le none = omega arith
is_set-le (some v) = omega arith

length-field_insert :
    (f v : Bytes) (map : Fields)
    → length (field_insert f v map) ≡ length map + 1 - is_set (lookup f map)
unfolding field_insert
length-field_insert f v [] = refl
length-field_insert f v ((h, u) ∷ map) =
    let ih = length-field_insert f v map in
    let le = is_set-le (lookup f map) in
    elim (Bool-cases (beq h f)) [
      | inl e ↦ rw e (omega arith)
      | inr e ↦ rw e (omega (arith, ih, le))
    ]

lookup-field_remove :
    (f g : Bytes) (map : Fields)
    → Unique map
    → lookup g (field_remove f map) ≡ (if beq f g then none else lookup g map)
unfolding field_remove
lookup-field_remove f g [] u = ground arith
lookup-field_remove f g ((h, v) ∷ map) u =
    ground (arith, lookup-field_remove f g map u.1, u.0, beq_iff h f, beq_iff h g, beq_iff f g)

Unique-field_remove : (f : Bytes) (map : Fields) → Unique map → Unique (field_remove f map)
unfolding field_remove
Unique-field_remove f [] u = tt
Unique-field_remove f ((h, v) ∷ map) u =
    ground (arith, Unique-field_remove f map u.1, lookup-field_remove f h map u.1)

is_set-length : (f : Bytes) (map : Fields) → is_set (lookup f map) ≤ length map
is_set-length f [] = omega arith
is_set-length f ((h, v) ∷ map) = elim (Bool-cases (beq h f)) [
  | inl e ↦ rw e (omega arith)
  | inr e ↦ let ih = is_set-length f map in rw e (omega (arith, ih))
]

length-field_remove :
    (f : Bytes) (map : Fields) → length (field_remove f map) ≡ length map - is_set (lookup f map)
unfolding field_remove
length-field_remove f [] = refl
length-field_remove f ((h, u) ∷ map) =
    let ih = length-field_remove f map in
    let le = is_set-length f map in
    elim (Bool-cases (beq h f)) [
      | inl e ↦ rw e (omega arith)
      | inr e ↦ rw e (omega (arith, ih, le))
    ]

put_field-Lists :
    (f v : Bytes) (map : Fields) (t : Table)
    → Lists map t
    → Lists (field_insert f v map) (put_field f v t)
put_field-Lists f v map t l = record {
  size = length-field_insert f v map ∙ rw (l.size, l.same f);
  unique = Unique-field_insert f v map l.unique;
  same = λ g. lookup-field_insert f v g map ∙ rw (l.same g);
}

cut_field-Lists :
    (f : Bytes) (map : Fields) (t : Table)
    → Lists map t
    → Lists (field_remove f map) (cut_field f t)
cut_field-Lists f map t l = record {
  size = length-field_remove f map ∙ rw (l.size, l.same f);
  unique = Unique-field_remove f map l.unique;
  same = λ g. lookup-field_remove f g map l.unique ∙ rw (l.same g);
}

count_new : (v : Option Bytes) (n : ℕ) → elim v [ none ↦ n + 1 | some old ↦ n ] ≡ n + (1 - is_set v)
count_new none n = refl
count_new (some old) n = omega arith

count_old : (v : Option Bytes) (n : ℕ) → elim v [ none ↦ n | some old ↦ n + 1 ] ≡ n + is_set v
count_old none n = omega arith
count_old (some old) n = refl

-- The loop of HSET counts the new fields and sets all of them.
insert_fields-Lists :
    (fields map : Fields) (t : Table) (n : ℕ)
    → Lists map t
    → ((insert_fields fields map n).0 ≡ n + (put_fields fields t).0)
      × Lists (insert_fields fields map n).1 (put_fields fields t).1
unfolding insert_fields
insert_fields-Lists [] map t n l = (omega arith, l)
insert_fields-Lists ((f, v) ∷ fields) map t n l =
    let (count, all) =
      insert_fields-Lists fields (field_insert f v map) (put_field f v t) _
        (put_field-Lists f v map t l) in
    (
      count
          ∙ ap (λ k. k + (put_fields fields (put_field f v t)).0)
              (count_new (field_get f map) n
                ∙ ap (λ old. n + (1 - is_set old)) (field_get-lookup f map ∙ l.same f))
          ∙ omega arith,
      all,
    )

-- The loop of HDEL counts the fields that were there and removes all of them.
remove_fields-Lists :
    (fields : List Bytes) (map : Fields) (t : Table) (n : ℕ)
    → Lists map t
    → ((remove_fields fields map n).0 ≡ n + (cut_fields fields t).0)
      × Lists (remove_fields fields map n).1 (cut_fields fields t).1
unfolding remove_fields
remove_fields-Lists [] map t n l = (omega arith, l)
remove_fields-Lists (f ∷ fields) map t n l =
    let (count, all) =
      remove_fields-Lists fields (field_remove f map) (cut_field f t) _
        (cut_field-Lists f map t l) in
    (
      count
          ∙ ap (λ k. k + (cut_fields fields (cut_field f t)).0)
              (count_old (field_get f map) n
                ∙ ap (λ old. n + is_set old) (field_get-lookup f map ∙ l.same f))
          ∙ omega arith,
      all,
    )

pub insert_all-Lists :
    (fields map : Fields) (t : Table)
    → Lists map t
    → ((insert_fields fields map 0).0 ≡ (put_fields fields t).0)
      × Lists (insert_fields fields map 0).1 (put_fields fields t).1
insert_all-Lists fields map t l =
    let (n, all) = insert_fields-Lists fields map t 0 l in (omega (arith, n), all)

pub remove_all-Lists :
    (fields : List Bytes) (map : Fields) (t : Table)
    → Lists map t
    → ((remove_fields fields map 0).0 ≡ (cut_fields fields t).0)
      × Lists (remove_fields fields map 0).1 (cut_fields fields t).1
remove_all-Lists fields map t l =
    let (n, all) = remove_fields-Lists fields map t 0 l in (omega (arith, n), all)

pub is_empty-Lists : (map : Fields) (t : Table) → Lists map t → is_empty map ≡ (t.size == 0)
unfolding is_empty
is_empty-Lists [] t l = ground (arith, l.size)
is_empty-Lists (pair ∷ map) t l = ground (arith, l.size)

pub order-Lists :
    (H : HashMaps) (key : Bytes) (now : ℕ) (map : Fields) (t : Table)
    → Lists map t
    → Lists (H.order key now map) t
order-Lists H key now map t l = record {
  size = H.order-length key now map ∙ l.size;
  unique = H.order-unique key now map l.unique;
  same = λ f. H.order-lookup key now map f l.unique ∙ l.same f;
}

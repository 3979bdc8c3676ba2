-- ===== src/Queues/Sync.antt =====
-- The queues of src/store.rs and their membership sets.
use mathlib.Core.Path.{subst}
use redistill.Base.{
  ap, ℕ, ◌≤◌, ◌<◌, ◌≡◌, refl, Bool, false, ◌||◌, ◌&&◌, not, List, [], ◌∷◌, ◌++◌, leb, Bytes, beq,
  beq_iff, length, arith, Bool-cases, inl, inr, length-append,
}
use redistill.Queues.Fifo.{
  KeySet, insert_key, remove_key, Fifo, retain_ne, remove_from, make_room, add_to, pop_from,
  pop_front, last_is, reinsert_tail,
}

abbrev pub elem : Bytes → List Bytes → Bool
elem j [] = false
elem j (k ∷ q) = beq j k || elem j q

-- No key stands twice.
abbrev pub Distinct : List Bytes → Type 0
Distinct [] = Unit
Distinct (k ∷ q) = (elem k q ≡ false) × Distinct q

-- The set is the set of the keys in the queue, each of which stands there once.
pub record IsSync (q : List Bytes) (members : KeySet) : Type 0 where
  pub agree : (j : Bytes) → members j ≡ elem j q
  pub distinct : Distinct q

elem-retain_ne :
    (key j : Bytes) (q : List Bytes) → elem j (retain_ne key q) ≡ (not (beq j key) && elem j q)
unfolding retain_ne
elem-retain_ne key j [] = ground arith
elem-retain_ne key j (k ∷ q) =
    ground (arith, elem-retain_ne key j q, beq_iff j key, beq_iff j k, beq_iff k key)

Distinct-retain_ne : (key : Bytes) (q : List Bytes) → Distinct q → Distinct (retain_ne key q)
unfolding retain_ne
Distinct-retain_ne key [] d = tt
Distinct-retain_ne key (k ∷ q) d =
    ground (arith, Distinct-retain_ne key q d.1, elem-retain_ne key k q)

IsSync-remove_key :
    (key : Bytes) (q : List Bytes) (members : KeySet)
    → IsSync q members
    → IsSync (retain_ne key q) (remove_key members key)
IsSync-remove_key key q members s = record {
  agree = λ j. ground (arith, elem-retain_ne key j q, s.agree j);
  distinct = Distinct-retain_ne key q s.distinct;
}

-- Without its front, a queue agrees with the set without that key.
IsSync-tail :
    (k : Bytes) (q : List Bytes) (members : KeySet)
    → IsSync (k ∷ q) members
    → IsSync q (remove_key members k)
IsSync-tail k q members s = record {
  agree = λ j. ground (arith, s.agree j, beq_iff j k, s.distinct.0);
  distinct = s.distinct.1;
}

elem-append : (j key : Bytes) (q : List Bytes) → elem j (q ++ key ∷ []) ≡ (elem j q || beq j key)
elem-append j key [] = ground arith
elem-append j key (k ∷ q) = ground (arith, elem-append j key q)

Distinct-append :
    (key : Bytes) (q : List Bytes) → elem key q ≡ false → Distinct q → Distinct (q ++ key ∷ [])
Distinct-append key [] h d = (refl, tt)
Distinct-append key (k ∷ q) h d =
    ground (arith, Distinct-append key q, elem-append k key q, beq_iff k key, beq_iff key k)

IsSync-insert_key :
    (key : Bytes) (q : List Bytes) (members : KeySet)
    → members key ≡ false
    → IsSync q members
    → IsSync (q ++ key ∷ []) (insert_key members key)
IsSync-insert_key key q members h s = record {
  agree = λ j. ground (arith, elem-append j key q, s.agree j);
  distinct = Distinct-append key q (ground (arith, s.agree key)) s.distinct;
}

make_room-IsSync :
    (capacity : ℕ) (q : List Bytes) (members : KeySet)
    → IsSync q members
    → IsSync (make_room capacity q members).0 (make_room capacity q members).1
unfolding make_room
make_room-IsSync capacity [] members s = s
make_room-IsSync capacity (k ∷ q) members s = elim (Bool-cases (leb capacity (length (k ∷ q)))) [
  | inl e ↦ rw e (make_room-IsSync capacity q (remove_key members k) (IsSync-tail k q members s))
  | inr e ↦ rw e s
]

-- Room is made by dropping keys only.
make_room-lacks :
    (capacity : ℕ) (q : List Bytes) (members : KeySet) (key : Bytes)
    → members key ≡ false
    → (make_room capacity q members).1 key ≡ false
unfolding make_room
make_room-lacks capacity [] members key h = h
make_room-lacks capacity (k ∷ q) members key h =
    ground (arith, make_room-lacks capacity q (remove_key members k) key)

length-make_room :
    (capacity : ℕ) (q : List Bytes) (members : KeySet)
    → 0 < capacity
    → length (make_room capacity q members).0 < capacity
unfolding make_room
length-make_room capacity [] members h = h
length-make_room capacity (k ∷ q) members h =
    ground (arith, length-make_room capacity q (remove_key members k) h)

pub length-retain_ne : (key : Bytes) (q : List Bytes) → length (retain_ne key q) ≤ length q
unfolding retain_ne
length-retain_ne key [] = omega arith
length-retain_ne key (k ∷ q) = ground (arith, length-retain_ne key q)

-- A queue within its capacity that agrees with its set.
pub record IsValid (f : Fifo) : Type 0 where
  pub sync : IsSync f.queue f.members
  pub room : 0 < f.capacity
  pub bounded : length f.queue ≤ f.capacity

-- Adding a key, new or old, to a valid queue leaves it valid. A queue is valid if its set holds
-- just its keys, each stands in it once, and it is within its capacity, which is not 0.
pub add_to-IsValid : (f : Fifo) (key : Bytes) → IsValid f → IsValid (add_to f key)
unfolding add_to
add_to-IsValid f key v = elim (Bool-cases (f.members key)) [
  | inl e ↦ rw e v
  | inr e ↦
      let (q, members) = make_room f.capacity f.queue f.members in
      rw e (record {
        sync =
            IsSync-insert_key key q members (make_room-lacks f.capacity f.queue f.members key e)
              (make_room-IsSync f.capacity f.queue f.members v.sync);
        room = v.room;
        bounded = omega (
          arith,
          length-append q (key ∷ []),
          length-make_room f.capacity f.queue f.members v.room,
        );
      })
]

-- Removing a key from a valid queue leaves it valid.
pub remove_from-IsValid : (f : Fifo) (key : Bytes) → IsValid f → IsValid (remove_from f key).0
unfolding remove_from
remove_from-IsValid f key v = elim (Bool-cases (f.members key)) [
  | inl e ↦ rw e (record {
    sync = IsSync-remove_key key f.queue f.members v.sync;
    room = v.room;
    bounded = omega (arith, length-retain_ne key f.queue, v.bounded);
  })
  | inr e ↦ rw e v
]

-- Reinserting a key, wherever it stands in a valid queue or if it is missing, leaves it valid.
pub reinsert_tail-IsValid : (f : Fifo) (key : Bytes) → IsValid f → IsValid (reinsert_tail f key)
unfolding reinsert_tail
reinsert_tail-IsValid f key v = elim (Bool-cases (last_is key f.queue)) [
  | inl e ↦ rw e v
  | inr e ↦ elim (Bool-cases (f.members key)) [
    | inl m ↦ rw (e, m) (add_to-IsValid (remove_from f key).0 key (remove_from-IsValid f key v))
    | inr m ↦ rw (e, m) (add_to-IsValid f key v)
  ]
]

pop_from-IsValid : (q : List Bytes) (f : Fifo) → f.queue ≡ q → IsValid f → IsValid (pop_from q f).1
unfolding pop_from
pop_from-IsValid [] f e v = v
pop_from-IsValid (k ∷ q) f e v = record {
  sync = IsSync-tail k q f.members (subst (λ l. IsSync l f.members) e v.sync);
  room = v.room;
  bounded = omega (arith, ap length e, v.bounded);
}

-- Popping the oldest key of a valid queue, which may be empty, leaves it valid.
pub pop_front-IsValid : (f : Fifo) → IsValid f → IsValid (pop_front f).1
unfolding pop_front
pop_front-IsValid f v = pop_from-IsValid f.queue f refl v

-- ===== src/Queues/Tail.antt =====
-- Where src/store.rs puts a key in a queue, and which key leaves it.
use redistill.Base.{
  sym, ◌∙◌, ℕ, ◌<◌, ◌≡◌, refl, true, false, List, [], ◌∷◌, ◌++◌, Bytes, beq_iff, beq_refl, length,
  arith, Bool-cases, inl, inr, ap,
}
use redistill.Queues.Fifo.{
  KeySet, remove_key, Fifo, retain_ne, remove_from, make_room, add_to, last_is, reinsert_tail,
}
use redistill.Queues.Sync.{IsValid, elem, length-retain_ne}

make_room_unneeded :
    (capacity : ℕ) (q : List Bytes) (members : KeySet)
    → length q < capacity
    → (make_room capacity q members).0 ≡ q
unfolding make_room
make_room_unneeded capacity [] members h = refl
make_room_unneeded capacity (k ∷ q) members h = ground arith

-- A new key joins at the tail, and nothing leaves while there is room.
pub add_to_room :
    (f : Fifo) (key : Bytes)
    → f.members key ≡ false
    → length f.queue < f.capacity
    → (add_to f key).queue ≡ f.queue ++ key ∷ []
unfolding add_to
add_to_room f key new room = rw (new, make_room_unneeded f.capacity f.queue f.members room)

-- In a queue that is just full the oldest key, and no other, makes way for a new one, which joins
-- at the tail.
pub add_to_full :
    (f : Fifo) (oldest key : Bytes) (q : List Bytes)
    → f.members key ≡ false
    → f.queue ≡ oldest ∷ q
    → length f.queue ≡ f.capacity
    → (add_to f key).queue ≡ q ++ key ∷ []
unfolding add_to make_room
add_to_full f oldest key q new e full =
    ground (arith, ap length e, make_room_unneeded f.capacity q (remove_key f.members oldest))

last_is-append : (key : Bytes) (q : List Bytes) → last_is key (q ++ key ∷ []) ≡ true
unfolding last_is
last_is-append key [] = beq_refl key
last_is-append key (k ∷ []) = beq_refl key
last_is-append key (k ∷ l ∷ q) = last_is-append key (l ∷ q)

add_to_lacking :
    (f : Fifo) (key : Bytes) → f.members key ≡ false → last_is key (add_to f key).queue ≡ true
unfolding add_to
add_to_lacking f key new = rw new (last_is-append key (make_room f.capacity f.queue f.members).0)

-- After a reinsertion the key is at the tail, wherever it stood before, or if it was missing.
pub reinsert_tail-last_is :
    (f : Fifo) (key : Bytes) → last_is key (reinsert_tail f key).queue ≡ true
unfolding reinsert_tail remove_from
reinsert_tail-last_is f key = ground (
  arith,
  beq_refl key,
  add_to_lacking f key,
  add_to_lacking (record f { queue = retain_ne key f.queue; members = remove_key f.members key })
      key,
)

retain_ne-append : (key : Bytes) (q : List Bytes) → retain_ne key (q ++ key ∷ []) ≡ retain_ne key q
unfolding retain_ne
retain_ne-append key [] = rw (beq_refl key)
retain_ne-append key (k ∷ q) = rw (retain_ne-append key q)

retain_ne_again : (key : Bytes) (q : List Bytes) → retain_ne key (retain_ne key q) ≡ retain_ne key q
unfolding retain_ne
retain_ne_again key [] = refl
retain_ne_again key (k ∷ q) = ground (arith, retain_ne_again key q)

length-retain_ne-lt :
    (key : Bytes) (q : List Bytes) → elem key q ≡ true → length (retain_ne key q) < length q
unfolding retain_ne
length-retain_ne-lt key [] h = cc
length-retain_ne-lt key (k ∷ q) h =
    ground (arith, length-retain_ne-lt key q, length-retain_ne key q, beq_iff key k, beq_iff k key)

retain_ne-add_to-remove_from :
    (f : Fifo) (key : Bytes)
    → IsValid f
    → f.members key ≡ true
    → retain_ne key (add_to (remove_from f key).0 key).queue ≡ retain_ne key f.queue
unfolding remove_from
retain_ne-add_to-remove_from f key v old =
    let present : elem key f.queue ≡ true = sym (v.sync.agree key) ∙ old in
    let shrunk : Fifo = record f {
      queue = retain_ne key f.queue;
      members = remove_key f.members key;
    } in
    let fits : length (retain_ne key f.queue) < f.capacity =
      omega (arith, length-retain_ne-lt key f.queue present, v.bounded) in
    rw (old, add_to_room shrunk key (ground (arith, beq_refl key)) fits)
      (retain_ne-append key (retain_ne key f.queue) ∙ retain_ne_again key f.queue)

-- Reinserting a key of a valid queue moves that key alone: the others keep their order, and none
-- leaves.
pub retain_ne-reinsert_tail :
    (f : Fifo) (key : Bytes)
    → IsValid f
    → f.members key ≡ true
    → retain_ne key (reinsert_tail f key).queue ≡ retain_ne key f.queue
unfolding reinsert_tail
retain_ne-reinsert_tail f key v old = elim (Bool-cases (last_is key f.queue)) [
  | inl e ↦ rw e
  | inr e ↦ rw (e, old) (retain_ne-add_to-remove_from f key v old)
]

-- ===== src/Examples/Fifos.antt =====
-- The results on the queues, each applied to a queue of two keys.
use redistill.Base.{refl, [], ◌∷◌, arith, ◌||◌, codes, beq}
use redistill.Queues.Fifo.{Fifo, add_to}
use redistill.Queues.Sync.{IsValid, add_to-IsValid}

-- Two keys in a queue of two.
abbrev full : Fifo
full = record {
  queue = codes "a" ∷ codes "b" ∷ [];
  members = λ j. beq j (codes "a") || beq j (codes "b");
  capacity = 2;
}

full-IsValid : IsValid full
unfolding beq
full-IsValid = record {
  sync = record { agree = λ j. ground arith; distinct = (refl, (refl, tt)) };
  room = omega arith;
  bounded = omega arith;
}

add_to_example : IsValid (add_to full (codes "c"))
add_to_example = add_to-IsValid full (codes "c") full-IsValid

-- ===== src/Queues/Ghost.antt =====
-- The Ghost queue of src/store.rs: hashes of keys that were evicted from the Small queue.
use redistill.Base.{
  ℕ, ◌≡◌, Bool, true, false, ◌||◌, ◌&&◌, not, List, [], ◌∷◌, ◌++◌, leb, ◌==◌, if◌then◌else◌, length,
  arith,
}

pub record GhostEntry : Type 0 where
  pub key_hash : ℕ
  pub evicted_at : ℕ

pub record Ghost : Type 0 where
  pub queue : List GhostEntry
  pub hashes : ℕ → Bool
  pub capacity : ℕ

abbrev pub insert_hash : (ℕ → Bool) → ℕ → ℕ → Bool
insert_hash set h j = j == h || set j

abbrev pub remove_hash : (ℕ → Bool) → ℕ → ℕ → Bool
remove_hash set h j = not (j == h) && set j

unfoldable pub is_in_ghost : Ghost → ℕ → Bool
is_in_ghost g key_hash = g.hashes key_hash

-- the front, if the queue is full
unfoldable pub drop_oldest : ℕ → List GhostEntry → (ℕ → Bool) → List GhostEntry × (ℕ → Bool)
drop_oldest capacity [] hashes = ([], hashes)
drop_oldest capacity (oldest ∷ q) hashes =
    if leb capacity (length (oldest ∷ q))
    then (q, remove_hash hashes oldest.key_hash)
    else (oldest ∷ q, hashes)

unfoldable pub add_to_ghost : Ghost → ℕ → ℕ → Ghost
unfolding drop_oldest
add_to_ghost g key_hash now =
    let (q, hashes) = drop_oldest g.capacity g.queue g.hashes in
    record g {
      queue = q ++ record { key_hash = key_hash; evicted_at = now } ∷ [];
      hashes = insert_hash hashes key_hash;
    }

unfoldable pub retain_hash : ℕ → List GhostEntry → List GhostEntry
retain_hash h [] = []
retain_hash h (e ∷ q) = let rest = retain_hash h q in if e.key_hash == h then rest else e ∷ rest

unfoldable pub remove_from_ghost : Ghost → ℕ → Ghost
unfolding retain_hash
remove_from_ghost g key_hash =
    if g.hashes key_hash
    then record g { queue = retain_hash key_hash g.queue; hashes = remove_hash g.hashes key_hash }
    else g

abbrev pub has_hash : ℕ → List GhostEntry → Bool
has_hash h [] = false
has_hash h (e ∷ q) = h == e.key_hash || has_hash h q

-- Every hash of the set stands in the queue. (The queue may hold one hash twice.)
abbrev pub IsBacked : Ghost → Type 0
IsBacked g = (h : ℕ) → g.hashes h ≡ true → has_hash h g.queue ≡ true

has_hash-append :
    (h : ℕ) (e : GhostEntry) (q : List GhostEntry)
    → has_hash h (q ++ e ∷ []) ≡ (has_hash h q || h == e.key_hash)
has_hash-append h e [] = ground arith
has_hash-append h e (x ∷ q) = ground (arith, has_hash-append h e q)

has_hash-retain_hash :
    (h j : ℕ) (q : List GhostEntry) → has_hash j (retain_hash h q) ≡ (not (j == h) && has_hash j q)
unfolding retain_hash
has_hash-retain_hash h j [] = ground arith
has_hash-retain_hash h j (x ∷ q) = ground (arith, has_hash-retain_hash h j q)

drop_oldest-IsBacked :
    (capacity : ℕ) (q : List GhostEntry) (hashes : ℕ → Bool) (h : ℕ)
    → (hashes h ≡ true → has_hash h q ≡ true)
    → (drop_oldest capacity q hashes).1 h ≡ true
    → has_hash h (drop_oldest capacity q hashes).0 ≡ true
unfolding drop_oldest
drop_oldest-IsBacked capacity [] hashes h b = b
drop_oldest-IsBacked capacity (x ∷ q) hashes h b = ground arith

-- Adding a hash to the Ghost queue keeps every hash of its set in its queue, and the new hash is
-- found. Every hash of the set was in the queue before.
pub add_to_ghost-IsBacked :
    (g : Ghost) (key_hash now : ℕ)
    → IsBacked g
    → IsBacked (add_to_ghost g key_hash now)
      × (is_in_ghost (add_to_ghost g key_hash now) key_hash ≡ true)
unfolding add_to_ghost is_in_ghost
add_to_ghost-IsBacked g key_hash now b = (
  λ h. ground (
    arith,
    drop_oldest-IsBacked g.capacity g.queue g.hashes h (b h),
    has_hash-append h (record { key_hash = key_hash; evicted_at = now })
        (drop_oldest g.capacity g.queue g.hashes).0,
  ),
  ground arith,
)

-- Removing a hash from the Ghost queue keeps every other hash of its set in its queue, and the hash
-- is not found. Every hash of the set was in the queue before.
pub remove_from_ghost-IsBacked :
    (g : Ghost) (key_hash : ℕ)
    → IsBacked g
    → IsBacked (remove_from_ghost g key_hash)
      × (is_in_ghost (remove_from_ghost g key_hash) key_hash ≡ false)
unfolding remove_from_ghost is_in_ghost
remove_from_ghost-IsBacked g key_hash b =
    (λ h. ground (arith, b h, has_hash-retain_hash key_hash h g.queue), ground arith)

-- ===== src/Queues/Fifo.antt =====
-- `remove_from_small`, `add_to_small` and the same functions for the Main queue, in src/store.rs. A
-- `VecDeque` is a list, front first, and a hash set is the function that answers `contains`.
use redistill.Base.{
  ℕ, Bool, true, false, ◌||◌, ◌&&◌, not, Option, none, some, List, [], ◌∷◌, ◌++◌, leb,
  if◌then◌else◌, Bytes, beq, length,
}

abbrev pub KeySet : Type 0
KeySet = Bytes → Bool

abbrev pub insert_key : KeySet → Bytes → KeySet
insert_key set key j = beq j key || set j

abbrev pub remove_key : KeySet → Bytes → KeySet
remove_key set key j = not (beq j key) && set j

pub record Fifo : Type 0 where
  pub queue : List Bytes
  pub members : KeySet
  pub capacity : ℕ

-- `retain(|k| k != key)`
unfoldable pub retain_ne : Bytes → List Bytes → List Bytes
retain_ne key [] = []
retain_ne key (k ∷ q) = let rest = retain_ne key q in if beq k key then rest else k ∷ rest

-- `remove_from_small`, `remove_from_main`
unfoldable pub remove_from : Fifo → Bytes → Fifo × Bool
unfolding retain_ne
remove_from f key =
    if f.members key
    then (record f { queue = retain_ne key f.queue; members = remove_key f.members key }, true)
    else (f, false)

-- `while queue.len() >= capacity`: the oldest key leaves the queue and the set.
unfoldable pub make_room : ℕ → List Bytes → KeySet → List Bytes × KeySet
make_room capacity [] members = ([], members)
make_room capacity (oldest ∷ q) members =
    let rest = make_room capacity q (remove_key members oldest) in
    if leb capacity (length (oldest ∷ q)) then rest else (oldest ∷ q, members)

-- `add_to_small`, `add_to_main`
unfoldable pub add_to : Fifo → Bytes → Fifo
add_to f key =
    let (q, members) = make_room f.capacity f.queue f.members in
    if f.members key
    then f
    else record f { queue = q ++ key ∷ []; members = insert_key members key }

-- `if let Some(key) = queue.pop_front() { set.remove(&key); … }` of `evict_s3fifo`
unfoldable pub pop_from : List Bytes → Fifo → Option Bytes × Fifo
pop_from [] f = (none, f)
pop_from (oldest ∷ q) f =
    (some oldest, record f { queue = q; members = remove_key f.members oldest })

unfoldable pub pop_front : Fifo → Option Bytes × Fifo
unfolding pop_from
pop_front f = pop_from f.queue f

-- `back()`
unfoldable pub last_is : Bytes → List Bytes → Bool
last_is key [] = false
last_is key (k ∷ []) = beq k key
last_is key (k ∷ l ∷ q) = last_is key (l ∷ q)

-- `reinsert_main_tail`
unfoldable pub reinsert_tail : Fifo → Bytes → Fifo
unfolding last_is
reinsert_tail f key =
    if last_is key f.queue
    then f
    else if f.members key
    then add_to (remove_from f key).0 key
    else add_to f key

-- ===== src/Store/View.antt =====
-- What `ShardedStore` of src/store.rs promises: a map from keys to values that expire. Shards, queues,
-- accounts, and entries that have expired and wait for their removal are forgotten.
use redistill.Base.{
  ℕ, zero, suc, ◌+◌, ◌-◌, ◌*◌, ◌/◌, ◌%◌, ◌^◌, ◌≤◌, ◌<◌, min, max, ◌≡◌, refl, sym, ap, ◌∙◌, ◌≢◌, ◌↔◌,
  ◌⊎◌, inl, inr, Bool, true, false, ◌&&◌, ◌||◌, not, Option, none, some, List, [], ◌∷◌, ◌++◌,
  append_assoc, append-nil, arith, ltb, leb, ◌==◌, if◌then◌else◌, Bytes, codes, beq, length, take,
  drop, All, length-append, take-append, Bool-cases, Option-cases, le→ltb, lt→ltb, beq_iff,
  beq_refl, get_or,
}
pub mod FieldSets
pub mod Tables
pub mod Meaning
pub mod Lookups
pub mod Moves
pub mod HashSteps
pub mod HashRemoval
pub mod Steps
pub mod Traces
use redistill.Store.Entry.{HashMaps, Entry, EntryValue, Fields, field_get, string, hash, is_expired}
use redistill.Store.Hashes.{
  Reply, ok, wrong_type, insert_fields, remove_fields, is_empty, flatten_fields, hset, hget,
  hgetall, hdel,
}
use redistill.Store.State.{Env, Store, IsWf, find}
use redistill.Store.Strings.{
  expiry_of, as_string, KeyType, no_key, type_of, set, get, key_type, delete, exists,
}

-- A value with its expiry.
abbrev pub Item : Type 0
Item = EntryValue × Option ℕ

-- The map as one would write it down: one item per key, expired or not.
abbrev pub Items : Type 0
Items = Bytes → Option Item

abbrev pub item_of : Option Entry → Option Item
item_of none = none
item_of (some e) = some (e.value, e.expiry)

-- What can be seen of an item at a time.
abbrev pub seen : ℕ → Option Item → Option Item
seen now none = none
seen now (some (value, expiry)) = if is_expired now expiry then none else some (value, expiry)

pub data Request : Type 0 where
  set_request : Bytes → Bytes → Option ℕ → Request
  get_request : Bytes → Request
  type_request : Bytes → Request
  delete_request : List Bytes → Request
  exists_request : List Bytes → Request
  hset_request : Bytes → Fields → Request
  hget_request : Bytes → Bytes → Request
  hgetall_request : Bytes → Request
  hdel_request : Bytes → List Bytes → Request

pub data Response : Type 0 where
  stored : Response
  value : Option Bytes → Response
  type_name : KeyType → Response
  count : ℕ → Response
  new_fields : Reply ℕ → Response
  field : Reply (Option Bytes) → Response
  all_of : Reply (List Bytes) → Response
  gone_fields : Reply ℕ → Response

-- The operations of the store.
unfoldable pub respond : (E : Env) → Store E → Request → ℕ → Response × Store E
respond E s (set_request key v ttl) now = (stored, (set E s key v ttl now).1)
respond E s (get_request key) now = let (v, t) = get E s key now in (value v, t)
respond E s (type_request key) now = let (k, t) = key_type E s key now in (type_name k, t)
respond E s (delete_request keys) now = let (n, t) = delete E s keys now in (count n, t)
respond E s (exists_request keys) now = (count (exists E s keys now), s)
respond E s (hset_request key fields) now =
    let (n, t) = hset E s key fields now in (new_fields n, t)
respond E s (hget_request key f) now = let (v, t) = hget E s key f now in (field v, t)
respond E s (hgetall_request key) now = let (v, t) = hgetall E s key now in (all_of v, t)
respond E s (hdel_request key fields) now =
    let (n, t) = hdel E s key fields now in (gone_fields n, t)

-- The same on the map.
abbrev pub string_of : Option Item → Option Bytes
string_of none = none
string_of (some (v, expiry)) = as_string v

abbrev pub kind_of : Option Item → KeyType
kind_of none = no_key
kind_of (some (v, expiry)) = type_of v

abbrev pub one_if_some : Option Item → ℕ
one_if_some none = 0
one_if_some (some item) = 1

abbrev pub update : Items → Bytes → Option Item → Items
update m key item j = if beq key j then item else m j

-- Each key is counted once it is there, and gone behind that.
abbrev pub remove_all : Items → List Bytes → ℕ → ℕ × Items
remove_all m [] now = (0, m)
remove_all m (key ∷ keys) now =
    let (n, rest) = remove_all (update m key none) keys now in
    (one_if_some (seen now (m key)) + n, rest)

abbrev pub count_all : Items → List Bytes → ℕ → ℕ
count_all m [] now = 0
count_all m (key ∷ keys) now = one_if_some (seen now (m key)) + count_all m keys now

-- HSET makes a hash where nothing is seen, and sets the fields of the one that is seen.
abbrev pub with_fields : Items → Bytes → Fields → Option Item → Reply ℕ × Items
with_fields m key fields none =
    let (n, map) = insert_fields fields [] 0 in (ok n, update m key (some (hash map, none)))
with_fields m key fields (some (string v, expiry)) = (wrong_type, m)
with_fields m key fields (some (hash map, expiry)) =
    let (n, map') = insert_fields fields map 0 in (ok n, update m key (some (hash map', expiry)))

abbrev pub field_in : Bytes → Option Item → Reply (Option Bytes)
field_in f none = ok none
field_in f (some (string v, expiry)) = wrong_type
field_in f (some (hash map, expiry)) = ok (field_get f map)

abbrev pub fields_in : HashMaps → Bytes → ℕ → Option Item → Reply (List Bytes)
fields_in H key now none = ok []
fields_in H key now (some (string v, expiry)) = wrong_type
fields_in H key now (some (hash map, expiry)) = ok (flatten_fields (H.order key now map))

-- HDEL takes the key with its last field.
abbrev pub without_fields : Items → Bytes → List Bytes → Option Item → Reply ℕ × Items
without_fields m key fields none = (ok 0, m)
without_fields m key fields (some (string v, expiry)) = (wrong_type, m)
without_fields m key fields (some (hash map, expiry)) =
    let (n, map') = remove_fields fields map 0 in
    (ok n, update m key (if ltb 0 n && is_empty map' then none else some (hash map', expiry)))

abbrev pub specified : HashMaps → Items → Request → ℕ → Response × Items
specified H m (set_request key v ttl) now =
    (stored, update m key (some (string v, expiry_of ttl now)))
specified H m (get_request key) now = (value (string_of (seen now (m key))), m)
specified H m (type_request key) now = (type_name (kind_of (seen now (m key))), m)
specified H m (delete_request keys) now = let (n, rest) = remove_all m keys now in (count n, rest)
specified H m (exists_request keys) now = (count (count_all m keys now), m)
specified H m (hset_request key fields) now =
    let (n, rest) = with_fields m key fields (seen now (m key)) in (new_fields n, rest)
specified H m (hget_request key f) now = (field (field_in f (seen now (m key))), m)
specified H m (hgetall_request key) now = (all_of (fields_in H key now (seen now (m key))), m)
specified H m (hdel_request key fields) now =
    let (n, rest) = without_fields m key fields (seen now (m key)) in (gone_fields n, rest)

-- The store is well-formed and shows what the map shows, from a time on.
pub record Shows (E : Env) (now : ℕ) (s : Store E) (m : Items) : Type 0 where
  pub wf : IsWf E s
  pub same :
      (j : Bytes) (later : ℕ) → now ≤ later → seen later (item_of (find E s j)) ≡ seen later (m j)

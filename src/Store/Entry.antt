-- ===== src/Store/Entry.antt =====
-- Entries of src/store.rs, and their sizes.
use redistill.Store.Dash.{lookup, Unique}
use redistill.Base.{
  ℕ, ◌+◌, ◌≡◌, Bool, false, Option, none, some, List, [], ◌∷◌, leb, ◌==◌, if◌then◌else◌, Bytes, beq,
  length,
}

-- `HashMap<Bytes, Bytes>` as a set of pairs. The order in the list is of the model only: what iterates
-- over a map goes by the order of `HashMaps`.
abbrev pub Fields : Type 0
Fields = List (Bytes × Bytes)

-- The iterator of std's `HashMap` visits each pair once, in an order that each map has of its own and
-- that is not known: `order key now` is that of the map under a key, at a time.
pub record HashMaps : Type 0 where
  pub order : Bytes → ℕ → Fields → Fields
  pub order-length :
      (key : Bytes) (now : ℕ) (map : Fields) → length (order key now map) ≡ length map
  pub order-unique :
      (key : Bytes) (now : ℕ) (map : Fields) → Unique map → Unique (order key now map)
  pub order-lookup :
      (key : Bytes) (now : ℕ) (map : Fields) (f : Bytes)
      → Unique map
      → lookup f (order key now map) ≡ lookup f map

pub data EntryValue : Type 0 where
  string : Bytes → EntryValue
  hash : Fields → EntryValue

pub data QueueType : Type 0 where
  small main : QueueType

-- `QueueType as u8`
abbrev pub as_u8 : QueueType → ℕ
as_u8 small = 0
as_u8 main = 1

-- `From<u8> for QueueType`
unfoldable pub queue_type_from : ℕ → QueueType
queue_type_from value = if value == 0 then small else if value == 1 then main else small

pub record Entry : Type 0 where
  pub value : EntryValue
  pub expiry : Option ℕ
  pub last_accessed : ℕ
  pub queue_type : ℕ
  pub access_count : ℕ

-- `now >= expiry`, where there is an expiry
unfoldable pub is_expired : ℕ → Option ℕ → Bool
is_expired now none = false
is_expired now (some expiry) = leb expiry now

unfoldable pub entry_size : ℕ → ℕ → ℕ
entry_size key_len value_len = key_len + value_len + 64

-- the loop `size += k.len() + v.len()`
unfoldable pub add_sizes : ℕ → Fields → ℕ
add_sizes size [] = size
add_sizes size ((k, v) ∷ fields) = add_sizes (size + (length k + length v)) fields

unfoldable pub calculate_entry_size : ℕ → EntryValue → ℕ
unfolding entry_size add_sizes
calculate_entry_size key_len (string bytes) = entry_size key_len (length bytes)
calculate_entry_size key_len (hash fields) = add_sizes (key_len + 64 + 128) fields

-- What a key with its entry counts for in the accounts.
unfoldable pub size_of : Bytes → Entry → ℕ
size_of key e = calculate_entry_size (length key) e.value

-- `HashMap::get`
unfoldable pub field_get : Bytes → Fields → Option Bytes
field_get f [] = none
field_get f ((g, v) ∷ fields) = if beq g f then some v else field_get f fields

-- `HashMap::insert`
unfoldable pub field_insert : Bytes → Bytes → Fields → Fields
field_insert f v [] = (f, v) ∷ []
field_insert f v ((g, u) ∷ fields) =
    let rest = field_insert f v fields in if beq g f then (f, v) ∷ fields else (g, u) ∷ rest

-- `HashMap::remove`
unfoldable pub field_remove : Bytes → Fields → Fields
field_remove f [] = []
field_remove f ((g, u) ∷ fields) =
    let rest = field_remove f fields in if beq g f then fields else (g, u) ∷ rest

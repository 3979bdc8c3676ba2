-- ===== src/Store/View/Tables.antt =====
-- What a client of src/store.rs is promised, with the fields of a hash as a finite map: HGETALL lists
-- them in whatever order.
use redistill.Base.{
  ℕ, ◌+◌, ◌≡◌, ◌&&◌, Option, none, some, List, [], ◌∷◌, ltb, ◌==◌, if◌then◌else◌, Bytes, beq,
}
use redistill.Store.Entry.{Fields, is_expired}
use redistill.Store.Hashes.{Reply, ok, wrong_type}
use redistill.Store.Strings.{expiry_of, KeyType, no_key, string_key, hash_key}
use redistill.Store.View.{
  Request, set_request, get_request, type_request, delete_request, exists_request, hset_request,
  hget_request, hgetall_request, hdel_request, Response, stored, value, type_name, count,
  new_fields, field, all_of, gone_fields,
}
use redistill.Store.View.FieldSets.{Table, no_fields, put_fields, cut_fields, Lists, in_turn}

pub data Content : Type 0 where
  text : Bytes → Content
  table : Table → Content

-- The map from keys to contents that expire.
abbrev pub Kept : Type 0
Kept = Option (Content × Option ℕ)

abbrev pub Tables : Type 0
Tables = Bytes → Kept

abbrev pub live : ℕ → Kept → Kept
live now none = none
live now (some (c, expiry)) = if is_expired now expiry then none else some (c, expiry)

-- A reply that is fixed, or the fields of a table in whatever order.
pub data Promise : Type 0 where
  exactly : Response → Promise
  listing : Table → Promise

abbrev pub Keeps : Response → Promise → Type 0
Keeps reply (exactly r) = reply ≡ r
Keeps reply (listing t) = (pairs : Fields) × (reply ≡ all_of (ok (in_turn pairs))) × Lists pairs t

abbrev pub put_key : Tables → Bytes → Kept → Tables
put_key m key kept j = if beq key j then kept else m j

abbrev pub one_if_kept : Kept → ℕ
one_if_kept none = 0
one_if_kept (some c) = 1

abbrev pub remove_keys : Tables → List Bytes → ℕ → ℕ × Tables
remove_keys m [] now = (0, m)
remove_keys m (key ∷ keys) now =
    let (n, rest) = remove_keys (put_key m key none) keys now in
    (one_if_kept (live now (m key)) + n, rest)

abbrev pub count_keys : Tables → List Bytes → ℕ → ℕ
count_keys m [] now = 0
count_keys m (key ∷ keys) now = one_if_kept (live now (m key)) + count_keys m keys now

abbrev pub text_of : Kept → Option Bytes
text_of none = none
text_of (some (text v, expiry)) = some v
text_of (some (table t, expiry)) = none

abbrev pub type_of_kept : Kept → KeyType
type_of_kept none = no_key
type_of_kept (some (text v, expiry)) = string_key
type_of_kept (some (table t, expiry)) = hash_key

-- HSET makes a table where nothing is live, and keeps the expiry of the one that is.
abbrev pub put_in : Tables → Bytes → Fields → Kept → Reply ℕ × Tables
put_in m key fields none =
    let (n, t) = put_fields fields no_fields in (ok n, put_key m key (some (table t, none)))
put_in m key fields (some (text v, expiry)) = (wrong_type, m)
put_in m key fields (some (table t, expiry)) =
    let (n, last) = put_fields fields t in (ok n, put_key m key (some (table last, expiry)))

abbrev pub at_field : Bytes → Kept → Reply (Option Bytes)
at_field f none = ok none
at_field f (some (text v, expiry)) = wrong_type
at_field f (some (table t, expiry)) = ok (t.at f)

abbrev pub all_at : Kept → Promise
all_at none = exactly (all_of (ok []))
all_at (some (text v, expiry)) = exactly (all_of wrong_type)
all_at (some (table t, expiry)) = listing t

-- HDEL takes the key with its last field.
abbrev pub cut_in : Tables → Bytes → List Bytes → Kept → Reply ℕ × Tables
cut_in m key fields none = (ok 0, m)
cut_in m key fields (some (text v, expiry)) = (wrong_type, m)
cut_in m key fields (some (table t, expiry)) =
    let (n, last) = cut_fields fields t in
    (ok n, put_key m key (if ltb 0 n && last.size == 0 then none else some (table last, expiry)))

abbrev pub promised : Tables → Request → ℕ → Promise × Tables
promised m (set_request key v ttl) now =
    (exactly stored, put_key m key (some (text v, expiry_of ttl now)))
promised m (get_request key) now = (exactly (value (text_of (live now (m key)))), m)
promised m (type_request key) now = (exactly (type_name (type_of_kept (live now (m key)))), m)
promised m (delete_request keys) now =
    let (n, rest) = remove_keys m keys now in (exactly (count n), rest)
promised m (exists_request keys) now = (exactly (count (count_keys m keys now)), m)
promised m (hset_request key fields) now =
    let (n, rest) = put_in m key fields (live now (m key)) in (exactly (new_fields n), rest)
promised m (hget_request key f) now = (exactly (field (at_field f (live now (m key)))), m)
promised m (hgetall_request key) now = (all_at (live now (m key)), m)
promised m (hdel_request key fields) now =
    let (n, rest) = cut_in m key fields (live now (m key)) in (exactly (gone_fields n), rest)

-- ===== src/Store/View/Meaning.antt =====
-- The map of Store/View, whose hashes are lists of pairs, against that of Store/View/Tables.
use redistill.Base.{
  ℕ, ◌≡◌, refl, ap, ◌∙◌, Bool, true, false, Option, none, some, List, [], ◌∷◌, arith, if◌then◌else◌,
  Bytes, beq, Bool-cases, inl, inr,
}
use redistill.Store.Entry.{HashMaps, Fields, string, hash, is_expired}
use redistill.Store.Hashes.{ok}
use redistill.Store.Strings.{expiry_of, as_string, type_of}
use redistill.Store.View.{
  Item, Items, seen, Request, set_request, get_request, type_request, delete_request,
  exists_request, hset_request, hget_request, hgetall_request, hdel_request, value, type_name,
  count, new_fields, field, all_of, gone_fields, specified, one_if_some, update, remove_all,
  count_all, string_of, kind_of, with_fields, field_in, fields_in, without_fields,
}
use redistill.Store.View.FieldSets.{
  Table, no_fields, Lists, flatten_fields-in_turn, field_get-lookup, insert_all-Lists,
  remove_all-Lists, is_empty-Lists, order-Lists, no_fields-Lists,
}
use redistill.Store.View.Tables.{
  text, table, Kept, Tables, live, Keeps, put_key, one_if_kept, remove_keys, count_keys, text_of,
  type_of_kept, put_in, at_field, all_at, cut_in, promised,
}

-- The same content with the same expiry.
pub data Same : Option Item → Kept → Type 0 where
  absent : Same none none
  texts : (v : Bytes) (x : Option ℕ) → Same (some (string v, x)) (some (text v, x))
  tables :
      (map : Fields) (t : Table) (x : Option ℕ)
      → Lists map t
      → Same (some (hash map, x)) (some (table t, x))

abbrev pub Means : Items → Tables → Type 0
Means m ts = (key : Bytes) → Same (m key) (ts key)

pub seen-Same : (now : ℕ) {i : Option Item} {k : Kept} → Same i k → Same (seen now i) (live now k)
seen-Same now absent = absent
seen-Same now (texts v x) = elim (Bool-cases (is_expired now x)) [
  | inl over ↦ rw over absent
  | inr on ↦ rw on (texts v x)
]
seen-Same now (tables map t x l) = elim (Bool-cases (is_expired now x)) [
  | inl over ↦ rw over absent
  | inr on ↦ rw on (tables map t x l)
]

pub update-Means :
    (m : Items) (ts : Tables) (key : Bytes) (i : Option Item) (k : Kept)
    → Means m ts
    → Same i k
    → Means (update m key i) (put_key ts key k)
update-Means m ts key i k means s j = elim (Bool-cases (beq key j)) [
  | inl here ↦ rw here s
  | inr there ↦ rw there (means j)
]

one-Same : {i : Option Item} {k : Kept} → Same i k → one_if_some i ≡ one_if_kept k
one-Same absent = refl
one-Same (texts v x) = refl
one-Same (tables map t x l) = refl

pub remove_all-Means :
    (now : ℕ) (m : Items) (ts : Tables) (keys : List Bytes)
    → Means m ts
    → ((remove_all m keys now).0 ≡ (remove_keys ts keys now).0)
      × Means (remove_all m keys now).1 (remove_keys ts keys now).1
remove_all-Means now m ts [] means = (refl, means)
remove_all-Means now m ts (key ∷ keys) means =
    let (n, rest) =
      remove_all-Means now (update m key none) (put_key ts key none) keys
        (update-Means m ts key none none means absent) in
    (omega (arith, n, one-Same (seen-Same now (means key))), rest)

count_all-Means :
    (now : ℕ) (m : Items) (ts : Tables) (keys : List Bytes)
    → Means m ts
    → count_all m keys now ≡ count_keys ts keys now
count_all-Means now m ts [] means = refl
count_all-Means now m ts (key ∷ keys) means =
    omega (arith, count_all-Means now m ts keys means, one-Same (seen-Same now (means key)))

string_of-Same : {i : Option Item} {k : Kept} → Same i k → string_of i ≡ text_of k
unfolding as_string
string_of-Same absent = refl
string_of-Same (texts v x) = refl
string_of-Same (tables map t x l) = refl

kind_of-Same : {i : Option Item} {k : Kept} → Same i k → kind_of i ≡ type_of_kept k
unfolding type_of
kind_of-Same absent = refl
kind_of-Same (texts v x) = refl
kind_of-Same (tables map t x l) = refl

field_in-Same : (f : Bytes) {i : Option Item} {k : Kept} → Same i k → field_in f i ≡ at_field f k
field_in-Same f absent = refl
field_in-Same f (texts v x) = refl
field_in-Same f (tables map t x l) = ap ok (field_get-lookup f map ∙ l.same f)

fields_in-Same :
    (H : HashMaps) (key : Bytes) (now : ℕ) {i : Option Item} {k : Kept}
    → Same i k
    → Keeps (all_of (fields_in H key now i)) (all_at k)
fields_in-Same H key now absent = refl
fields_in-Same H key now (texts v x) = refl
fields_in-Same H key now (tables map t x l) = (
  H.order key now map,
  ap (λ fields. all_of (ok fields)) (flatten_fields-in_turn (H.order key now map)),
  order-Lists H key now map t l,
)

module _ (m : Items) (ts : Tables) (key : Bytes) (means : Means m ts) where
  with_fields-Same :
      (fields : Fields) {i : Option Item} {k : Kept}
      → Same i k
      → ((with_fields m key fields i).0 ≡ (put_in ts key fields k).0)
        × Means (with_fields m key fields i).1 (put_in ts key fields k).1
  with_fields-Same fields absent =
      let (n, l) = insert_all-Lists fields [] no_fields no_fields-Lists in
      (ap ok n, update-Means m ts key _ _ means (tables _ _ none l))
  with_fields-Same fields (texts v x) = (refl, means)
  with_fields-Same fields (tables map t x l) =
      let (n, l2) = insert_all-Lists fields map t l in
      (ap ok n, update-Means m ts key _ _ means (tables _ _ x l2))

  left-Same :
      (gone : Bool) (map : Fields) (t : Table) (x : Option ℕ)
      → Lists map t
      → Same (if gone then none else some (hash map, x)) (if gone then none else some (table t, x))
  left-Same true map t x l = absent
  left-Same false map t x l = tables map t x l

  without_fields-Same :
      (fields : List Bytes) {i : Option Item} {k : Kept}
      → Same i k
      → ((without_fields m key fields i).0 ≡ (cut_in ts key fields k).0)
        × Means (without_fields m key fields i).1 (cut_in ts key fields k).1
  without_fields-Same fields absent = (refl, means)
  without_fields-Same fields (texts v x) = (refl, means)
  without_fields-Same fields (tables map t x l) =
      let (n, l2) = remove_all-Lists fields map t l in
      (
        ap ok n,
        update-Means m ts key _ _ means (rw (n, is_empty-Lists _ _ l2) (left-Same _ _ _ x l2)),
      )

-- One request: the reply is as promised, and the maps mean the same again.
pub specified-Means :
    (H : HashMaps) (now : ℕ) (m : Items) (ts : Tables) (r : Request)
    → Means m ts
    → Keeps (specified H m r now).0 (promised ts r now).0
      × Means (specified H m r now).1 (promised ts r now).1
specified-Means H now m ts (set_request key v ttl) means =
    (refl, update-Means m ts key _ _ means (texts v (expiry_of ttl now)))
specified-Means H now m ts (get_request key) means =
    (ap value (string_of-Same (seen-Same now (means key))), means)
specified-Means H now m ts (type_request key) means =
    (ap type_name (kind_of-Same (seen-Same now (means key))), means)
specified-Means H now m ts (delete_request keys) means =
    let (n, rest) = remove_all-Means now m ts keys means in (ap count n, rest)
specified-Means H now m ts (exists_request keys) means =
    (ap count (count_all-Means now m ts keys means), means)
specified-Means H now m ts (hset_request key fields) means =
    let (n, rest) = with_fields-Same m ts key means fields (seen-Same now (means key)) in
    (ap new_fields n, rest)
specified-Means H now m ts (hget_request key f) means =
    (ap field (field_in-Same f (seen-Same now (means key))), means)
specified-Means H now m ts (hgetall_request key) means =
    (fields_in-Same H key now (seen-Same now (means key)), means)
specified-Means H now m ts (hdel_request key fields) means =
    let (n, rest) = without_fields-Same m ts key means fields (seen-Same now (means key)) in
    (ap gone_fields n, rest)

-- The order of the iterations does not tell in the map.
pub specified_rest :
    (H K : HashMaps) (now : ℕ) (m : Items) (r : Request)
    → (specified H m r now).1 ≡ (specified K m r now).1
specified_rest H K now m (set_request key v ttl) = refl
specified_rest H K now m (get_request key) = refl
specified_rest H K now m (type_request key) = refl
specified_rest H K now m (delete_request keys) = refl
specified_rest H K now m (exists_request keys) = refl
specified_rest H K now m (hset_request key fields) = refl
specified_rest H K now m (hget_request key f) = refl
specified_rest H K now m (hgetall_request key) = refl
specified_rest H K now m (hdel_request key fields) = refl

-- ===== src/Persistence/Restored.antt =====
-- What a start brings back from a snapshot of src/persistence.rs: the entries with their values, each
-- hash in the order in which its fields were visited at the save.
use redistill.Base.{
  ℕ, ◌+◌, ◌-◌, ◌%◌, ◌^◌, ◌≡◌, refl, sym, ap, ◌∙◌, true, false, Option, none, some, List, [], ◌∷◌,
  ◌++◌, append_assoc, append-nil, arith, ltb, if◌then◌else◌, Bytes, beq, length, beq_iff,
}
use redistill.Store.Dash.{lookup, Unique}
use redistill.Store.State.{Env, Store, put}
use redistill.Store.Entry.{
  HashMaps, Entry, EntryValue, string, hash, Fields, is_expired, field_insert, calculate_entry_size,
}
use redistill.Persistence.{to_snapshot_value}
use redistill.Persistence.Load.{
  insert_each, loaded_value, Loaded, loaded_expiry, insert_loaded, load_entry,
}

lookup_before :
    (g f v : Bytes) (map more : Fields) → lookup g (map ++ (f, v) ∷ more) ≡ none → beq g f ≡ false
lookup_before g f v [] more h = ground (arith, beq_iff f g, beq_iff g f)
lookup_before g f v ((k, u) ∷ map) more h = ground (arith, lookup_before g f v map more)

field_insert-absent :
    (f v : Bytes) (map more : Fields)
    → Unique (map ++ (f, v) ∷ more)
    → field_insert f v map ≡ map ++ (f, v) ∷ []
unfolding field_insert
field_insert-absent f v [] more u = refl
field_insert-absent f v ((g, w) ∷ map) more u =
    rw (lookup_before g f v map more u.0, field_insert-absent f v map more u.1)

insert_each-append :
    (fields map : Fields) → Unique (map ++ fields) → insert_each fields map ≡ map ++ fields
unfolding insert_each
insert_each-append [] map u = sym (append-nil map)
insert_each-append ((f, v) ∷ fields) map u = rw (field_insert-absent f v map fields u) (
    insert_each-append fields (map ++ (f, v) ∷ []) (rw (append_assoc map ((f, v) ∷ []) fields) u)
    ∙ append_assoc map ((f, v) ∷ []) fields)

abbrev pub FieldsUnique : EntryValue → Type 0
FieldsUnique (string v) = Unit
FieldsUnique (hash map) = Unique map

-- The entry as `load_snapshot` sees it.
abbrev pub loaded_of : HashMaps → ℕ → Bytes → Entry → Loaded
loaded_of H now key e = (key, (loaded_value (to_snapshot_value H now key e.value), e.expiry))

-- No field stands twice in the map of an entry.
abbrev pub HasUniqueFields : Bytes × Entry → Type 0
HasUniqueFields (key, e) = FieldsUnique e.value

-- What a value is behind a save at a time: its fields have been visited once.
abbrev pub visited : HashMaps → ℕ → Bytes → EntryValue → EntryValue
visited H now key (string v) = string v
visited H now key (hash map) = hash (H.order key now map)

module _ (E : Env) where
  -- An entry that is brought back: with its value and its expiry, never accessed, and accounted for
  -- where there is a memory limit.
  abbrev pub restored : ℕ → Bytes → Entry → Store E → Store E
  restored saved_at key e s =
      put E
        (if ltb 0 E.config.max_memory
          then record s {
            memory_used =
                (s.memory_used
                  + calculate_entry_size (length key) (visited E.hash_maps saved_at key e.value))
                % 2 ^ 64;
          }
          else s)
        key
        (record {
          value = visited E.hash_maps saved_at key e.value;
          expiry = e.expiry;
          last_accessed = 0;
          queue_type = 0;
          access_count = 0;
        })

  -- The entries brought back one after the other, but for those that have expired, and their count.
  abbrev pub restore_all : ℕ → ℕ → List (Bytes × Entry) → Store E × ℕ → Store E × ℕ
  restore_all saved_at now [] (s, n) = (s, n)
  restore_all saved_at now ((key, e) ∷ entries) (s, n) =
      if is_expired now e.expiry
      then restore_all saved_at now entries (s, n)
      else restore_all saved_at now entries (restored saved_at key e s, n + 1)

  loaded_expiry-live :
      (now : ℕ) (expiry : Option ℕ)
      → is_expired now expiry ≡ false
      → loaded_expiry now expiry ≡ expiry
  unfolding loaded_expiry is_expired
  loaded_expiry-live now none live = refl
  loaded_expiry-live now (some x) live =
      let later : ltb now x ≡ true = ground arith in
      let same : now + (x - now) ≡ x = ground arith in rw (later, same)

  loaded_value-visited :
      (now : ℕ) (key : Bytes) (v : EntryValue)
      → FieldsUnique v
      → loaded_value (to_snapshot_value E.hash_maps now key v) ≡ visited E.hash_maps now key v
  unfolding loaded_value to_snapshot_value
  loaded_value-visited now key (string v) u = refl
  loaded_value-visited now key (hash map) u = ap hash (
      insert_each-append (E.hash_maps.order key now map) []
        (E.hash_maps.order-unique key now map u))

  pub load_entry-live :
      (saved_at now : ℕ) (key : Bytes) (e : Entry) (s : Store E) (n : ℕ)
      → FieldsUnique e.value
      → is_expired now e.expiry ≡ false
      → load_entry E now (loaded_of E.hash_maps saved_at key e) (s, n)
        ≡ (restored saved_at key e s, n + 1)
  unfolding load_entry insert_loaded
  load_entry-live saved_at now key e s n u live =
      rw (live, loaded_value-visited saved_at key e.value u, loaded_expiry-live now e.expiry live)

  pub load_entry-expired :
      (now : ℕ) (loaded : Loaded) (t : Store E × ℕ)
      → is_expired now loaded.1.1 ≡ true
      → load_entry E now loaded t ≡ t
  unfolding load_entry
  load_entry-expired now (key, (value, expiry)) (s, n) over = rw over

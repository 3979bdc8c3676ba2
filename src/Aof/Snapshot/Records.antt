-- ===== src/Aof/Snapshot/Records.antt =====
-- The records that a snapshot of the store in src/aof.rs consists of.
use redistill.Base.{
  ℕ, suc, ◌+◌, ◌-◌, ◌%◌, ◌^◌, ◌<◌, ◌≡◌, refl, sym, ◌∙◌, inl, inr, Bool, true, false, ◌&&◌, not,
  Option, none, some, List, [], ◌∷◌, ◌++◌, append_assoc, append-nil, arith, ltb, if◌then◌else◌,
  Bytes, codes, length, length-append, Bool-cases,
}
use redistill.Store.State.{Env, Store}
use redistill.Store.Entry.{HashMaps, Fields, Entry, EntryValue, string, hash, is_expired}
use redistill.Aof.Frame.{
  write_resp_array, write_resp_array-write_array, emit_set, emit_hset, emit_expire, push_pairs,
}
use redistill.Aof.Snapshot.{
  Progress, add_record, snapshot_expiry, snapshot_pairs, snapshot_value, snapshot_entry,
  snapshot_entries, snapshot_shards, write_store_snapshot,
}
use redistill.Resp.Decimal.{decimal}
use redistill.Resp.Writer.{write_array}

-- The commands that bring an entry back, if it is live and has something to bring back.
abbrev pub expiry_commands : ℕ → Bytes → Option ℕ → List (List Bytes)
expiry_commands now key none = []
expiry_commands now key (some exp) = (codes "EXPIRE" ∷ key ∷ decimal (exp - now) ∷ []) ∷ []

-- Each field with its value behind it.
abbrev pub flattened : List (Bytes × Bytes) → List Bytes
flattened [] = []
flattened (pair ∷ pairs) = (pair.0 ∷ pair.1 ∷ []) ++ flattened pairs

push_pairs-flattened : (pairs : List (Bytes × Bytes)) → push_pairs pairs ≡ flattened pairs
push_pairs-flattened [] = refl
push_pairs-flattened ((f, v) ∷ pairs) = rw (push_pairs-flattened pairs)

abbrev pub value_commands : HashMaps → ℕ → Bytes → EntryValue → List (List Bytes)
value_commands H now key (string v) = (codes "SET" ∷ key ∷ v ∷ []) ∷ []
value_commands H now key (hash map) = (codes "HSET" ∷ key ∷ flattened (H.order key now map)) ∷ []

abbrev pub has_content : EntryValue → Bool
has_content (hash []) = false
has_content _ = true

lacking : (pairs : Fields) → length pairs ≡ 0 → has_content (hash pairs) ≡ false
lacking [] e = refl
lacking (f ∷ pairs) e = absurd (omega (arith, e))

present : {n : ℕ} (pairs : Fields) → length pairs ≡ suc n → has_content (hash pairs) ≡ true
present [] e = absurd (omega (arith, e))
present (f ∷ pairs) e = refl

abbrev pub entry_commands : HashMaps → ℕ → Bytes → Entry → List (List Bytes)
entry_commands H now key e =
    if not (is_expired now e.expiry) && has_content e.value
    then value_commands H now key e.value ++ expiry_commands now key e.expiry
    else []

abbrev pub entries_commands : HashMaps → ℕ → List (Bytes × Entry) → List (List Bytes)
entries_commands H now [] = []
entries_commands H now ((key, e) ∷ entries) =
    entry_commands H now key e ++ entries_commands H now entries

abbrev pub shards_commands : (E : Env) → ℕ → List E.dash.Shard → List (List Bytes)
shards_commands E now [] = []
shards_commands E now (shard ∷ shards) =
    entries_commands E.hash_maps now (E.dash.iter shard) ++ shards_commands E now shards

-- The records of some commands, one behind the other.
abbrev pub records : List (List Bytes) → Bytes
records [] = []
records (cmd ∷ cmds) = write_array [] cmd ++ records cmds

pub records-append :
    (cmds more : List (List Bytes)) → records (cmds ++ more) ≡ records cmds ++ records more
records-append [] more = refl
records-append (cmd ∷ cmds) more =
    rw (records-append cmds more)
      (sym (append_assoc (write_array [] cmd) (records cmds) (records more)))

-- The file grew by the records of some commands, and `bytes` by their length.
pub record Grows (p : Progress) (cmds : List (List Bytes)) (q : Progress) : Type 0 where
  pub file : q.file ≡ p.file ++ records cmds
  pub bytes : q.bytes % 2 ^ 64 ≡ (p.bytes + length (records cmds)) % 2 ^ 64
  pub bound : p.bytes < 2 ^ 64 → q.bytes < 2 ^ 64

Grows-refl : (p : Progress) → Grows p [] p
Grows-refl p = record { file = sym (append-nil p.file); bytes = ground arith; bound = λ b. b }

-- Another count of keys changes nothing.
keys-Grows :
    {p q : Progress} {cmds : List (List Bytes)} (keys : ℕ)
    → Grows p cmds q
    → Grows p cmds (record q { keys = keys })
keys-Grows keys g = record { file = g.file; bytes = g.bytes; bound = g.bound }

add_record-Grows :
    (p : Progress) (cmd : List Bytes)
    → Grows p (cmd ∷ []) (add_record p (write_resp_array p.file cmd))
unfolding add_record
add_record-Grows p cmd = rw (write_resp_array-write_array p.file cmd) (record {
  file = rw (append-nil (write_array [] cmd));
  bytes = rw (append-nil (write_array [] cmd)) (omega arith);
  bound = λ _. omega arith;
})

Grows-trans :
    {p q r : Progress} {cmds more : List (List Bytes)}
    → Grows p cmds q
    → Grows q more r
    → Grows p (cmds ++ more) r
Grows-trans {p} {q} {r} {cmds} {more} g h = record {
  file =
      h.file
      ∙ rw (g.file, records-append cmds more) (append_assoc p.file (records cmds) (records more));
  bytes =
      rw (records-append cmds more)
        (omega (arith, g.bytes, h.bytes, length-append (records cmds) (records more)));
  bound = λ b. h.bound (g.bound b);
}

snapshot_expiry-Grows :
    (now : ℕ) (key : Bytes) (expiry : Option ℕ) (p : Progress)
    → is_expired now expiry ≡ false
    → Grows p (expiry_commands now key expiry) (snapshot_expiry now key expiry p)
unfolding snapshot_expiry emit_expire is_expired
snapshot_expiry-Grows now key none p live = keys-Grows _ (Grows-refl p)
snapshot_expiry-Grows now key (some exp) p live =
    let left : ltb 0 (exp - now) ≡ true = ground arith in
    rw left (keys-Grows _ (add_record-Grows p (codes "EXPIRE" ∷ key ∷ decimal (exp - now) ∷ [])))

-- The order of the iteration has a pair just when the map has one.
order_content :
    (H : HashMaps) (key : Bytes) (now : ℕ) (map : Fields)
    → has_content (hash (H.order key now map)) ≡ has_content (hash map)
order_content H key now [] = lacking (H.order key now []) (H.order-length key now [])
order_content H key now (f ∷ map) =
    present (H.order key now (f ∷ map)) (H.order-length key now (f ∷ map))

snapshot_pairs-Grows :
    (now : ℕ) (key : Bytes) (e : Entry) (pairs : Fields) (p : Progress)
    → is_expired now e.expiry ≡ false
    → Grows p
        (if has_content (hash pairs)
          then ((codes "HSET" ∷ key ∷ flattened pairs) ∷ []) ++ expiry_commands now key e.expiry
          else [])
        (snapshot_pairs now key e pairs p)
unfolding snapshot_pairs emit_hset
snapshot_pairs-Grows now key e [] p live = Grows-refl p
snapshot_pairs-Grows now key e (f ∷ pairs) p live = rw (← push_pairs-flattened pairs) (
    Grows-trans (add_record-Grows p (codes "HSET" ∷ key ∷ push_pairs (f ∷ pairs)))
      (snapshot_expiry-Grows now key e.expiry _ live))

snapshot_value-Grows :
    (H : HashMaps) (now : ℕ) (key : Bytes) (e : Entry) (value : EntryValue) (p : Progress)
    → is_expired now e.expiry ≡ false
    → Grows p
        (if has_content value
          then value_commands H now key value ++ expiry_commands now key e.expiry
          else [])
        (snapshot_value H now key e value p)
unfolding snapshot_value emit_set
snapshot_value-Grows H now key e (string v) p live =
    Grows-trans (add_record-Grows p (codes "SET" ∷ key ∷ v ∷ []))
      (snapshot_expiry-Grows now key e.expiry _ live)
snapshot_value-Grows H now key e (hash map) p live =
    rw (← order_content H key now map) (snapshot_pairs-Grows now key e (H.order key now map) p live)

snapshot_entry-Grows :
    (H : HashMaps) (now : ℕ) (key : Bytes) (e : Entry) (p : Progress)
    → Grows p (entry_commands H now key e) (snapshot_entry H now key e p)
unfolding snapshot_entry
snapshot_entry-Grows H now key e p = elim (Bool-cases (is_expired now e.expiry)) [
  | inl x ↦ rw x (Grows-refl p)
  | inr x ↦ rw x (snapshot_value-Grows H now key e e.value p x)
]

snapshot_entries-Grows :
    (H : HashMaps) (now : ℕ) (entries : List (Bytes × Entry)) (p : Progress)
    → Grows p (entries_commands H now entries) (snapshot_entries H now entries p)
unfolding snapshot_entries
snapshot_entries-Grows H now [] p = Grows-refl p
snapshot_entries-Grows H now ((key, e) ∷ entries) p =
    Grows-trans (snapshot_entry-Grows H now key e p)
      (snapshot_entries-Grows H now entries (snapshot_entry H now key e p))

snapshot_shards-Grows :
    (E : Env) (now : ℕ) (shards : List E.dash.Shard) (p : Progress)
    → Grows p (shards_commands E now shards) (snapshot_shards E now shards p)
unfolding snapshot_shards
snapshot_shards-Grows E now [] p = Grows-refl p
snapshot_shards-Grows E now (shard ∷ shards) p =
    Grows-trans (snapshot_entries-Grows E.hash_maps now (E.dash.iter shard) p)
      (snapshot_shards-Grows E now shards (snapshot_entries E.hash_maps now (E.dash.iter shard) p))

-- The file of a rewrite has, for each live entry that is no empty hash, one SET of its value, or
-- one HSET with each of its fields and their values in the order of the iteration, and an EXPIRE of
-- the seconds left if it has an expiry, in the order of the shards; the bytes returned are the
-- length of the file, as a u64.
pub write_store_snapshot-records :
    (E : Env) (s : Store E) (now : ℕ)
    → ((write_store_snapshot E s now).file ≡ records (shards_commands E now s.shards))
      × ((write_store_snapshot E s now).bytes ≡ length (write_store_snapshot E s now).file % 2 ^ 64)
unfolding write_store_snapshot
write_store_snapshot-records E s now =
    let g = snapshot_shards-Grows E now s.shards (record { file = []; keys = 0; bytes = 0 }) in
    (g.file, rw g.file (omega (arith, g.bytes, g.bound (omega arith))))

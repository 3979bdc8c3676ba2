-- ===== src/Embedded/Steps/Moves.antt =====
-- What one step on the store of src/lib.rs does to the map that it shows.
use redistill.Base.{
  ℕ, ◌≤◌, ◌≡◌, sym, inl, inr, true, Option, none, some, arith, if◌then◌else◌, Bytes, beq,
  Bool-cases, beq_iff, beq_refl, length-set, get_or-set,
}
use redistill.Store.Entry.{Entry, is_expired}
use redistill.Store.View.{Item, Items, item_of, seen, update}
use redistill.Store.View.Lookups.{seen_expired}
use redistill.Embedded.{Crates, ShardedStore, shard_index, shard_of, find, put, drop_key}
use redistill.Embedded.Grouped.{IsWf, shard_index-lt}

-- The store is well-formed and shows what the map shows, from a time on.
pub record Shows (C : Crates) (now : ℕ) (s : ShardedStore C) (m : Items) : Type 0 where
  pub wf : IsWf C s
  pub same :
      (j : Bytes) (later : ℕ) → now ≤ later → seen later (item_of (find C s j)) ≡ seen later (m j)

module _ (C : Crates) where
  find-put :
      (s : ShardedStore C) (k : Bytes) (e : Entry) (j : Bytes)
      → IsWf C s
      → find C (put C s k e) j ≡ (if beq k j then some e else find C s j)
  unfolding find put shard_of shard_index
  find-put s k e j wf = ground (
    arith,
    beq_iff k j,
    wf.shard_count,
    shard_index-lt C s k wf,
    C.dash.get-insert (shard_of C s k) k e j,
    get_or-set s.shards (shard_index C s k) (shard_index C s j) (C.dash.insert (shard_of C s k) k e)
        C.dash.empty,
  )

  pub find-put_self :
      (s : ShardedStore C) (k : Bytes) (e : Entry) → IsWf C s → find C (put C s k e) k ≡ some e
  find-put_self s k e wf = rw (find-put s k e k wf, beq_refl k)

  find-drop_key :
      (s : ShardedStore C) (k j : Bytes)
      → IsWf C s
      → find C (drop_key C s k) j ≡ (if beq k j then none else find C s j)
  unfolding find drop_key shard_of shard_index
  find-drop_key s k j wf = ground (
    arith,
    beq_iff k j,
    wf.shard_count,
    shard_index-lt C s k wf,
    C.dash.get-remove (shard_of C s k) k j,
    get_or-set s.shards (shard_index C s k) (shard_index C s j) (C.dash.remove (shard_of C s k) k)
        C.dash.empty,
  )

  put-IsWf : (s : ShardedStore C) (k : Bytes) (e : Entry) → IsWf C s → IsWf C (put C s k e)
  unfolding put
  put-IsWf s k e wf =
      omega (arith, length-set s.shards (shard_index C s k) (C.dash.insert (shard_of C s k) k e))

  drop_key-IsWf : (s : ShardedStore C) (k : Bytes) → IsWf C s → IsWf C (drop_key C s k)
  unfolding drop_key
  drop_key-IsWf s k wf =
      omega (arith, length-set s.shards (shard_index C s k) (C.dash.remove (shard_of C s k) k))

module _ (C : Crates) (now : ℕ) where
  pub put-Shows :
      (s : ShardedStore C) (m : Items) (key : Bytes) (e : Entry)
      → Shows C now s m
      → Shows C now (put C s key e) (update m key (some (e.value, e.expiry)))
  put-Shows s m key e sh = record {
    wf = put-IsWf C s key e sh.wf;
    same = λ j later h. elim (Bool-cases (beq key j)) [
      | inl b ↦ rw (find-put C s key e j sh.wf, b)
      | inr b ↦ rw (find-put C s key e j sh.wf, b) (sh.same j later h)
    ];
  }

  pub drop_key-Shows :
      (s : ShardedStore C) (m : Items) (key : Bytes)
      → Shows C now s m
      → Shows C now (drop_key C s key) (update m key none)
  drop_key-Shows s m key sh = record {
    wf = drop_key-IsWf C s key sh.wf;
    same = λ j later h. elim (Bool-cases (beq key j)) [
      | inl b ↦ rw (find-drop_key C s key j sh.wf, b)
      | inr b ↦ rw (find-drop_key C s key j sh.wf, b) (sh.same j later h)
    ];
  }

  -- Of two writes to a key the second counts.
  pub update_twice-Shows :
      (s : ShardedStore C) (m : Items) (key : Bytes) (first second : Option Item)
      → Shows C now s (update (update m key first) key second)
      → Shows C now s (update m key second)
  update_twice-Shows s m key first second sh = record {
    wf = sh.wf;
    same = λ j later h. elim (Bool-cases (beq key j)) [
      | inl b ↦ rw b (rw b at (sh.same j later h))
      | inr b ↦ rw b (rw b at (sh.same j later h))
    ];
  }

  -- Removing an expired key changes nothing that is seen.
  pub expired-Shows :
      (s : ShardedStore C) (m : Items) (key : Bytes) (old : Entry)
      → Shows C now s m
      → find C s key ≡ some old
      → is_expired now old.expiry ≡ true
      → Shows C now (drop_key C s key) m
  expired-Shows s m key old sh e x = record {
    wf = drop_key-IsWf C s key sh.wf;
    same = λ j later h. elim (Bool-cases (beq key j)) [
      | inr b ↦ rw (find-drop_key C s key j sh.wf, b) (sh.same j later h)
      | inl b ↦
          let same : key ≡ j = (beq_iff key j).0 b in
          rw (find-drop_key C s key j sh.wf, b, ← sh.same j later h, ← same, e)
            (sym (seen_expired now later old.value old.expiry x h))
    ];
  }

  pub seen_found :
      (s : ShardedStore C) (m : Items) (key : Bytes) (old : Entry)
      → Shows C now s m
      → find C s key ≡ some old
      → seen now (m key) ≡ seen now (some (old.value, old.expiry))
  seen_found s m key old sh e = rw (← sh.same key now (omega arith), e)

  pub seen_missing :
      (s : ShardedStore C) (m : Items) (key : Bytes)
      → Shows C now s m
      → find C s key ≡ none
      → seen now (m key) ≡ none
  seen_missing s m key sh e = rw (← sh.same key now (omega arith), e)

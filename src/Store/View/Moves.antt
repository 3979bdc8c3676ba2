-- ===== src/Store/View/Moves.antt =====
-- What one step on the store of src/store.rs does to the map that it shows.
use redistill.Base.{
  ℕ, ◌≡◌, refl, ◌∙◌, inl, inr, true, false, Option, none, some, arith, Bytes, beq, Bool-cases,
}
use redistill.Store.Entry.{Entry, is_expired}
use redistill.Store.State.{Env, Store, find, put, drop_key, sub_memory, add_memory, shard_of, hash}
use redistill.Store.Access.{expire_key, track_access}
use redistill.Store.Laws.{find-put, find-drop_key, put-IsWf, drop_key-IsWf}
use redistill.Store.Balance.{
  IsQuiet, find-IsQuiet, IsWf-IsQuiet, find-sub_memory, sub_memory-IsWf, add_memory-IsWf,
}
use redistill.Store.View.{Item, Items, seen, update, Shows}
use redistill.Store.View.Lookups.{
  expire_key-IsWf, seen-expire_key, item_of-track_access, track_access-IsWf,
}

module _ (E : Env) where
  pub quiet-Shows :
      (now : ℕ) {s t : Store E} (m : Items) → IsQuiet E s t → Shows E now s m → Shows E now t m
  quiet-Shows now m q sh = record {
    wf = IsWf-IsQuiet E q sh.wf;
    same = λ j later h. rw (find-IsQuiet E q j) (sh.same j later h);
  }

  pub sub_memory-Shows :
      (now : ℕ) (s : Store E) (m : Items) (n : ℕ)
      → Shows E now s m
      → Shows E now (sub_memory E s n) m
  sub_memory-Shows now s m n sh = record {
    wf = sub_memory-IsWf E s n sh.wf;
    same = λ j later h. rw (find-sub_memory E s n j) (sh.same j later h);
  }

  find-add_memory : (s : Store E) (n : ℕ) (k : Bytes) → find E (add_memory E s n) k ≡ find E s k
  unfolding find add_memory shard_of hash
  find-add_memory s n k = refl

  pub add_memory-Shows :
      (now : ℕ) (s : Store E) (m : Items) (n : ℕ)
      → Shows E now s m
      → Shows E now (add_memory E s n) m
  add_memory-Shows now s m n sh = record {
    wf = add_memory-IsWf E s n sh.wf;
    same = λ j later h. rw (find-add_memory s n j) (sh.same j later h);
  }

  pub put-Shows :
      (now : ℕ) (s : Store E) (m : Items) (key : Bytes) (e : Entry)
      → Shows E now s m
      → Shows E now (put E s key e) (update m key (some (e.value, e.expiry)))
  put-Shows now s m key e sh = record {
    wf = put-IsWf E s key e sh.wf;
    same = λ j later h. elim (Bool-cases (beq key j)) [
      | inl b ↦ rw (find-put E s key e j sh.wf, b)
      | inr b ↦ rw (find-put E s key e j sh.wf, b) (sh.same j later h)
    ];
  }

  pub drop_key-Shows :
      (now : ℕ) (s : Store E) (m : Items) (key : Bytes)
      → Shows E now s m
      → Shows E now (drop_key E s key) (update m key none)
  drop_key-Shows now s m key sh = record {
    wf = drop_key-IsWf E s key sh.wf;
    same = λ j later h. elim (Bool-cases (beq key j)) [
      | inl b ↦ rw (find-drop_key E s key j sh.wf, b)
      | inr b ↦ rw (find-drop_key E s key j sh.wf, b) (sh.same j later h)
    ];
  }

  -- Of two writes to a key the second counts.
  pub update_twice-Shows :
      (now : ℕ) (s : Store E) (m : Items) (key : Bytes) (first second : Option Item)
      → Shows E now s (update (update m key first) key second)
      → Shows E now s (update m key second)
  update_twice-Shows now s m key first second sh = record {
    wf = sh.wf;
    same = λ j later h. elim (Bool-cases (beq key j)) [
      | inl b ↦ rw b (rw b at (sh.same j later h))
      | inr b ↦ rw b (rw b at (sh.same j later h))
    ];
  }

  -- Removing an expired key changes nothing that is seen.
  pub expire_key-Shows :
      (now : ℕ) (s : Store E) (m : Items) (key : Bytes) (old : Entry)
      → Shows E now s m
      → find E s key ≡ some old
      → is_expired now old.expiry ≡ true
      → Shows E now (expire_key E s key now) m
  expire_key-Shows now s m key old sh e x = record {
    wf = expire_key-IsWf E s key now sh.wf;
    same = λ j later h. seen-expire_key E s key now later old j sh.wf e x h ∙ sh.same j later h;
  }

  pub track_access-Shows :
      (now : ℕ) (s : Store E) (m : Items) (key : Bytes) (old : Entry)
      → Shows E now s m
      → find E s key ≡ some old
      → Shows E now (track_access E s key old) m
  track_access-Shows now s m key old sh e = record {
    wf = track_access-IsWf E s key old sh.wf;
    same = λ j later h. rw (item_of-track_access E s key old j sh.wf e) (sh.same j later h);
  }

  -- What is stored and has not expired is what the map has.
  pub seen_live :
      (now : ℕ) (s : Store E) (m : Items) (key : Bytes) (old : Entry)
      → Shows E now s m
      → find E s key ≡ some old
      → is_expired now old.expiry ≡ false
      → seen now (m key) ≡ some (old.value, old.expiry)
  seen_live now s m key old sh e x = rw (← sh.same key now (omega arith), e, x)

  pub seen_dead :
      (now : ℕ) (s : Store E) (m : Items) (key : Bytes) (old : Entry)
      → Shows E now s m
      → find E s key ≡ some old
      → is_expired now old.expiry ≡ true
      → seen now (m key) ≡ none
  seen_dead now s m key old sh e x = rw (← sh.same key now (omega arith), e, x)

  pub seen_missing :
      (now : ℕ) (s : Store E) (m : Items) (key : Bytes)
      → Shows E now s m
      → find E s key ≡ none
      → seen now (m key) ≡ none
  seen_missing now s m key sh e = rw (← sh.same key now (omega arith), e)

-- ===== src/Commands/Promised.antt =====
-- What clients of src/main.rs are promised: the operations of the store with TTL, PTTL, EXPIRE and
-- PERSIST, against the map of Store/View/Tables, whose hashes are finite maps.
use redistill.Base.{
  ℕ, ◌+◌, ◌%◌, ◌^◌, ◌≡◌, refl, ap, true, false, Option, none, some, [], ◌∷◌, ltb, ◌∙◌,
  if◌then◌else◌, Bytes, Bool-cases, inl, inr,
}
use redistill.Base.Int.{ℤ, pos, negsuc}
use redistill.Store.State.{Env, Store}
use redistill.Store.View.{Item, Items, Shows}
use redistill.Store.View.Tables.{Kept, Tables, live, Promise, Keeps, put_key, remove_keys, promised}
use redistill.Store.View.Meaning.{
  Same, absent, texts, tables, Means, seen-Same, update-Means, remove_all-Means, specified-Means,
}
use redistill.Store.View.Traces.{Ascending, Shows-later}
use redistill.Commands.Expiry.{millis_left, no_key_reply, no_expiry_reply}
use redistill.Commands.Visible.{
  Command, on_store, ttl_command, pttl_command, expire_command, persist_command, Answer, response,
  signed, number, seconds_left, run, run-Shows, time_left, with_expiry, expiring, persisting,
  expected, Timeline,
}

-- A promise of the store, or an answer that is fixed.
pub data Vow : Type 0 where
  vow : Promise → Vow
  fixed : Answer → Vow

abbrev pub Meets : Answer → Vow → Type 0
Meets answer (fixed a) = answer ≡ a
Meets (response r) (vow p) = Keeps r p
Meets (signed i) (vow p) = true ≡ false
Meets (number n) (vow p) = true ≡ false

abbrev pub left_of : (ℕ → ℕ → ℤ) → ℕ → Kept → ℤ
left_of left now none = no_key_reply
left_of left now (some (c, none)) = no_expiry_reply
left_of left now (some (c, some expiry)) = left expiry now

abbrev pub with_end : Tables → Bytes → ℕ → Kept → ℕ × Tables
with_end m key expiry none = (0, m)
with_end m key expiry (some (c, old)) = (1, put_key m key (some (c, some expiry)))

abbrev pub ending : Tables → Bytes → ℤ → ℕ → ℕ × Tables
ending m key (negsuc n) now = remove_keys m (key ∷ []) now
ending m key (pos n) now =
    if ltb 0 n
    then with_end m key ((now + n) % 2 ^ 64) (live now (m key))
    else remove_keys m (key ∷ []) now

abbrev pub endless : Tables → Bytes → Kept → ℕ × Tables
endless m key none = (0, m)
endless m key (some (c, none)) = (0, m)
endless m key (some (c, some expiry)) = (1, put_key m key (some (c, none)))

abbrev pub vowed : Tables → Command → ℕ → Vow × Tables
vowed m (on_store r) now = let (p, rest) = promised m r now in (vow p, rest)
vowed m (ttl_command key) now = (fixed (signed (left_of seconds_left now (live now (m key)))), m)
vowed m (pttl_command key) now = (fixed (signed (left_of millis_left now (live now (m key)))), m)
vowed m (expire_command key v) now = let (n, rest) = ending m key v now in (fixed (number n), rest)
vowed m (persist_command key) now =
    let (n, rest) = endless m key (live now (m key)) in (fixed (number n), rest)

left_of-Same :
    (left : ℕ → ℕ → ℤ) (now : ℕ) {i : Option Item} {k : Kept}
    → Same i k
    → time_left left now i ≡ left_of left now k
left_of-Same left now absent = refl
left_of-Same left now (texts v none) = refl
left_of-Same left now (texts v (some x)) = refl
left_of-Same left now (tables map t none l) = refl
left_of-Same left now (tables map t (some x) l) = refl

module _ (m : Items) (ts : Tables) (key : Bytes) (means : Means m ts) where
  with_end-Same :
      (expiry : ℕ) {i : Option Item} {k : Kept}
      → Same i k
      → ((with_expiry m key expiry i).0 ≡ (with_end ts key expiry k).0)
        × Means (with_expiry m key expiry i).1 (with_end ts key expiry k).1
  with_end-Same expiry absent = (refl, means)
  with_end-Same expiry (texts v x) = (refl, update-Means m ts key _ _ means (texts v (some expiry)))
  with_end-Same expiry (tables map t x l) =
      (refl, update-Means m ts key _ _ means (tables map t (some expiry) l))

  endless-Same :
      {i : Option Item} {k : Kept}
      → Same i k
      → ((persisting m key i).0 ≡ (endless ts key k).0)
        × Means (persisting m key i).1 (endless ts key k).1
  endless-Same absent = (refl, means)
  endless-Same (texts v none) = (refl, means)
  endless-Same (texts v (some x)) = (refl, update-Means m ts key _ _ means (texts v none))
  endless-Same (tables map t none l) = (refl, means)
  endless-Same (tables map t (some x) l) =
      (refl, update-Means m ts key _ _ means (tables map t none l))

  ending-Same :
      (v : ℤ) (now : ℕ)
      → ((expiring m key v now).0 ≡ (ending ts key v now).0)
        × Means (expiring m key v now).1 (ending ts key v now).1
  ending-Same (negsuc n) now = remove_all-Means now m ts (key ∷ []) means
  ending-Same (pos n) now = elim (Bool-cases (ltb 0 n)) [
    | inl later ↦ rw later (with_end-Same ((now + n) % 2 ^ 64) (seen-Same now (means key)))
    | inr past ↦ rw past (remove_all-Means now m ts (key ∷ []) means)
  ]

module _ (E : Env) where
  run-Meets :
      (now : ℕ) (m : Items) (ts : Tables) (c : Command) (answer : Answer)
      → Means m ts
      → answer ≡ (expected E.hash_maps m c now).0
      → Meets answer (vowed ts c now).0 × Means (expected E.hash_maps m c now).1 (vowed ts c now).1
  run-Meets now m ts (on_store r) answer means e =
      let (kept, next) = specified-Means E.hash_maps now m ts r means in (rw e kept, next)
  run-Meets now m ts (ttl_command key) answer means e =
      (e ∙ ap signed (left_of-Same seconds_left now (seen-Same now (means key))), means)
  run-Meets now m ts (pttl_command key) answer means e =
      (e ∙ ap signed (left_of-Same millis_left now (seen-Same now (means key))), means)
  run-Meets now m ts (expire_command key v) answer means e =
      let (n, next) = ending-Same m ts key means v now in (e ∙ ap number n, next)
  run-Meets now m ts (persist_command key) answer means e =
      let (n, next) = endless-Same m ts key means (seen-Same now (means key)) in
      (e ∙ ap number n, next)

  -- Each command is answered as the map promises, and both go on behind it.
  abbrev pub AllMeet : Store E → Tables → Timeline → Type 0
  AllMeet s ts [] = Unit
  AllMeet s ts ((c, now) ∷ commands) =
      Meets (run E s c now).0 (vowed ts c now).0
      × AllMeet (run E s c now).1 (vowed ts c now).1 commands

  -- Seen by its clients the store is a map from keys to strings and to finite maps of fields, which
  -- expire: any sequence of set, get, key_type, delete, exists, hset, hget, hgetall and hdel, and
  -- of TTL, PTTL, EXPIRE and PERSIST on their parsed arguments, at times that do not decrease, gets
  -- the answers that it gets from the map, whatever expired entries the store has removed or kept
  -- meanwhile; hgetall lists each field with its value once, in whatever order. The store is
  -- well-formed and shows at the start what the map holds from then on.
  pub run-AllMeet :
      (now : ℕ) (s : Store E) (m : Items) (ts : Tables) (commands : Timeline)
      → Shows E now s m
      → Means m ts
      → Ascending now commands
      → AllMeet s ts commands
  run-AllMeet now s m ts [] sh means up = tt
  run-AllMeet now s m ts ((c, later) ∷ commands) sh means (h, up) =
      let (same, next) = run-Shows E later s m c (Shows-later E now later s m h sh) in
      let (met, after) = run-Meets later m ts c (run E s c later).0 means same in
      (met, run-AllMeet later _ _ _ commands next after up)

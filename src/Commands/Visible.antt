-- ===== src/Commands/Visible.antt =====
-- What clients of src/main.rs see of the keys: the operations of the store with TTL, PTTL, EXPIRE and
-- PERSIST, against the map from keys to values that expire.
use redistill.Base.{
  ℕ, ◌+◌, ◌-◌, ◌%◌, ◌^◌, ◌≡◌, refl, ap, inl, inr, true, Option, none, some, List, [], ◌∷◌, ltb, leb,
  if◌then◌else◌, Bytes, Bool-cases, Option-cases,
}
use redistill.Base.Int.{ℤ, pos, negsuc}
use redistill.Store.Entry.{HashMaps, is_expired}
use redistill.Store.State.{Env, Store, find}
use redistill.Store.View
use redistill.Store.View.{
  Item, Items, seen, Request, Response, specified, one_if_some, update, remove_all, Shows,
}
use redistill.Store.View.Moves.{put-Shows, expire_key-Shows, seen_live, seen_dead, seen_missing}
use redistill.Store.View.Steps.{respond-Shows, delete-Shows}
use redistill.Store.View.Traces.{Ascending, Shows-later}
use redistill.Commands.Expiry.{
  as_i64, millis_left, no_key_reply, no_expiry_reply, remaining, expire_at, expire_by, persist_key,
}

pub data Command : Type 0 where
  on_store : Request → Command
  ttl_command : Bytes → Command
  pttl_command : Bytes → Command
  expire_command : Bytes → ℤ → Command
  persist_command : Bytes → Command

pub data Answer : Type 0 where
  response : Response → Answer
  signed : ℤ → Answer
  number : ℕ → Answer

abbrev pub seconds_left : ℕ → ℕ → ℤ
seconds_left expiry now = as_i64 (expiry - now)

-- What the handlers compute, once they have parsed their arguments.
unfoldable pub run : (E : Env) → Store E → Command → ℕ → Answer × Store E
run E s (on_store r) now = let (a, t) = View.respond E s r now in (response a, t)
run E s (ttl_command key) now = let (i, t) = remaining E seconds_left s key now in (signed i, t)
run E s (pttl_command key) now = let (i, t) = remaining E millis_left s key now in (signed i, t)
run E s (expire_command key v) now = let (n, t) = expire_by E s key v now in (number n, t)
run E s (persist_command key) now = let (n, t) = persist_key E s key now in (number n, t)

-- The same on the map.
abbrev pub time_left : (ℕ → ℕ → ℤ) → ℕ → Option Item → ℤ
time_left left now none = no_key_reply
time_left left now (some (v, none)) = no_expiry_reply
time_left left now (some (v, some expiry)) = left expiry now

abbrev pub with_expiry : Items → Bytes → ℕ → Option Item → ℕ × Items
with_expiry m key expiry none = (0, m)
with_expiry m key expiry (some (v, old)) = (1, update m key (some (v, some expiry)))

abbrev pub expiring : Items → Bytes → ℤ → ℕ → ℕ × Items
expiring m key (negsuc n) now = remove_all m (key ∷ []) now
expiring m key (pos n) now =
    if ltb 0 n
    then with_expiry m key ((now + n) % 2 ^ 64) (seen now (m key))
    else remove_all m (key ∷ []) now

abbrev pub persisting : Items → Bytes → Option Item → ℕ × Items
persisting m key none = (0, m)
persisting m key (some (v, none)) = (0, m)
persisting m key (some (v, some expiry)) = (1, update m key (some (v, none)))

abbrev pub expected : HashMaps → Items → Command → ℕ → Answer × Items
expected H m (on_store r) now = let (a, rest) = specified H m r now in (response a, rest)
expected H m (ttl_command key) now = (signed (time_left seconds_left now (seen now (m key))), m)
expected H m (pttl_command key) now = (signed (time_left millis_left now (seen now (m key))), m)
expected H m (expire_command key v) now = let (n, rest) = expiring m key v now in (number n, rest)
expected H m (persist_command key) now =
    let (n, rest) = persisting m key (seen now (m key)) in (number n, rest)

module _ (E : Env) (now : ℕ) where
  remaining-Shows :
      (left : ℕ → ℕ → ℤ) (s : Store E) (m : Items) (key : Bytes)
      → Shows E now s m
      → ((remaining E left s key now).0 ≡ time_left left now (seen now (m key)))
        × Shows E now (remaining E left s key now).1 m
  unfolding remaining is_expired
  remaining-Shows left s m key sh = elim (Option-cases (find E s key)) [
    | inl e ↦ rw (e, remaining, seen_missing E now s m key sh e) (refl, sh)
    | inr (old, e) ↦ elim (Option-cases old.expiry) [
      | inl never ↦
          let live = seen_live E now s m key old sh e (rw never) in
          rw (e, remaining, live, never) (refl, sh)
      | inr (x, expires) ↦ elim (Bool-cases (leb x now)) [
        | inl over ↦
            let over' : is_expired now old.expiry ≡ true = rw expires over in
            rw (e, remaining, seen_dead E now s m key old sh e over', expires, over)
              (refl, expire_key-Shows E now s m key old sh e over')
        | inr on ↦
            let live = seen_live E now s m key old sh e (rw expires on) in
            rw (e, remaining, live, expires, on) (refl, sh)
      ]
    ]
  ]

  expire_at-Shows :
      (s : Store E) (m : Items) (key : Bytes) (seconds : ℕ)
      → Shows E now s m
      → ((expire_at E s key seconds now).0
          ≡ (with_expiry m key ((now + seconds) % 2 ^ 64) (seen now (m key))).0)
        × Shows E now
            (expire_at E s key seconds now).1
            (with_expiry m key ((now + seconds) % 2 ^ 64) (seen now (m key))).1
  unfolding expire_at
  expire_at-Shows s m key seconds sh = elim (Option-cases (find E s key)) [
    | inl e ↦ rw (e, expire_at, seen_missing E now s m key sh e) (refl, sh)
    | inr (old, e) ↦ elim (Bool-cases (is_expired now old.expiry)) [
      | inl x ↦
          rw (e, expire_at, x, seen_dead E now s m key old sh e x)
            (refl, expire_key-Shows E now s m key old sh e x)
      | inr x ↦
          rw (e, expire_at, x, seen_live E now s m key old sh e x)
            (refl, put-Shows E now s m key _ sh)
    ]
  ]

  expire_by-Shows :
      (s : Store E) (m : Items) (key : Bytes) (v : ℤ)
      → Shows E now s m
      → ((expire_by E s key v now).0 ≡ (expiring m key v now).0)
        × Shows E now (expire_by E s key v now).1 (expiring m key v now).1
  unfolding expire_by
  expire_by-Shows s m key (negsuc n) sh = delete-Shows E now s m (key ∷ []) sh
  expire_by-Shows s m key (pos n) sh = elim (Bool-cases (ltb 0 n)) [
    | inl later ↦ rw later (expire_at-Shows s m key n sh)
    | inr past ↦ rw past (delete-Shows E now s m (key ∷ []) sh)
  ]

  persist_key-Shows :
      (s : Store E) (m : Items) (key : Bytes)
      → Shows E now s m
      → ((persist_key E s key now).0 ≡ (persisting m key (seen now (m key))).0)
        × Shows E now (persist_key E s key now).1 (persisting m key (seen now (m key))).1
  unfolding persist_key is_expired
  persist_key-Shows s m key sh = elim (Option-cases (find E s key)) [
    | inl e ↦ rw (e, persist_key, seen_missing E now s m key sh e) (refl, sh)
    | inr (old, e) ↦ elim (Option-cases old.expiry) [
      | inl never ↦
          let live = seen_live E now s m key old sh e (rw never) in
          rw (e, persist_key, live, never) (refl, sh)
      | inr (x, expires) ↦ elim (Bool-cases (leb x now)) [
        | inl over ↦
            let over' : is_expired now old.expiry ≡ true = rw expires over in
            rw (e, persist_key, seen_dead E now s m key old sh e over', expires, over)
              (refl, expire_key-Shows E now s m key old sh e over')
        | inr on ↦
            let live = seen_live E now s m key old sh e (rw expires on) in
            rw (e, persist_key, live, expires, on)
              (refl, put-Shows E now s m key (record old { expiry = none }) sh)
      ]
    ]
  ]

  -- One command answers what it answers on the map, and the store then shows what the map then shows.
  pub run-Shows :
      (s : Store E) (m : Items) (c : Command)
      → Shows E now s m
      → ((run E s c now).0 ≡ (expected E.hash_maps m c now).0)
        × Shows E now (run E s c now).1 (expected E.hash_maps m c now).1
  unfolding run
  run-Shows s m (on_store r) sh =
      let (a, next) = respond-Shows E now s m r sh in (ap response a, next)
  run-Shows s m (ttl_command key) sh =
      let (i, next) = remaining-Shows seconds_left s m key sh in (ap signed i, next)
  run-Shows s m (pttl_command key) sh =
      let (i, next) = remaining-Shows millis_left s m key sh in (ap signed i, next)
  run-Shows s m (expire_command key v) sh =
      let (n, next) = expire_by-Shows s m key v sh in (ap number n, next)
  run-Shows s m (persist_command key) sh =
      let (n, next) = persist_key-Shows s m key sh in (ap number n, next)

-- Commands with their times, which do not decrease.
abbrev pub Timeline : Type 0
Timeline = List (Command × ℕ)

abbrev pub answers : (E : Env) → Store E → Timeline → List Answer
answers E s [] = []
answers E s ((c, now) ∷ commands) = (run E s c now).0 ∷ answers E (run E s c now).1 commands

abbrev pub expected_answers : HashMaps → Items → Timeline → List Answer
expected_answers H m [] = []
expected_answers H m ((c, now) ∷ commands) =
    (expected H m c now).0 ∷ expected_answers H (expected H m c now).1 commands

-- Seen by its clients the store is a map from keys to values that expire: any sequence of set, get,
-- key_type, delete, exists, hset, hget, hgetall and hdel, and of TTL, PTTL, EXPIRE and PERSIST on
-- their parsed arguments, at times that do not decrease, gets the answers that it gets from the
-- map, whatever expired entries the store has removed or kept meanwhile. The store is well-formed
-- and shows at the start what the map shows from then on.
pub answers-Shows :
    (E : Env) (now : ℕ) (s : Store E) (m : Items) (commands : Timeline)
    → Shows E now s m
    → Ascending now commands
    → answers E s commands ≡ expected_answers E.hash_maps m commands
answers-Shows E now s m [] sh up = refl
answers-Shows E now s m ((c, later) ∷ commands) sh (h, up) =
    let (same, next) = run-Shows E later s m c (Shows-later E now later s m h sh) in
    rw (
      same,
      answers-Shows E later (run E s c later).1 (expected E.hash_maps m c later).1 commands next up,
    )

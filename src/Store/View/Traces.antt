-- ===== src/Store/View/Traces.antt =====
-- Sequences of operations of src/store.rs against the map that the store stands for.
use redistill.Base.{ℕ, ◌≤◌, ◌≡◌, refl, List, [], ◌∷◌, arith}
use redistill.Store.Entry.{HashMaps}
use redistill.Store.State.{Env, Store}
use redistill.Store.View.{Items, Request, Response, respond, specified, Shows}
use redistill.Store.View.Steps.{respond-Shows}

-- Requests with their times, which do not decrease.
abbrev pub Timed : Type 0
Timed = List (Request × ℕ)

abbrev pub Ascending {ℓ} : {A : Type ℓ} → ℕ → List (A × ℕ) → Type 0
Ascending now [] = Unit
Ascending now ((a, later) ∷ rest) = (now ≤ later) × Ascending later rest

abbrev pub responses : (E : Env) → Store E → Timed → List Response
responses E s [] = []
responses E s ((r, now) ∷ requests) =
    (respond E s r now).0 ∷ responses E (respond E s r now).1 requests

abbrev pub specified_responses : HashMaps → Items → Timed → List Response
specified_responses H m [] = []
specified_responses H m ((r, now) ∷ requests) =
    (specified H m r now).0 ∷ specified_responses H (specified H m r now).1 requests

module _ (E : Env) where
  pub Shows-later :
      (now later : ℕ) (s : Store E) (m : Items) → now ≤ later → Shows E now s m → Shows E later s m
  Shows-later now later s m h sh = record {
    wf = sh.wf;
    same = λ j after le. sh.same j after (omega arith);
  }

  -- Seen through set, get, key_type, delete, exists, hset, hget, hgetall and hdel the store is a map
  -- from keys to values that expire: any sequence of these operations, at times that do not
  -- decrease, gets the answers that it gets from the map. The store is well-formed and shows at the
  -- start what the map shows from then on.
  pub responses-Shows :
      (now : ℕ) (s : Store E) (m : Items) (requests : Timed)
      → Shows E now s m
      → Ascending now requests
      → responses E s requests ≡ specified_responses E.hash_maps m requests
  responses-Shows now s m [] sh up = refl
  responses-Shows now s m ((r, later) ∷ requests) sh (h, up) =
      let (same, next) = respond-Shows E later s m r (Shows-later now later s m h sh) in
      rw (
        same,
        responses-Shows later (respond E s r later).1 (specified E.hash_maps m r later).1 requests
            next up,
      )

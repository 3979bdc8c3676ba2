-- ===== src/Embedded/Traces.antt =====
-- The store of src/lib.rs beside that of src/store.rs, along the same operations.
use redistill.Base.{ℕ, ◌≤◌, ◌≡◌, sym, ap, ◌∙◌, [], ◌∷◌, arith}
use mathlib.Core.Path.{subst}
use redistill.Store.State.{Env, Store}
use redistill.Store.View
use redistill.Store.View.{
  Items, Response, Request, set_request, get_request, type_request, delete_request, exists_request,
  hset_request, hget_request, hgetall_request, hdel_request, specified, count,
}
use redistill.Store.View.Steps
use redistill.Store.View.Tables.{Tables, Promise, exactly, Keeps, promised}
use redistill.Store.View.Meaning.{Means, specified-Means, specified_rest}
use redistill.Store.View.Traces.{Timed, Ascending, Shows-later}
use redistill.Embedded.{Crates, ShardedStore}
use redistill.Embedded.Steps.{Shows, respond, Agrees, respond-Shows}

-- Both replies are as promised; only a count of DEL of the library's store may be larger.
abbrev pub BothKeep : Request → Response → Response → Promise → Type 0
BothKeep (delete_request keys) ours theirs p =
    (n : ℕ) × (k : ℕ) × (ours ≡ count n) × (theirs ≡ count k) × (p ≡ exactly (count k)) × (k ≤ n)
BothKeep r ours theirs p = Keeps ours p × Keeps theirs p

-- The library's store and the server's reply at each operation as the one map promises.
abbrev pub Alongside : (C : Crates) (E : Env) → Timed → Tables → ShardedStore C → Store E → Type 0
Alongside C E [] ts t s = Unit
Alongside C E ((r, now) ∷ requests) ts t s =
    BothKeep r (respond C t r now).0 (View.respond E s r now).0 (promised ts r now).0
    × Alongside C E requests (promised ts r now).1 (respond C t r now).1 (View.respond E s r now).1

module _ (C : Crates) (E : Env) where
  embedded_later :
      (now later : ℕ) (t : ShardedStore C) (m : Items)
      → now ≤ later
      → Shows C now t m
      → Shows C later t m
  embedded_later now later t m h sh = record {
    wf = sh.wf;
    same = λ j after le. sh.same j after (omega arith);
  }

  both_keep :
      (now : ℕ) (m : Items) (ts : Tables) (r : Request) (ours theirs : Response)
      → Means m ts
      → Agrees r ours (specified C.hash_maps m r now).0
      → theirs ≡ (specified E.hash_maps m r now).0
      → BothKeep r ours theirs (promised ts r now).0
  both_keep now m ts (delete_request keys) ours theirs means (n, k, a, b, le) e =
      let (kept, next) = specified-Means E.hash_maps now m ts (delete_request keys) means in
      (n, k, a, e ∙ b, ap exactly (sym kept ∙ b), le)
  both_keep now m ts (set_request key v ttl) ours theirs means a e = (a, e)
  both_keep now m ts (get_request key) ours theirs means a e =
      let (kept, next) = specified-Means E.hash_maps now m ts (get_request key) means in
      (a ∙ kept, e ∙ kept)
  both_keep now m ts (type_request key) ours theirs means a e =
      let (kept, next) = specified-Means E.hash_maps now m ts (type_request key) means in
      (a ∙ kept, e ∙ kept)
  both_keep now m ts (exists_request keys) ours theirs means a e =
      let (kept, next) = specified-Means E.hash_maps now m ts (exists_request keys) means in
      (a ∙ kept, e ∙ kept)
  both_keep now m ts (hset_request key fields) ours theirs means a e =
      let (kept, next) = specified-Means E.hash_maps now m ts (hset_request key fields) means in
      (a ∙ kept, e ∙ kept)
  both_keep now m ts (hget_request key f) ours theirs means a e =
      let (kept, next) = specified-Means E.hash_maps now m ts (hget_request key f) means in
      (a ∙ kept, e ∙ kept)
  both_keep now m ts (hgetall_request key) ours theirs means a e = (
    rw a (specified-Means C.hash_maps now m ts (hgetall_request key) means).0,
    rw e (specified-Means E.hash_maps now m ts (hgetall_request key) means).0,
  )
  both_keep now m ts (hdel_request key fields) ours theirs means a e =
      let (kept, next) = specified-Means E.hash_maps now m ts (hdel_request key fields) means in
      (a ∙ kept, e ∙ kept)

  -- Along any sequence of set, get, key_type, delete, exists, hset, hget, hgetall and hdel, at
  -- times that do not decrease, the store of the library crate and the server's store both give the
  -- replies of one map from keys to strings and to finite maps of fields, which expire; hgetall
  -- lists each field with its value once, in an order that may differ between the two, and only the
  -- count of the library's delete may be larger. Both stores are well-formed and show at the start
  -- what the map holds.
  pub responses-Alongside :
      (now : ℕ) (t : ShardedStore C) (s : Store E) (m : Items) (ts : Tables) (requests : Timed)
      → Shows C now t m
      → View.Shows E now s m
      → Means m ts
      → Ascending now requests
      → Alongside C E requests ts t s
  responses-Alongside now t s m ts [] ours theirs means up = tt
  responses-Alongside now t s m ts ((r, later) ∷ requests) ours theirs means (h, up) =
      let (agree, next) = respond-Shows C later t m r (embedded_later now later t m h ours) in
      let (same, there) =
        Steps.respond-Shows E later s m r (Shows-later E now later s m h theirs) in
      (
        both_keep later m ts r _ _ means agree same,
        responses-Alongside later _ _ _ _ requests
            (subst (Shows C later (respond C t r later).1)
              (specified_rest C.hash_maps E.hash_maps later m r) next)
            there (specified-Means E.hash_maps later m ts r means).1 up,
      )

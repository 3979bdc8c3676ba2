-- ===== src/Commands/Balance/Fields.antt =====
-- HSET, HGET, HGETALL and HDEL of src/main.rs and the accounts.
use redistill.Base.{ℕ, ◌≡◌, true, false, Option, none, some, List, [], ◌∷◌, ltb, Bytes}
use redistill.Store.Entry.{Entry, hash, Fields}
use redistill.Store.State.{Env, Store, IsWf, find}
use redistill.Store.Hashes.{remove_fields, is_empty}
use redistill.Store.Hashes.Balance.{hset-IsBalanced, hget-IsBalanced, hgetall-IsBalanced}
use redistill.Store.Hashes.Shrink.{hdel-IsBalanced}
use redistill.Store.Balance.{IsBalanced}
use redistill.Commands.Many.{pairs_of}
use redistill.Commands.HashCommands.{
  hset_args, handle_hset, handle_hget, handle_hgetall, handle_hdel,
}
use redistill.Commands.Balance.{same-IsBalanced}

-- If the key holds a hash, fields are left of it when the given ones are removed.
abbrev pub LeavesField : (E : Env) → Store E → Bytes → List Bytes → Type 0
LeavesField E s key fields =
    (e : Entry) (map : Fields)
    → find E s key ≡ some e
    → e.value ≡ hash map
    → is_empty (remove_fields fields map 0).1 ≡ false

module _ (E : Env) (tracked : ltb 0 E.config.max_memory ≡ true) where
  hset_args-IsBalanced :
      (s : Store E) (key : Bytes) (o : Option (List (Bytes × Bytes))) (w : Bytes) (now : ℕ)
      → IsWf E s
      → IsBalanced E s (hset_args E s key o w now).1
  unfolding hset_args
  hset_args-IsBalanced s key none w now wf = same-IsBalanced E tracked s wf
  hset_args-IsBalanced s key (some []) w now wf = same-IsBalanced E tracked s wf
  hset_args-IsBalanced s key (some (p ∷ pairs)) w now wf =
      hset-IsBalanced E tracked s key (p ∷ pairs) now wf

  pub handle_hset-IsBalanced :
      (s : Store E) (args : List Bytes) (w : Bytes) (now : ℕ)
      → IsWf E s
      → IsBalanced E s (handle_hset E s args w now).1
  unfolding handle_hset
  handle_hset-IsBalanced s [] w now wf = same-IsBalanced E tracked s wf
  handle_hset-IsBalanced s (cmd ∷ []) w now wf = same-IsBalanced E tracked s wf
  handle_hset-IsBalanced s (cmd ∷ key ∷ args) w now wf =
      hset_args-IsBalanced s key (pairs_of args) w now wf

  pub handle_hget-IsBalanced :
      (s : Store E) (args : List Bytes) (w : Bytes) (now : ℕ)
      → IsWf E s
      → IsBalanced E s (handle_hget E s args w now).1
  unfolding handle_hget
  handle_hget-IsBalanced s [] w now wf = same-IsBalanced E tracked s wf
  handle_hget-IsBalanced s (cmd ∷ []) w now wf = same-IsBalanced E tracked s wf
  handle_hget-IsBalanced s (cmd ∷ key ∷ []) w now wf = same-IsBalanced E tracked s wf
  handle_hget-IsBalanced s (cmd ∷ key ∷ field ∷ rest) w now wf =
      hget-IsBalanced E tracked s key field now wf

  pub handle_hgetall-IsBalanced :
      (s : Store E) (args : List Bytes) (w : Bytes) (now : ℕ)
      → IsWf E s
      → IsBalanced E s (handle_hgetall E s args w now).1
  unfolding handle_hgetall
  handle_hgetall-IsBalanced s [] w now wf = same-IsBalanced E tracked s wf
  handle_hgetall-IsBalanced s (cmd ∷ []) w now wf = same-IsBalanced E tracked s wf
  handle_hgetall-IsBalanced s (cmd ∷ key ∷ rest) w now wf =
      hgetall-IsBalanced E tracked s key now wf

  pub handle_hdel-IsBalanced :
      (s : Store E) (cmd key field : Bytes) (fields : List Bytes) (w : Bytes) (now : ℕ)
      → IsWf E s
      → LeavesField E s key (field ∷ fields)
      → IsBalanced E s (handle_hdel E s (cmd ∷ key ∷ field ∷ fields) w now).1
  unfolding handle_hdel
  handle_hdel-IsBalanced s cmd key field fields w now wf left =
      hdel-IsBalanced E tracked s key (field ∷ fields) now wf left

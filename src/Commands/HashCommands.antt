-- ===== src/Commands/HashCommands.antt =====
-- `handle_hset`, `handle_hget`, `handle_hgetall` and `handle_hdel` of src/main.rs.
use redistill.Base.{ℕ, Option, some, List, ◌∷◌, Bytes, codes}
use redistill.Resp.Writer.{write_integer, write_array, write_error}
use redistill.Store.State.{Env, Store}
use redistill.Store.Hashes.{Reply, ok, wrong_type, hset, hget, hgetall, hdel}
use redistill.Commands.Words.{wrong_type_message}
use redistill.Commands.Set.{write_optional}
use redistill.Commands.Many.{pairs_of}

-- The reply of a hash command.
unfoldable pub write_reply {ℓ} : {A : Type ℓ} → (Bytes → A → Bytes) → Bytes → Reply A → Bytes
write_reply write w (ok a) = write w a
write_reply write w wrong_type = write_error w wrong_type_message

module _ (E : Env) where
  unfoldable pub hset_args :
      Store E → Bytes → Option (List (Bytes × Bytes)) → Bytes → ℕ → Bytes × Store E
  hset_args s key (some (p ∷ pairs)) w now =
      let (r, s1) = hset E s key (p ∷ pairs) now in (write_reply write_integer w r, s1)
  hset_args s key _ w now =
      (write_error w (codes "wrong number of arguments for 'hset' command"), s)

  unfoldable pub handle_hset : Store E → List Bytes → Bytes → ℕ → Bytes × Store E
  handle_hset s (cmd ∷ key ∷ args) w now = hset_args s key (pairs_of args) w now
  handle_hset s _ w now = (write_error w (codes "wrong number of arguments for 'hset' command"), s)

  unfoldable pub handle_hget : Store E → List Bytes → Bytes → ℕ → Bytes × Store E
  handle_hget s (cmd ∷ key ∷ field ∷ rest) w now =
      let (r, s1) = hget E s key field now in (write_reply write_optional w r, s1)
  handle_hget s _ w now = (write_error w (codes "wrong number of arguments for 'hget' command"), s)

  unfoldable pub handle_hgetall : Store E → List Bytes → Bytes → ℕ → Bytes × Store E
  handle_hgetall s (cmd ∷ key ∷ rest) w now =
      let (r, s1) = hgetall E s key now in (write_reply write_array w r, s1)
  handle_hgetall s _ w now =
      (write_error w (codes "wrong number of arguments for 'hgetall' command"), s)

  unfoldable pub handle_hdel : Store E → List Bytes → Bytes → ℕ → Bytes × Store E
  handle_hdel s (cmd ∷ key ∷ field ∷ fields) w now =
      let (r, s1) = hdel E s key (field ∷ fields) now in (write_reply write_integer w r, s1)
  handle_hdel s _ w now = (write_error w (codes "wrong number of arguments for 'hdel' command"), s)

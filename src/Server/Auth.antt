-- ===== src/Server/Auth.antt =====
-- `handle_auth` of src/main.rs, and `ConnectionState::new` and `check_rate_limit` of src/server.rs.
use redistill.Base.{
  Bool, true, false, not, List, [], ◌∷◌, ltb, ◌==◌, if◌then◌else◌, Bytes, codes, beq,
}
use redistill.Store.State.{Env, fetch_add}
use redistill.Resp.Writer.{write_simple_string, write_error}
use redistill.Server.{Settings, World, Connection}

abbrev pub is_nil : Bytes → Bool
is_nil [] = true
is_nil (b ∷ s) = false

-- `ConnectionState::new`, with an empty buffer
unfoldable pub new_connection : Settings → Connection
new_connection cfg = record { authenticated = is_nil cfg.password; writer = [] }

-- The comparison `ct_eq` takes the same time wherever the two differ.
unfoldable pub handle_auth : Settings → List Bytes → Connection → Connection
handle_auth cfg command c =
    if is_nil cfg.password
    then record c {
      writer = write_error c.writer (codes "ERR Client sent AUTH, but no password is set");
    }
    else elim command [
      | cmd ∷ provided ∷ rest ↦
          if beq provided cfg.password
          then record { authenticated = true; writer = write_simple_string c.writer (codes "OK") }
          else record c { writer = write_error c.writer (codes "ERR invalid password") }
      | _ ↦ record c {
        writer = write_error c.writer (codes "ERR wrong number of arguments for 'auth' command");
      }
    ]

module _ (E : Env) where
  -- Whether a connection is let in, at the time of the store's clock.
  unfoldable pub check_rate_limit : Settings → World E → World E × Bool
  check_rate_limit cfg w =
      let now = w.store.clock in
      let first = record w { last_rate_check = now; connections_this_second = 1 } in
      let more = record w { connections_this_second = fetch_add w.connections_this_second 1 } in
      if cfg.connection_rate_limit == 0
      then (w, true)
      else if not (now == w.last_rate_check)
      then (first, true)
      else (more, ltb w.connections_this_second cfg.connection_rate_limit)

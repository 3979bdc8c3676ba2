-- ===== src/Server/Link/Shut.antt =====
-- Connections of src/main.rs that do not authenticate.
use redistill.Base.{
  ℕ, ◌+◌, ◌≡◌, refl, Bool, true, false, ◌||◌, not, List, [], ◌∷◌, ◌++◌, leb, if◌then◌else◌, Bytes,
  All,
}
use redistill.Store.State.{Env, fetch_add}
use redistill.Resp.Writer.{should_flush}
use redistill.Server.{Settings, System, World, Session}
use redistill.Server.Auth.{new_connection, is_nil}
use redistill.Server.Execute.{execute_command}
use redistill.Server.Execute.Gate.{presents_password, IsShut, IsShut-trans, execute_command-IsShut}
use redistill.Server.Link.{Turn, Link, close, serve, handle_connection}

if-then_or :
    {A : Type 0} (b c : Bool) (P : A → Type 1) {x y z : A}
    → P x
    → P y
    → P z
    → P (if b then (if c then x else y) else z)
if-then_or true true P px py pz = px
if-then_or true false P px py pz = py
if-then_or false c P px py pz = pz

module _ (E : Env) (cfg : Settings) (sys : System)
    (some_password : is_nil cfg.password ≡ false) where
  close-IsShut :
      (s : Session E) (sent : Bytes) (flushed : Bool)
      → s.1.authenticated ≡ false
      → IsShut E s.0 (close E cfg sys s sent flushed).0
  unfolding close
  close-IsShut s sent true out = record {
    store = refl;
    aof = refl;
    saves = refl;
    spawned = refl;
    authenticated = out;
  }
  close-IsShut s sent false out = record {
    store = refl;
    aof = refl;
    saves = refl;
    spawned = refl;
    authenticated = out;
  }

  -- With its buffer emptied a session is as shut as before.
  emptied-IsShut :
      (w : World E) (s : Session E) → IsShut E w s → IsShut E w (s.0, record (s.1) { writer = [] })
  emptied-IsShut w s h = record {
    store = h.store;
    aof = h.aof;
    saves = h.saves;
    spawned = h.spawned;
    authenticated = h.authenticated;
  }

  serve-IsShut :
      (turns : List Turn) (s : Session E) (sent : Bytes) (batch_count : ℕ) (last_flush : Bool)
      → s.1.authenticated ≡ false
      → All (λ t. presents_password cfg t.command ≡ false) turns
      → IsShut E s.0 (serve E cfg sys turns s sent batch_count last_flush).0
  unfolding serve
  serve-IsShut [] s sent batch_count last_flush out wrong = close-IsShut s sent last_flush out
  serve-IsShut (turn ∷ turns) s sent batch_count last_flush out (wrong, rest) =
      let t = execute_command E cfg sys s.0 turn.command s.1 turn.now turn.answers in
      let h =
        execute_command-IsShut E cfg sys some_password s.0 turn.command s.1 turn.now turn.answers
          out wrong in
      if-then_or
        (leb cfg.batch_size (batch_count + 1) || (should_flush t.1.writer || not turn.buffered))
        turn.flushed (λ (l : Link E). IsShut E s.0 l.0)
        (IsShut-trans E cfg sys some_password s.0 _ _ (emptied-IsShut s.0 t h) (
          serve-IsShut turns (t.0, record (t.1) { writer = [] }) (sent ++ t.1.writer) 0 last_flush
            h.authenticated rest))
        (IsShut-trans E cfg sys some_password s.0 t _ h
          (close-IsShut t sent last_flush h.authenticated))
        (IsShut-trans E cfg sys some_password s.0 t _ h
          (serve-IsShut turns t sent (batch_count + 1) last_flush h.authenticated rest))

  -- While a password is set and a connection presents it in no AUTH, its commands leave the store,
  -- the log, the snapshots and the background tasks as they were, and it stays unauthenticated,
  -- whatever it sends.
  pub handle_connection-IsShut :
      (turns : List Turn) (w : World E) (last_flush : Bool)
      → All (λ t. presents_password cfg t.command ≡ false) turns
      → IsShut E w (handle_connection E cfg sys turns w last_flush).0
  unfolding handle_connection new_connection
  handle_connection-IsShut turns w last_flush wrong =
      let h =
        serve-IsShut turns
          (
            record w {
              total_connections = fetch_add w.total_connections 1;
              active_connections = fetch_add w.active_connections 1;
            },
            new_connection cfg,
          )
          [] 0 last_flush some_password wrong in
      record {
        store = h.store;
        aof = h.aof;
        saves = h.saves;
        spawned = h.spawned;
        authenticated = h.authenticated;
      }

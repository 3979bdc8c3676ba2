-- ===== src/Server/Link.antt =====
-- The loop of `handle_connection` in src/main.rs, from one command to the next.
use redistill.Base.{
  ℕ, zero, suc, ◌+◌, ◌-◌, ◌*◌, ◌/◌, ◌%◌, ◌^◌, ◌≤◌, ◌<◌, min, max, ◌≡◌, refl, sym, ap, ◌∙◌, ◌≢◌, ◌↔◌,
  ◌⊎◌, inl, inr, Bool, true, false, ◌&&◌, ◌||◌, not, Option, none, some, List, [], ◌∷◌, ◌++◌,
  append_assoc, append-nil, arith, ltb, leb, ◌==◌, if◌then◌else◌, Bytes, codes, beq, length, take,
  drop, All, length-append, take-append, Bool-cases, Option-cases, le→ltb, lt→ltb, beq_iff,
  beq_refl, get_or, set,
}
pub mod Shut
pub mod Stale
use redistill.Store.State.{Env, Store, fetch_add, fetch_sub}
use redistill.Resp.Writer.{should_flush}
use redistill.Server.{Settings, System, World, Connection, Answers, Session}
use redistill.Server.Auth.{new_connection}
use redistill.Server.Execute.{execute_command, count_command, run_command}

-- What `parse_command` returned, with the time and what the disk answers meanwhile; whether the parser
-- has more bytes buffered, and whether a flush of the replies then succeeds. The list of a connection
-- ends where `parse_command` fails or times out, or the server shuts down.
pub record Turn : Type 0 where
  pub command : List Bytes
  pub now : ℕ
  pub answers : Answers
  pub buffered : Bool
  pub flushed : Bool

-- What was sent, behind the session.
abbrev pub Link : Env → Type 0
Link E = Session E × Bytes

module _ (E : Env) (cfg : Settings) (sys : System) where
  -- Behind the loop: the rest of the thread's count, the last flush, and the connection's end.
  unfoldable pub close : Session E → Bytes → Bool → Link E
  close s sent flushed =
      let w = record (s.0) {
        total_commands = (s.0.total_commands + s.0.local_cmd_count) % 2 ^ 64;
        local_cmd_count = 0;
        active_connections = fetch_sub s.0.active_connections 1;
      } in
      if flushed then ((w, record (s.1) { writer = [] }), sent ++ s.1.writer) else ((w, s.1), sent)

  unfoldable pub serve : List Turn → Session E → Bytes → ℕ → Bool → Link E
  serve [] s sent batch_count last_flush = close s sent last_flush
  serve (turn ∷ turns) s sent batch_count last_flush =
      let t = execute_command E cfg sys s.0 turn.command s.1 turn.now turn.answers in
      let after_flush =
        serve turns (t.0, record (t.1) { writer = [] }) (sent ++ t.1.writer) 0 last_flush in
      let after_none = serve turns t sent (batch_count + 1) last_flush in
      if leb cfg.batch_size (batch_count + 1) || (should_flush t.1.writer || not turn.buffered)
      then (if turn.flushed then after_flush else close t sent last_flush)
      else after_none

  unfoldable pub handle_connection : List Turn → World E → Bool → Link E
  handle_connection turns w last_flush =
      let opened = record w {
        total_connections = fetch_add w.total_connections 1;
        active_connections = fetch_add w.active_connections 1;
      } in
      serve turns (opened, new_connection cfg) [] 0 last_flush

-- ===== src/Server/Link/Stale.antt =====
-- The time of a command in the loop of `handle_connection` in src/main.rs: it is read before the loop
-- waits for the command.
use redistill.Base.{
  ℕ, ◌+◌, ◌%◌, ◌^◌, ◌≤◌, ◌<◌, ◌≡◌, ap, ◌∙◌, Option, none, some, [], ◌∷◌, arith, Bytes, beq_refl,
}
use redistill.Store.Entry.{string, is_expired}
use redistill.Store.State.{Env, Store}
use redistill.Store.View.{
  Item, Items, Shows, seen, update, string_of, set_request, get_request, stored, value,
}
use redistill.Commands.Visible.{on_store, response, Timeline, answers, answers-Shows}

-- Commands with the times at which they arrive become commands with the times that they run with: that
-- of the start of the loop, which is when the command before was done. A command takes no time.
unfoldable pub stamped : ℕ → Timeline → Timeline
stamped start [] = []
stamped start ((c, arrival) ∷ commands) = (c, start) ∷ stamped arrival commands

seen_over :
    (m : Items) (key v : Bytes) (start seconds arrival : ℕ)
    → start + seconds ≤ arrival
    → start + seconds < 2 ^ 64
    → seen arrival (update m key (some (string v, some ((start + seconds) % 2 ^ 64))) key) ≡ none
unfolding is_expired
seen_over m key v start seconds arrival waited fits = rw (beq_refl key) (ground arith)

-- A SET with a time to live is lost when its connection was idle for as long before: at a GET that
-- comes right behind it, whenever that is, the key is not there, since a command runs with the time
-- at which the loop began to wait for it. The store is well-formed, and the expiry fits a u64.
pub answers-stamped :
    (E : Env) (s : Store E) (m : Items) (key v : Bytes) (start seconds arrival later : ℕ)
    → Shows E start s m
    → start + seconds ≤ arrival
    → start + seconds < 2 ^ 64
    → answers E s (
        stamped start (
          (on_store (set_request key v (some seconds)), arrival)
          ∷ (on_store (get_request key), later)
          ∷ []))
      ≡ response stored ∷ response (value none) ∷ []
unfolding stamped
answers-stamped E s m key v start seconds arrival later sh waited fits =
    answers-Shows E start s m
      ((on_store (set_request key v (some seconds)), start)
        ∷ (on_store (get_request key), arrival)
        ∷ [])
      sh (omega arith)
    ∙ ap (λ (i : Option Item). response stored ∷ response (value (string_of i)) ∷ [])
        (seen_over m key v start seconds arrival waited fits)

-- ===== src/Server/Execute/Gate.antt =====
-- The check for authentication in `execute_command` of src/main.rs, and the names of the commands.
use redistill.Base.{
  ℕ, ◌+◌, ◌≡◌, refl, ◌∙◌, inl, inr, Bool, true, false, ◌&&◌, List, [], ◌∷◌, arith, leb,
  if◌then◌else◌, Bytes, codes, beq, Bool-cases,
}
use redistill.Store.State.{Env}
use redistill.Commands.Words.{eq_ignore_case}
use redistill.Server.{Settings, System, World, Connection, Answers, Session}
use redistill.Server.Words
use redistill.Server.Words.{Word, word_of, find_word, names}
use redistill.Server.Auth.{handle_auth, is_nil}
use redistill.Server.Execute.{dispatch, count_command, requires_auth, run_command, execute_command}

-- A word that spells one name spells another just when the names are the same.
eq_ignore_case-same :
    (cmd w v : Bytes) → eq_ignore_case cmd w ≡ true → eq_ignore_case cmd v ≡ beq w v
unfolding eq_ignore_case beq
eq_ignore_case-same [] [] [] h = refl
eq_ignore_case-same [] [] (c ∷ v) h = refl
eq_ignore_case-same [] (c ∷ w) v h = absurd (ground (arith, h))
eq_ignore_case-same (b ∷ s) [] v h = absurd (ground (arith, h))
eq_ignore_case-same (b ∷ s) (c ∷ w) [] h = refl
eq_ignore_case-same (b ∷ s) (c ∷ w) (d ∷ v) h = ground (arith, eq_ignore_case-same s w v)

-- The word that stands beside a name.
abbrev pub beside : List (Bytes × Word) → Bytes → Word
beside [] w = Words.unknown_word
beside ((name, word) ∷ rest) w = if beq w name then word else beside rest w

find_word-beside :
    (l : List (Bytes × Word)) (cmd w : Bytes)
    → eq_ignore_case cmd w ≡ true
    → find_word l cmd ≡ beside l w
unfolding find_word
find_word-beside [] cmd w h = refl
find_word-beside ((name, word) ∷ rest) cmd w h =
    rw (eq_ignore_case-same cmd w name h, find_word-beside rest cmd w h)

word_of_auth :
    (cmd : Bytes) → eq_ignore_case cmd (codes "auth") ≡ true → word_of cmd ≡ Words.auth_word
unfolding word_of names beq
word_of_auth cmd h = find_word-beside names cmd (codes "auth") h

word_of_ping :
    (cmd : Bytes) → eq_ignore_case cmd (codes "ping") ≡ true → word_of cmd ≡ Words.ping_word
unfolding word_of names beq
word_of_ping cmd h = find_word-beside names cmd (codes "ping") h

-- An AUTH with the password.
abbrev pub presents_password : Settings → List Bytes → Bool
presents_password cfg (cmd ∷ provided ∷ rest) =
    eq_ignore_case cmd (codes "auth") && beq provided cfg.password
presents_password cfg _ = false

-- All but the counters of the commands is as it was, and the connection is still shut out.
pub record IsShut (E : Env) (w : World E) (s : Session E) : Type 1 where
  pub store : s.0.store ≡ w.store
  pub aof : s.0.aof ≡ w.aof
  pub saves : s.0.saves ≡ w.saves
  pub spawned : s.0.spawned ≡ w.spawned
  pub authenticated : s.1.authenticated ≡ false

handle_auth_shut :
    (cfg : Settings) (cmd : Bytes) (args : List Bytes) (c : Connection)
    → is_nil cfg.password ≡ false
    → eq_ignore_case cmd (codes "auth") ≡ true
    → presents_password cfg (cmd ∷ args) ≡ false
    → c.authenticated ≡ false
    → (handle_auth cfg (cmd ∷ args) c).authenticated ≡ false
unfolding handle_auth
handle_auth_shut cfg cmd [] c some_password is_auth wrong out = rw some_password out
handle_auth_shut cfg cmd (provided ∷ rest) c some_password is_auth wrong out =
    let p : beq provided cfg.password ≡ false = ground (arith, is_auth, wrong) in
    rw (some_password, p) out

module _ (E : Env) (cfg : Settings) (sys : System)
    (some_password : is_nil cfg.password ≡ false) where
  count_command-IsShut :
      (w : World E) (c : Connection) → c.authenticated ≡ false → IsShut E w (count_command E w, c)
  unfolding count_command
  count_command-IsShut w c out = elim (Bool-cases (leb 256 (w.local_cmd_count + 1))) [
    | inl e ↦
        rw e
          (record { store = refl; aof = refl; saves = refl; spawned = refl; authenticated = out })
    | inr e ↦
        rw e
          (record { store = refl; aof = refl; saves = refl; spawned = refl; authenticated = out })
  ]

  run_command-IsShut :
      (w : World E) (command : List Bytes) (c : Connection) (now : ℕ) (answers : Answers)
      → c.authenticated ≡ false
      → presents_password cfg command ≡ false
      → IsShut E w (run_command E cfg sys w command c now answers)
  unfolding run_command requires_auth dispatch
  run_command-IsShut w [] c now answers out wrong = record {
    store = refl;
    aof = refl;
    saves = refl;
    spawned = refl;
    authenticated = out;
  }
  run_command-IsShut w (cmd ∷ args) c now answers out wrong =
      elim (Bool-cases (eq_ignore_case cmd (codes "auth"))) [
        | inl a ↦
            rw (a, word_of_auth cmd a)
              (record {
                store = refl;
                aof = refl;
                saves = refl;
                spawned = refl;
                authenticated = handle_auth_shut cfg cmd args c some_password a wrong out;
              })
        | inr a ↦ elim (Bool-cases (eq_ignore_case cmd (codes "ping"))) [
          | inl p ↦
              rw (a, p, word_of_ping cmd p)
                (record {
                  store = refl;
                  aof = refl;
                  saves = refl;
                  spawned = refl;
                  authenticated = out;
                })
          | inr p ↦
              rw (a, p, out)
                (record {
                  store = refl;
                  aof = refl;
                  saves = refl;
                  spawned = refl;
                  authenticated = refl;
                })
        ]
      ]

  pub IsShut-trans :
      (w : World E) (s : Session E) (t : Session E) → IsShut E w s → IsShut E s.0 t → IsShut E w t
  IsShut-trans w s t f g = record {
    store = g.store ∙ f.store;
    aof = g.aof ∙ f.aof;
    saves = g.saves ∙ f.saves;
    spawned = g.spawned ∙ f.spawned;
    authenticated = g.authenticated;
  }

  pub execute_command-IsShut :
      (w : World E) (command : List Bytes) (c : Connection) (now : ℕ) (answers : Answers)
      → c.authenticated ≡ false
      → presents_password cfg command ≡ false
      → IsShut E w (execute_command E cfg sys w command c now answers)
  unfolding execute_command
  execute_command-IsShut w command c now answers out wrong =
      IsShut-trans w (count_command E w, c) _ (count_command-IsShut w c out)
        (run_command-IsShut (count_command E w) command c now answers out wrong)

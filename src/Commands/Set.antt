-- ===== src/Commands/Set.antt =====
-- `handle_set` of src/main.rs. A handler takes the store, the command, the reply buffer and the time,
-- and returns the buffer and the store.
use redistill.Base.{
  ℕ, ◌+◌, ◌/◌, Bool, true, false, ◌&&◌, ◌||◌, not, Option, none, some, List, [], ◌∷◌, ltb,
  if◌then◌else◌, Bytes, codes, length,
}
use redistill.Resp.Decimal.{parse_u64}
use redistill.Resp.Writer.{write_simple_string, write_bulk_string, write_null, write_error}
use redistill.Store.Entry.{is_expired, entry_size}
use redistill.Store.State.{Env, Store, find, sub_memory, add_memory}
use redistill.Store.Strings.{as_string, set}
use redistill.Store.Evict.{evict_if_needed}
use redistill.Commands.Words.{eq_ignore_case, wrong_arguments, not_an_integer, oom_message}

pub record SetOptions : Type 0 where
  pub ttl : Option ℕ
  pub nx : Bool
  pub xx : Bool
  pub wants_old : Bool

abbrev pub no_options : SetOptions
no_options = record { ttl = none; nx = false; xx = false; wants_old = false }

pub data SetWord : Type 0 where
  ex_word px_word nx_word xx_word get_word unknown_word : SetWord

unfoldable pub set_word : Bytes → SetWord
set_word opt =
    if eq_ignore_case opt (codes "ex")
    then ex_word
    else if eq_ignore_case opt (codes "px")
    then px_word
    else if eq_ignore_case opt (codes "nx")
    then nx_word
    else if eq_ignore_case opt (codes "xx")
    then xx_word
    else if eq_ignore_case opt (codes "get")
    then get_word
    else unknown_word

-- The options, or the message of the error that ends the handler.
pub data Options : Type 0 where
  options : SetOptions → Options
  refused : Bytes → Options

abbrev pub syntax_error : Bytes
syntax_error = codes "syntax error"

-- `div_ceil(1000)`
abbrev pub seconds_of_millis : ℕ → ℕ
seconds_of_millis v = (v + 999) / 1000

-- The positive number behind EX or PX.
unfoldable pub positive : Bytes → Option ℕ
positive arg = elim (parse_u64 arg) [ none ↦ none | some v ↦ if ltb 0 v then some v else none ]

unfoldable pub parse_options : List Bytes → SetOptions → Options
parse_options [] o = options o
parse_options (opt ∷ []) o = elim (set_word opt) [
  | nx_word ↦ options (record o { nx = true })
  | xx_word ↦ options (record o { xx = true })
  | get_word ↦ options (record o { wants_old = true })
  | _ ↦ refused syntax_error
]
parse_options (opt ∷ arg ∷ rest) o = elim (set_word opt) [
  | ex_word ↦ (elim (positive arg) [
    | none ↦ refused not_an_integer
    | some v ↦ parse_options rest (record o { ttl = some v })
  ])
  | px_word ↦ (elim (positive arg) [
    | none ↦ refused not_an_integer
    | some v ↦ parse_options rest (record o { ttl = some (seconds_of_millis v) })
  ])
  | nx_word ↦ parse_options (arg ∷ rest) (record o { nx = true })
  | xx_word ↦ parse_options (arg ∷ rest) (record o { xx = true })
  | get_word ↦ parse_options (arg ∷ rest) (record o { wants_old = true })
  | unknown_word ↦ refused syntax_error
]

unfoldable pub is_some {ℓ} : {A : Type ℓ} → Option A → Bool
is_some none = false
is_some (some a) = true

-- A bulk string, or null.
unfoldable pub write_optional : Bytes → Option Bytes → Bytes
write_optional w none = write_null w
write_optional w (some v) = write_bulk_string w v

module _ (E : Env) where
  -- The string at a key, unless it has expired. A hash is treated as not found.
  unfoldable pub live_string : Store E → Bytes → ℕ → Option Bytes
  live_string s key now = elim (find E s key) [
    | none ↦ none
    | some e ↦ if is_expired now e.expiry then none else as_string e.value
  ]

  unfoldable pub sub_old : Store E → Option ℕ → Store E
  sub_old s none = s
  sub_old s (some old) = sub_memory E s old

  -- `store.set`, and the accounts of its callers
  unfoldable pub set_accounted : Store E → Bytes → Bytes → Option ℕ → ℕ → Store E
  set_accounted s key value ttl now =
      let (old_size, s1) = set E s key value ttl now in
      if ltb 0 E.config.max_memory
      then add_memory E (sub_old s1 old_size) (entry_size (length key) (length value))
      else s1

  -- Behind the options.
  unfoldable pub set_with : Store E → Bytes → Bytes → SetOptions → Bytes → ℕ → Bytes × Store E
  set_with s key value o w now =
      let old_value = if o.nx || o.xx || o.wants_old then live_string s key now else none in
      let key_exists = is_some old_value in
      let stored = set_accounted s key value o.ttl now in
      if o.nx && o.xx
      then (write_error w (codes "XX and NX options at the same time are not compatible"), s)
      else if o.nx && key_exists
      then (if o.wants_old then write_optional w old_value else write_null w, s)
      else if o.xx && not key_exists
      then (write_null w, s)
      else (
        if o.wants_old then write_optional w old_value else write_simple_string w (codes "OK"),
        stored,
      )

  unfoldable pub set_parsed : Store E → Bytes → Bytes → Options → Bytes → ℕ → Bytes × Store E
  set_parsed s key value (refused message) w now = (write_error w message, s)
  set_parsed s key value (options o) w now = set_with s key value o w now

  unfoldable pub handle_set : Store E → List Bytes → Bytes → ℕ → Bytes × Store E
  handle_set s (cmd ∷ key ∷ value ∷ opts) w now =
      let (room, s1) = evict_if_needed E s (entry_size (length key) (length value)) in
      if room
      then set_parsed s1 key value (parse_options opts no_options) w now
      else (write_error w oom_message, s1)
  handle_set s _ w now = (write_error w wrong_arguments, s)

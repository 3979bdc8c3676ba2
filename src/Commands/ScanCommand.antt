-- ===== src/Commands/ScanCommand.antt =====
-- `handle_scan` of src/main.rs.
use redistill.Base.{ℕ, none, some, Option, List, [], ◌∷◌, if◌then◌else◌, Bytes, codes, length}
use redistill.Resp.Decimal.{parse_u64, decimal}
use redistill.Resp.Writer.{write_array_header, write_bulk_string, write_bulks, write_error}
use redistill.Store.State.{Env, Store}
use redistill.Store.Scan.{scan}
use redistill.Commands.Words.{eq_ignore_case, not_an_integer}
use redistill.Commands.Set.{syntax_error}

-- The count and the pattern, or the message of an error.
pub data ScanOptions : Type 0 where
  scanning : ℕ → Option Bytes → ScanOptions
  unreadable : Bytes → ScanOptions

unfoldable pub parse_scan : List Bytes → ℕ → Option Bytes → ScanOptions
parse_scan [] count_hint pattern = scanning count_hint pattern
parse_scan (arg ∷ []) count_hint pattern = unreadable syntax_error
parse_scan (arg ∷ value ∷ rest) count_hint pattern =
    let matched = parse_scan rest count_hint (some value) in
    let counted : ScanOptions = elim (parse_u64 value) [
      | none ↦ unreadable not_an_integer
      | some c ↦ parse_scan rest c pattern
    ] in
    if eq_ignore_case arg (codes "match")
    then matched
    else if eq_ignore_case arg (codes "count")
    then counted
    else unreadable syntax_error

-- `[cursor, [key1, key2, ...]]`
unfoldable pub write_page : Bytes → ℕ × List Bytes → Bytes
write_page w (cursor, keys) =
    write_bulks
      (write_array_header (write_bulk_string (write_array_header w 2) (decimal cursor))
        (length keys))
      keys

module _ (E : Env) where
  unfoldable pub scan_with : Store E → ℕ → ScanOptions → Bytes → ℕ → Bytes
  scan_with s cursor (unreadable message) w now = write_error w message
  scan_with s cursor (scanning count_hint pattern) w now =
      write_page w (scan E s cursor count_hint pattern now)

  -- SCAN changes nothing, and returns the reply alone.
  unfoldable pub handle_scan : Store E → List Bytes → Bytes → ℕ → Bytes
  handle_scan s (cmd ∷ cursor ∷ opts) w now = elim (parse_u64 cursor) [
    | none ↦ write_error w (codes "invalid cursor")
    | some c ↦ scan_with s c (parse_scan opts 10 none) w now
  ]
  handle_scan s _ w now = write_error w (codes "wrong number of arguments for 'scan' command")

-- ===== src/Examples/Messages.antt =====
-- The results on the protocol, each applied to a short message.
use redistill.Base.{◌≤◌, ◌≡◌, ◌≢◌, refl, List, [], ◌∷◌, ◌++◌, arith, Bytes, codes, length, All}
use redistill.Resp.Decimal.{write_u64, parse_u64, decimal, is_ascii_digit, scan, fill_digits}
use redistill.Resp.Writer.{write_array, write_bulks, write_bulk_string}
use redistill.Resp.Parser.{
  read_array, read_len, skip_crlf, frame, more, invalid, try_parse, max_buffer_size,
}
use redistill.Resp.Frames.{Fits, try_parse-write_array}
use redistill.Resp.Arrival.{extend, try_parse-append, try_parse_prefix}
use redistill.Resp.Stream.{
  command, reading, parse_command, arrive, end_of_stream, parse_command_in_pieces,
  parse_command_spins,
}

-- GET of a key, as a client sends it.
abbrev get_c : List Bytes
get_c = codes "get" ∷ codes "c" ∷ []

get_c-Fits : Fits get_c
get_c-Fits = record { count = omega arith; sizes = (omega arith, (omega arith, tt)) }

abbrev pong : Bytes
pong = codes "pong"

try_parse-write_array_example : try_parse (write_array [] get_c ++ pong) ≡ frame (get_c, pong)
try_parse-write_array_example = try_parse-write_array get_c pong get_c-Fits

-- A count that is no number.
abbrev no_count : Bytes
no_count = codes "*x\r\n"

no_count-invalid : try_parse no_count ≡ invalid
unfolding try_parse read_array read_len skip_crlf parse_u64 is_ascii_digit scan
no_count-invalid = refl

no_count-ne-more : try_parse no_count ≢ more
no_count-ne-more e = cc (e, no_count-invalid)

try_parse-append_example : try_parse (no_count ++ pong) ≡ extend pong (try_parse no_count)
try_parse-append_example = try_parse-append no_count pong no_count-ne-more

-- The frame of GET, cut in two.
abbrev first_half : Bytes
first_half = codes "*2\r\n$3\r\nge"

abbrev second_half : Bytes
second_half = codes "t\r\n$1\r\nc\r\n"

halves : first_half ++ second_half ≡ write_array [] get_c
unfolding write_array write_bulks write_bulk_string write_u64 decimal fill_digits
halves = refl

second_half-ne-nil : second_half ≢ []
second_half-ne-nil e = cc e

try_parse_prefix_example : try_parse first_half ≡ more
try_parse_prefix_example =
    try_parse_prefix get_c first_half second_half get_c-Fits second_half-ne-nil halves

abbrev pieces : List Bytes
pieces = first_half ∷ second_half ∷ []

no_empty_piece : All (λ c. c ≢ []) pieces
no_empty_piece = ((λ e. cc e), (second_half-ne-nil, tt))

short_frame : length (write_array [] get_c) ≤ max_buffer_size
short_frame = rw (← halves) (omega arith)

parse_command_in_pieces_example : parse_command (arrive pieces []) [] ≡ command get_c [] []
parse_command_in_pieces_example =
    parse_command_in_pieces get_c pieces [] [] get_c-Fits short_frame no_empty_piece halves

parse_command_spins_example : parse_command (end_of_stream 1000) first_half ≡ reading first_half
parse_command_spins_example =
    parse_command_spins 1000 first_half (λ e. cc e) (omega arith) try_parse_prefix_example

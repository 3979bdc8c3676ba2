-- ===== src/Resp/Stream.antt =====
-- `RespParser::parse_command` of src/protocol.rs: the loop that reads from the client until a frame is
-- complete. What `read_buf` returns, one call after the other, is a list.
use redistill.Base.{
  ℕ, zero, suc, ◌+◌, ◌≤◌, ◌≡◌, ◌≢◌, refl, sym, ap, ◌∙◌, List, [], ◌∷◌, ◌++◌, append_assoc,
  append-nil, arith, ltb, ◌==◌, if◌then◌else◌, Bytes, length, All, length-append,
}
use redistill.Resp.Parser.{frame, more, invalid, try_parse, max_buffer_size}
use redistill.Resp.Arrival.{try_parse_prefix}
use redistill.Resp.Frames.{Fits, try_parse-write_array}
use redistill.Resp.Writer.{write_array}

-- `read_buf` appended some bytes (none at the end of the stream), or failed.
pub data Read : Type 0 where
  received : Bytes → Read
  failed : Read

-- A command with the buffer and the reads that are left, `Err(())`, or still reading.
pub data Served : Type 0 where
  command : List Bytes → Bytes → List Read → Served
  closed : Served
  reading : Bytes → Served

unfoldable pub parse_command : List Read → Bytes → Served
parse_command [] buffer = elim (try_parse buffer) [
  | frame (cmd, rest) ↦ command cmd rest []
  | more ↦ if ltb max_buffer_size (length buffer) then closed else reading buffer
  | invalid ↦ closed
]
parse_command (failed ∷ reads) buffer = elim (try_parse buffer) [
  | frame (cmd, rest) ↦ command cmd rest (failed ∷ reads)
  | _ ↦ closed
]
parse_command (received bytes ∷ reads) buffer =
    let again = parse_command reads (buffer ++ bytes) in
    elim (try_parse buffer) [
      | frame (cmd, rest) ↦ command cmd rest (received bytes ∷ reads)
      | more ↦
          if ltb max_buffer_size (length buffer)
          then closed
          else if length (buffer ++ bytes) == 0
          then closed
          else again
      | invalid ↦ closed
    ]

abbrev pub concat : List Bytes → Bytes
concat [] = []
concat (c ∷ cs) = c ++ concat cs

abbrev pub arrive : List Bytes → List Read → List Read
arrive [] reads = reads
arrive (c ∷ cs) reads = received c ∷ arrive cs reads

-- One round that reads on.
parse_command_step :
    (buffer c : Bytes) (reads : List Read)
    → try_parse buffer ≡ more
    → length buffer ≤ max_buffer_size
    → c ≢ []
    → parse_command (received c ∷ reads) buffer ≡ parse_command reads (buffer ++ c)
unfolding parse_command
parse_command_step buffer [] reads m fits some_bytes = absurd (some_bytes refl)
parse_command_step buffer (x ∷ c) reads m fits some_bytes =
    ground (arith, length-append buffer (x ∷ c))

parse_command_done :
    (buffer rest : Bytes) (cmd : List Bytes) (reads : List Read)
    → try_parse buffer ≡ frame (cmd, rest)
    → parse_command reads buffer ≡ command cmd rest reads
unfolding parse_command
parse_command_done buffer rest cmd [] e = rw (e, parse_command)
parse_command_done buffer rest cmd (failed ∷ reads) e = rw (e, parse_command)
parse_command_done buffer rest cmd (received c ∷ reads) e = rw (e, parse_command)

concat-ne-nil : (c : Bytes) (cs : List Bytes) → c ≢ [] → concat (c ∷ cs) ≢ []
concat-ne-nil [] cs h = absurd (h refl)
concat-ne-nil (x ∷ c) cs h = λ e. cc

-- However the bytes of a frame are cut into reads, none of them empty, parse_command returns its
-- command once the last is there, and takes nothing beyond it. The command fits the limits of the
-- parser, and its frame the largest buffer.
pub parse_command_in_pieces :
    (cmd chunks : List Bytes) (buffer : Bytes) (reads : List Read)
    → Fits cmd
    → length (write_array [] cmd) ≤ max_buffer_size
    → All (λ c. c ≢ []) chunks
    → buffer ++ concat chunks ≡ write_array [] cmd
    → parse_command (arrive chunks reads) buffer ≡ command cmd [] reads
parse_command_in_pieces cmd [] buffer reads fits small full e =
    parse_command_done buffer [] cmd reads (
      let whole : buffer ≡ write_array [] cmd = sym (append-nil buffer) ∙ e in
      rw (whole, ← append-nil (write_array [] cmd)) (try_parse-write_array cmd [] fits))
parse_command_in_pieces cmd (c ∷ cs) buffer reads fits small (hc, full) e =
    let waits : try_parse buffer ≡ more =
      try_parse_prefix cmd buffer (concat (c ∷ cs)) fits (concat-ne-nil c cs hc) e in
    let total : length buffer + length (concat (c ∷ cs)) ≡ length (write_array [] cmd) =
      sym (length-append buffer (concat (c ∷ cs))) ∙ ap length e in
    parse_command_step buffer c (arrive cs reads) waits (omega arith) hc
    ∙ parse_command_in_pieces cmd cs (buffer ++ c) reads fits small full
        (append_assoc buffer c (concat cs) ∙ e)

abbrev pub end_of_stream : ℕ → List Read
end_of_stream zero = []
end_of_stream (suc n) = received [] ∷ end_of_stream n

-- When the client has closed the stream inside a frame, so that each read returns no bytes, the
-- loop neither returns nor fails, after any number of rounds. The buffer is not empty, within its
-- largest size, and holds no frame and no error.
pub parse_command_spins :
    (n : ℕ) (buffer : Bytes)
    → buffer ≢ []
    → length buffer ≤ max_buffer_size
    → try_parse buffer ≡ more
    → parse_command (end_of_stream n) buffer ≡ reading buffer
unfolding parse_command
parse_command_spins zero buffer ne fits m = ground arith
parse_command_spins (suc n) [] ne fits m = absurd (ne refl)
parse_command_spins (suc n) (x ∷ buffer) ne fits m =
    ground (arith, append-nil (x ∷ buffer), parse_command_spins n (x ∷ buffer) ne fits m)

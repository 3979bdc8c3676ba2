-- ===== src/Resp/Writer.antt =====
-- `RespWriter` of src/protocol.rs: each method takes the buffer and returns it with what it appends.
use redistill.Base.{ℕ, suc, Bool, List, [], ◌∷◌, ◌++◌, leb, Bytes, codes, length}
use redistill.Base.Int.{ℤ, pos, negsuc}
use redistill.Resp.Decimal.{write_u64}

abbrev pub crlf : Bytes
crlf = b'\r' ∷ b'\n' ∷ []

unfoldable pub write_simple_string : Bytes → Bytes → Bytes
write_simple_string buffer s = ((buffer ++ b'+' ∷ []) ++ s) ++ crlf

unfoldable pub write_bulk_string : Bytes → Bytes → Bytes
write_bulk_string buffer s = ((write_u64 (buffer ++ b'$' ∷ []) (length s) ++ crlf) ++ s) ++ crlf

unfoldable pub write_null : Bytes → Bytes
write_null buffer = buffer ++ codes "$-1\r\n"

unfoldable pub write_integer : Bytes → ℕ → Bytes
write_integer buffer i = write_u64 (buffer ++ b':' ∷ []) i ++ crlf

-- `(-i) as u64` is the absolute value, for i64::MIN too: there -i wraps to itself.
unfoldable pub write_signed_integer : Bytes → ℤ → Bytes
write_signed_integer buffer (pos n) = write_u64 (buffer ++ b':' ∷ []) n ++ crlf
write_signed_integer buffer (negsuc n) =
    write_u64 ((buffer ++ b':' ∷ []) ++ b'-' ∷ []) (suc n) ++ crlf

unfoldable pub write_error : Bytes → Bytes → Bytes
write_error buffer s = ((buffer ++ codes "-ERR ") ++ s) ++ crlf

-- the loop `for item in arr`
unfoldable pub write_bulks : Bytes → List Bytes → Bytes
write_bulks buffer [] = buffer
write_bulks buffer (item ∷ items) = write_bulks (write_bulk_string buffer item) items

unfoldable pub write_array_header : Bytes → ℕ → Bytes
write_array_header buffer len = write_u64 (buffer ++ b'*' ∷ []) len ++ crlf

unfoldable pub write_array : Bytes → List Bytes → Bytes
write_array buffer arr = write_bulks (write_u64 (buffer ++ b'*' ∷ []) (length arr) ++ crlf) arr

unfoldable pub should_flush : Bytes → Bool
should_flush buffer = leb 8192 (length buffer)

-- ===== src/Aof/Frame.antt =====
-- The records of src/aof.rs: `write_resp_array`, `write_resp_array_raw` and the `emit_` functions.
use redistill.Base.{
  ℕ, ◌+◌, ◌≡◌, ◌∙◌, List, [], ◌∷◌, ◌++◌, append_assoc, append-nil, arith, Bytes, codes, length,
  length-append,
}
use redistill.Resp.Decimal.{decimal}
use redistill.Resp.Writer.{crlf, write_array}
use redistill.Resp.Frames.{bulk, bulks, write_array-bulks}

-- What a writer has got so far, and the count `total` of the bytes written.
abbrev pub Written : Type 0
Written = Bytes × ℕ

-- The loop `for part in command`.
unfoldable pub write_parts : Written → List Bytes → Written
write_parts w [] = w
write_parts (w, total) (part ∷ parts) =
    let len_hdr = (b'$' ∷ decimal (length part)) ++ crlf in
    write_parts (((w ++ len_hdr) ++ part) ++ crlf, total + length len_hdr + length part + 2) parts

-- `write_resp_array_raw` is the same code on slices.
unfoldable pub write_resp_array : Bytes → List Bytes → Written
write_resp_array w command =
    let header = (b'*' ∷ decimal (length command)) ++ crlf in
    write_parts (w ++ header, length header) command

unfoldable pub emit_set : Bytes → Bytes → Bytes → Written
emit_set w key value = write_resp_array w (codes "SET" ∷ key ∷ value ∷ [])

-- the loop `for (f, v) in pairs`
abbrev pub push_pairs : List (Bytes × Bytes) → List Bytes
push_pairs [] = []
push_pairs ((f, v) ∷ pairs) = f ∷ v ∷ push_pairs pairs

unfoldable pub emit_hset : Bytes → Bytes → List (Bytes × Bytes) → Written
emit_hset w key pairs = write_resp_array w (codes "HSET" ∷ key ∷ push_pairs pairs)

unfoldable pub emit_expire : Bytes → Bytes → ℕ → Written
emit_expire w key ttl_secs = write_resp_array w (codes "EXPIRE" ∷ key ∷ decimal ttl_secs ∷ [])

pair_eq : {x y : Written} → x.0 ≡ y.0 → x.1 ≡ y.1 → x ≡ y
pair_eq e f = λ i. (e i, f i)

write_parts-bulks :
    (w : Bytes) (total : ℕ) (parts : List Bytes)
    → write_parts (w, total) parts ≡ (w ++ bulks parts, total + length (bulks parts))
unfolding write_parts
write_parts-bulks w total [] = rw append-nil (let e : total + 0 ≡ total = omega arith in rw e)
write_parts-bulks w total (part ∷ parts) =
    write_parts-bulks (((w ++ ((b'$' ∷ decimal (length part)) ++ crlf)) ++ part) ++ crlf)
      (total + length ((b'$' ∷ decimal (length part)) ++ crlf) + length part + 2) parts
    ∙ pair_eq (simp append_assoc) (
        omega (
          arith,
          length-append (bulk part) (bulks parts),
          length-append (decimal (length part)) (crlf ++ (part ++ crlf)),
          length-append (decimal (length part)) crlf,
          length-append part crlf,
        ))

-- The record that write_resp_array writes is the array that the RespWriter writes, and the total it
-- returns is the length of that.
pub write_resp_array-write_array :
    (w : Bytes) (command : List Bytes)
    → write_resp_array w command ≡ (w ++ write_array [] command, length (write_array [] command))
unfolding write_resp_array
write_resp_array-write_array w command =
    write_parts-bulks _ _ command
    ∙ rw (write_array-bulks [] command) (
        pair_eq (simp append_assoc) (
          omega (
            arith,
            length-append (decimal (length command)) (crlf ++ bulks command),
            length-append (decimal (length command)) crlf,
          )))

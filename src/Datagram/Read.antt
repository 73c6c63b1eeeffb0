-- ===== src/Datagram/Read.antt =====
-- The field accessors, `options` and `validate` of datagram.go. Each slice and index expression is
-- the checked one, since a datagram off the network may be too short for it.
pub mod Fields
pub mod Pairs
pub mod Tail
use trivialt.Prelude.{
  ℕ, ◌+◌, ◌-◌, ◌%◌, [], ◌∷◌, List, Go, ret, panic, check, ◌>>=◌, ◌>>◌, Option, none, some, Bool,
  ltb, ◌==◌, not, ◌||◌, if◌then◌else◌, length,
}
use trivialt.Prelude.Bytes.{Bytes, bytes_eq, slice, at_index, uint16, index_byte, split, count_byte}
use trivialt.Datagram.{
  Datagram, Options, op_rrq, op_wrq, op_data, op_ack, op_error, op_oack, mode_netascii, mode_octet,
  mode_mail,
}

unfoldable pub block : Datagram → Go ℕ
block d = do b ← slice d.buf 2 4; uint16 b

unfoldable pub content : Datagram → Go Bytes
content d = slice d.buf 4 d.offset

unfoldable pub error_code : Datagram → Go ℕ
error_code d = do b ← slice d.buf 2 4; uint16 b

-- Go's `d.offset - 1` is negative at 0, and the slice panics.
unfoldable pub err_msg : Datagram → Go Bytes
err_msg d = do check (ltb 0 d.offset); slice d.buf 4 (d.offset - 1)

-- `bytes.IndexByte(d.buf[2:], 0) + 2`, which is 1 where there is no NUL.
unfoldable pub name_end : Option ℕ → ℕ
name_end none = 1
name_end (some i) = i + 2

unfoldable pub filename : Datagram → Go Bytes
unfolding name_end
filename d = do rest ← slice d.buf 2 (length d.buf); slice d.buf 2 (name_end (index_byte rest 0))

-- `fields[1]`
unfoldable pub second : List Bytes → Go Bytes
second (a ∷ b ∷ ps) = ret b
second _ = panic

unfoldable pub mode : Datagram → Go Bytes
unfolding second
mode d = do rest ← slice d.buf 2 (length d.buf); second (split rest 0)

unfoldable pub opcode : Datagram → Go ℕ
opcode d = do b ← slice d.buf 0 2; uint16 b

-- `m[k] = v`: an entry is replaced where it stands, and a new one comes last.
unfoldable pub put : Options → Bytes → Bytes → Options
put [] k v = (k, v) ∷ []
put ((j, w) ∷ m) k v = if bytes_eq j k then (k, v) ∷ m else (j, w) ∷ put m k v

-- `for i := 0; i < len(optSlice); i += 2`: an odd piece at the end is an index out of range.
unfoldable pub read_pairs : Options → List Bytes → Go Options
unfolding put
read_pairs m [] = ret m
read_pairs m (o ∷ []) = panic
read_pairs m (o ∷ v ∷ ps) = read_pairs (put m o v) ps

-- `optSlice[2:]`
unfoldable pub skip_two : List Bytes → Go (List Bytes)
skip_two (a ∷ b ∷ ps) = ret ps
skip_two _ = panic

unfoldable pub is_request : ℕ → Bool
is_request op = op == op_rrq || op == op_wrq

unfoldable pub options : Datagram → Go Options
unfolding read_pairs skip_two is_request
options d = do
  check (ltb 0 d.offset)
  text ← slice d.buf 2 (d.offset - 1)
  op ← opcode d
  pieces ← (if is_request op then skip_two (split text 0) else ret (split text 0))
  read_pairs [] pieces

-- The messages of `validate`.
pub data Invalid : Type 0 where
  no_opcode invalid_opcode no_filename corrupt_request mail_mode invalid_mode : Invalid
  corrupt_block corrupt_error corrupt_oack : Invalid

abbrev pub Verdict : Type 0
Verdict = Option Invalid

unfoldable pub check_mode : Bytes → Verdict
check_mode m =
    if bytes_eq m mode_netascii || bytes_eq m mode_octet
    then none
    else if bytes_eq m mode_mail
    then some mail_mode
    else some invalid_mode

unfoldable pub validate_request : Datagram → Go Verdict
unfolding check_mode
validate_request d = do
  name ← filename d
  if ltb (length name) 1 then ret (some no_filename) else do
    last ← at_index d.buf (d.offset - 1)
    if not (last == 0) then ret (some corrupt_request) else do
      fields ← slice d.buf 2 d.offset
      if not (count_byte fields 0 % 2 == 0)
          then ret (some corrupt_request)
          else do m ← mode d; ret (check_mode m)

unfoldable pub validate_error : Datagram → Go Verdict
validate_error d = if ltb d.offset 5 then ret (some corrupt_error) else do
  last ← at_index d.buf (d.offset - 1)
  if not (last == 0) then ret (some corrupt_error) else do
    text ← slice d.buf 4 d.offset
    ret (if ltb 1 (count_byte text 0) then some corrupt_error else none)

unfoldable pub validate_oack : Datagram → Go Verdict
validate_oack d = do
  last ← at_index d.buf (d.offset - 1)
  if not (last == 0) then ret (some corrupt_oack) else do
    text ← slice d.buf 2 d.offset
    ret (if count_byte text 0 % 2 == 0 then none else some corrupt_oack)

-- The switch on the opcode. What is no opcode of its cases passes.
unfoldable pub validate_fields : Datagram → ℕ → Go Verdict
unfolding is_request validate_request validate_error validate_oack
validate_fields d op =
    if is_request op
    then validate_request d
    else if op == op_ack || op == op_data
    then ret (if ltb d.offset 4 then some corrupt_block else none)
    else if op == op_error
    then validate_error d
    else if op == op_oack
    then validate_oack d
    else ret none

-- `none` is Go's nil.
unfoldable pub validate : Datagram → Go Verdict
unfolding validate_fields
validate d =
    if ltb d.offset 2
    then ret (some no_opcode)
    else do op ← opcode d; if ltb 6 op then ret (some invalid_opcode) else validate_fields d op

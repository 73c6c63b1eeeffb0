-- ===== src/Datagram/Message.antt =====
-- What a datagram says, as data: the specification that the constructors, the accessors and
-- `validate` of datagram.go implement together.
mod Payload
pub mod RoundTrip
pub mod Grant
use trivialt.Prelude.{
  ℕ, ◌≤◌, ◌<◌, [], ◌∷◌, List, Go, ret, panic, ◌>>=◌, ◌>>◌, Option, none, some, ◌==◌, if◌then◌else◌,
  ◌≡◌, ◌⊎◌, ◌≢◌,
}
use trivialt.Prelude.Bytes.{Bytes, IsText}
use trivialt.Datagram.{
  Datagram, Options, op_rrq, op_wrq, op_data, op_ack, op_error, op_oack, mode_netascii, mode_octet,
}
use trivialt.Datagram.Write.{
  bytes, set_bytes, write_ack, write_data, write_error, write_option_ack, write_read_req,
  write_write_req,
}
use trivialt.Datagram.Read.{
  validate, opcode, block, content, error_code, err_msg, filename, mode, options, Verdict,
}
use trivialt.Datagram.Read.Pairs.{AreTexts, AreDistinct}

pub data Message : Type 0 where
  read_request write_request : Bytes → Bytes → Options → Message
  data_block : ℕ → Bytes → Message
  ack : ℕ → Message
  failure : ℕ → Bytes → Message
  option_ack : Options → Message

-- The bytes that the constructors produce, in a datagram that was used before.
pub encode : Datagram → Message → Go Bytes
encode d (read_request name m opts) = write_read_req d name m opts >>= bytes
encode d (write_request name m opts) = write_write_req d name m opts >>= bytes
encode d (data_block n c) = write_data d n c >>= bytes
encode d (ack n) = write_ack d n >>= bytes
encode d (failure code msg) = write_error d code msg >>= bytes
encode d (option_ack opts) = write_option_ack d opts >>= bytes

-- What the accessors read off a datagram with this opcode.
fields : Datagram → ℕ → Go (Option Message)
fields d op =
    if op == op_data
    then (do n ← block d; c ← content d; ret (some (data_block n c)))
    else if op == op_ack
    then (do n ← block d; ret (some (ack n)))
    else if op == op_error
    then (do n ← error_code d; m ← err_msg d; ret (some (failure n m)))
    else if op == op_oack
    then (do m ← options d; ret (some (option_ack m)))
    else if op == op_rrq
    then (do f ← filename d; t ← mode d; m ← options d; ret (some (read_request f t m)))
    else if op == op_wrq
    then (do f ← filename d; t ← mode d; m ← options d; ret (some (write_request f t m)))
    else ret none

accepted : Datagram → Verdict → Go (Option Message)
unfolding fields
accepted d (some e) = ret none
accepted d none = opcode d >>= fields d

-- A packet is validated and then read field by field; `none` is a packet that is refused.
pub decode : Bytes → Go (Option Message)
unfolding accepted
decode p = validate (set_bytes p) >>= accepted (set_bytes p)

-- The messages that the wire can carry: no NUL inside a text, and no number above 16 bits.
abbrev pub IsRequest : Bytes → Bytes → Options → Type 0
IsRequest name m opts =
    IsText name
    × (name ≢ [])
    × ((m ≡ mode_netascii) ⊎ (m ≡ mode_octet))
    × AreTexts opts
    × AreDistinct opts

abbrev pub IsSendable : Message → Type 0
IsSendable (read_request name m opts) = IsRequest name m opts
IsSendable (write_request name m opts) = IsRequest name m opts
IsSendable (data_block n c) = n < 65536
IsSendable (ack n) = n < 65536
IsSendable (failure code msg) = (code < 65536) × IsText msg
IsSendable (option_ack opts) = (opts ≢ []) × AreTexts opts × AreDistinct opts

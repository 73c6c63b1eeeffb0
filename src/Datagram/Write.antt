-- ===== src/Datagram/Write.antt =====
-- Building a datagram: the buffer writers and the datagram constructors of datagram.go. A write
-- out of the buffer panics, as in Go. The capacity of a buffer is taken to be its length.
pub mod Appends
pub mod Wire
use trivialt.Prelude.{
  ℕ, ◌+◌, ◌-◌, [], ◌∷◌, ◌++◌, Go, ret, check, ◌>>=◌, ◌>>◌, ltb, leb, if◌then◌else◌, length, take,
  drop, replicate, set,
}
use trivialt.Prelude.Bytes.{Bytes, put_uint16, slice}
use trivialt.Datagram.{Datagram, Options, op_rrq, op_wrq, op_data, op_ack, op_error, op_oack}

-- The zero value, and `make([]byte, n)`.
abbrev pub empty : Datagram
empty = record { buf = []; offset = 0 }

abbrev pub make : ℕ → Bytes
make n = replicate n 0

abbrev pub set_bytes : Bytes → Datagram
set_bytes b = record { buf = b; offset = length b }

unfoldable pub bytes : Datagram → Go Bytes
bytes d = slice d.buf 0 d.offset

pub reset : Datagram → ℕ → Datagram
reset d size = record { buf = if ltb (length d.buf) size then make size else d.buf; offset = 0 }

-- `copy(buf[off:], b)`: what does not fit is dropped.
abbrev pub copy_at : Bytes → ℕ → Bytes → Bytes
copy_at buf off b = take off buf ++ (take (length buf - off) b ++ drop (off + length b) buf)

pub write_bytes : Datagram → Bytes → Go Datagram
write_bytes d b = do
  check (leb d.offset (length d.buf))
  ret (record { buf = copy_at d.buf d.offset b; offset = d.offset + length b })

pub write_null : Datagram → Go Datagram
write_null d = do
  check (ltb d.offset (length d.buf))
  ret (record { buf = set d.buf d.offset 0; offset = d.offset + 1 })

pub write_string : Datagram → Bytes → Go Datagram
write_string d str = write_bytes d str

-- `binary.BigEndian.PutUint16` wants two bytes.
pub write_uint16 : Datagram → ℕ → Go Datagram
write_uint16 d i = do
  check (leb (d.offset + 2) (length d.buf))
  ret (record { buf = copy_at d.buf d.offset (put_uint16 i); offset = d.offset + 2 })

pub write_option : Datagram → Bytes → Bytes → Go Datagram
write_option d o v = do d ← write_string d o; d ← write_null d; d ← write_string d v; write_null d

pub write_ack : Datagram → ℕ → Go Datagram
write_ack d block = do d ← write_uint16 (reset d (2 + 2)) op_ack; write_uint16 d block

pub write_data : Datagram → ℕ → Bytes → Go Datagram
write_data d block content = do
  d ← write_uint16 (reset d (2 + 2 + length content)) op_data
  d ← write_uint16 d block
  write_bytes d content

pub write_error : Datagram → ℕ → Bytes → Go Datagram
write_error d code msg = do
  d ← write_uint16 (reset d (2 + 2 + length msg + 1)) op_error
  d ← write_uint16 d code
  d ← write_string d msg
  write_null d

-- The loops over the options, for their length and for their bytes.
pub options_length : Options → ℕ
options_length [] = 0
options_length ((opt, val) ∷ rest) = length opt + 1 + length val + 1 + options_length rest

pub write_options : Datagram → Options → Go Datagram
write_options d [] = ret d
write_options d ((opt, val) ∷ rest) = do d ← write_option d opt val; write_options d rest

pub write_option_ack : Datagram → Options → Go Datagram
write_option_ack d options = do
  d ← write_uint16 (reset d (2 + options_length options)) op_oack
  write_options d options

pub write_req : Datagram → ℕ → Bytes → Bytes → Options → Go Datagram
write_req d o filename mode options = do
  let size = 2 + length filename + 1 + length mode + 1 + options_length options
  d ← write_uint16 (reset d size) o
  d ← write_string d filename
  d ← write_null d
  d ← write_string d mode
  d ← write_null d
  write_options d options

unfoldable pub write_read_req : Datagram → Bytes → Bytes → Options → Go Datagram
write_read_req d filename mode options = write_req d op_rrq filename mode options

unfoldable pub write_write_req : Datagram → Bytes → Bytes → Options → Go Datagram
write_write_req d filename mode options = write_req d op_wrq filename mode options

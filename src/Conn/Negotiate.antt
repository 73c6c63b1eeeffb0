-- ===== src/Conn/Negotiate.antt =====
-- `parseOptions` of conn.go: the options of the datagram in `rx` are applied and answered.
pub mod Settles
pub mod Frame
pub mod Maps
pub mod Effect
pub mod Order
pub mod Follow
pub mod Agree
use trivialt.Prelude.{ℕ, [], ◌∷◌, Go, ret, ◌>>=◌, Option, none, some, true, if◌then◌else◌}
use trivialt.Prelude.Bytes.{Bytes, bytes_eq}
use trivialt.Prelude.Int.{ℤ}
use trivialt.Strconv.{parse_uint, parse_int, format_int, max_uint8, max_uint16}
use trivialt.Datagram.{Options, opt_blocksize, opt_timeout, opt_transfer_size, opt_window_size}
use trivialt.Datagram.Read.{put, options}
use trivialt.Errors.{Error, parsing_option}
use trivialt.Conn.{Conn}

-- The connection, and the options to acknowledge or the error.
pub data Parsed : Type 0 where
  parsed : Conn → Options → Parsed
  refused : Conn → Error → Parsed

abbrev pub with_number : Option ℕ → Conn → Bytes → Bytes → (ℕ → Parsed) → Parsed
with_number none c opt val k = refused c (parsing_option opt val)
with_number (some n) c opt val k = k n

-- A sender that knows its size answers with it; any other takes the size of the other side.
unfoldable pub answer_size : Option ℤ → Conn → Options → Bytes → Bytes → Parsed
answer_size none c ack opt val = refused c (parsing_option opt val)
answer_size (some size) c ack opt val = elim c.tsize [
  | none ↦ parsed (record c { tsize = some size }) ack
  | some own ↦
      if c.is_sender
      then parsed c (put ack opt (format_int own))
      else parsed (record c { tsize = some size }) ack
]

-- One round of the loop: the case of the option.
unfoldable pub apply_option : Conn → Options → Bytes → Bytes → Parsed
unfolding answer_size
apply_option c ack opt val =
    if bytes_eq opt opt_blocksize
    then with_number (parse_uint max_uint16 val) c opt val
        (λ size. parsed (record c { blksize = size }) (put ack opt val))
    else if bytes_eq opt opt_timeout
    then with_number (parse_uint max_uint8 val) c opt val
        (λ seconds. parsed (record c { timeout = seconds }) (put ack opt val))
    else if bytes_eq opt opt_transfer_size
    then answer_size (parse_int val) c ack opt val
    else if bytes_eq opt opt_window_size
    then with_number (parse_uint max_uint16 val) c opt val
        (λ size. parsed (record c { windowsize = size }) (put ack opt val))
    else parsed c ack

-- The loop over the options, in the order of the list.
unfoldable pub apply_options : Conn → Options → Options → Parsed
apply_options c ack [] = parsed (record c { options_parsed = true }) ack
apply_options c ack ((opt, val) ∷ rest) = elim (apply_option c ack opt val) [
  | parsed c' ack' ↦ apply_options c' ack' rest
  | refused c' e ↦ refused c' e
]

-- `parseOptions` iterates over the map in the order that the runtime chooses.
unfoldable pub parse_options : Conn → Go Parsed
unfolding apply_options
parse_options c = do m ← options c.rx; ret (apply_options c [] (c.order m))

-- ===== src/Errors.antt =====
-- errors.go: the error values of the package. A value of Go's type `error` is an `Option Error`, with
-- `none` for nil. An error that quotes a datagram holds the datagram in place of its text.
pub mod Cause
use trivialt.Prelude.{ℕ, Bool, true, false, Option, none, some}
use trivialt.Prelude.Bytes.{Bytes}
use Prim.Native.String.{String}
use trivialt.Datagram.{Datagram}
use trivialt.Datagram.Read.{Invalid}

-- The sentinels of errors.go, `io.EOF` and `io.ErrShortWrite`.
pub data Sentinel : Type 0 where
  block_sequence invalid_url invalid_host_ip invalid_file size_not_received : Sentinel
  address_not_available no_registered_handlers invalid_network invalid_blocksize : Sentinel
  invalid_timeout invalid_windowsize invalid_mode invalid_retransmit max_retries eof short_write :
      Sentinel

pub data Error : Type 0 where
  sentinel : Sentinel → Error
  invalid_datagram : Invalid → Error
  unexpected_datagram : Datagram → Error
  remote_error : Datagram → Error
  parsing_option : Bytes → Bytes → Error
  -- An error of the network, and the timeout of the single port mode.
  network : ℕ → Error
  timeout : Error
  tftp_error : Error → String → Error

-- `wrapError`
unfoldable pub wrap_error : Option Error → String → Option Error
wrap_error none msg = none
wrap_error (some e) msg = some (tftp_error e msg)

-- `ErrorCause`: the loop goes through the wrappers.
unfoldable pub error_cause : Error → Error
error_cause (tftp_error e msg) = error_cause e
error_cause e = e

abbrev cause_is : (Error → Bool) → Option Error → Bool
cause_is test none = false
cause_is test (some e) = test (error_cause e)

abbrev is_unexpected : Error → Bool
is_unexpected (unexpected_datagram d) = true
is_unexpected _ = false

abbrev is_remote : Error → Bool
is_remote (remote_error d) = true
is_remote _ = false

abbrev is_parsing : Error → Bool
is_parsing (parsing_option o v) = true
is_parsing _ = false

pub is_unexpected_datagram : Option Error → Bool
is_unexpected_datagram e = cause_is is_unexpected e

pub is_remote_error : Option Error → Bool
is_remote_error e = cause_is is_remote e

pub is_option_parsing_error : Option Error → Bool
is_option_parsing_error e = cause_is is_parsing e

-- `err == io.EOF`
abbrev pub is_eof : Option Error → Bool
is_eof (some (sentinel eof)) = true
is_eof _ = false

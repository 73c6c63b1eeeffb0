-- ===== src/Datagram.antt =====
-- The datagram of datagram.go and the constants of the protocol.
pub mod Write
pub mod Read
pub mod Message
pub mod Safety
pub mod Text
use trivialt.Prelude.{ℕ, List, ◌==◌, if◌then◌else◌, ◌++◌}
use trivialt.Prelude.Bytes.{Bytes, codes}
use trivialt.Strconv.{format_uint}

abbrev pub op_rrq : ℕ
op_rrq = 1

abbrev pub op_wrq : ℕ
op_wrq = 2

abbrev pub op_data : ℕ
op_data = 3

abbrev pub op_ack : ℕ
op_ack = 4

abbrev pub op_error : ℕ
op_error = 5

abbrev pub op_oack : ℕ
op_oack = 6

abbrev pub mode_netascii : Bytes
mode_netascii = codes "netascii"

abbrev pub mode_octet : Bytes
mode_octet = codes "octet"

abbrev pub mode_mail : Bytes
mode_mail = codes "mail"

abbrev pub opt_blocksize : Bytes
opt_blocksize = codes "blksize"

abbrev pub opt_timeout : Bytes
opt_timeout = codes "timeout"

abbrev pub opt_transfer_size : Bytes
opt_transfer_size = codes "tsize"

abbrev pub opt_window_size : Bytes
opt_window_size = codes "windowsize"

-- The error codes that the source sends.
abbrev pub err_not_defined : ℕ
err_not_defined = 0

abbrev pub err_file_not_found : ℕ
err_file_not_found = 1

abbrev pub err_access_violation : ℕ
err_access_violation = 2

abbrev pub err_disk_full : ℕ
err_disk_full = 3

abbrev pub err_illegal_operation : ℕ
err_illegal_operation = 4

abbrev pub err_unknown_transfer_id : ℕ
err_unknown_transfer_id = 5

abbrev pub err_file_already_exists : ℕ
err_file_already_exists = 6

abbrev pub err_no_such_user : ℕ
err_no_such_user = 7

-- `opcodeStrings` with the fallback of `opcode.String`.
pub opcode_string : ℕ → Bytes
opcode_string o =
    if o == op_rrq
    then codes "READ_REQUEST"
    else if o == op_wrq
    then codes "WRITE_REQUEST"
    else if o == op_data
    then codes "DATA"
    else if o == op_ack
    then codes "ACK"
    else if o == op_error
    then codes "ERROR"
    else if o == op_oack
    then codes "OPTION_ACK"
    else codes "UNKNOWN_OPCODE_" ++ format_uint o

-- `errorStrings` with the fallback of `ErrorCode.String`.
pub error_string : ℕ → Bytes
error_string e =
    if e == err_not_defined
    then codes "NOT_DEFINED"
    else if e == err_file_not_found
    then codes "FILE_NOT_FOUND"
    else if e == err_access_violation
    then codes "ACCESS_VIOLATION"
    else if e == err_disk_full
    then codes "DISK_FULL"
    else if e == err_illegal_operation
    then codes "ILLEGAL_OPERATION"
    else if e == err_unknown_transfer_id
    then codes "UNKNOWN_TRANSFER_ID"
    else if e == err_file_already_exists
    then codes "FILE_ALREADY_EXISTS"
    else if e == err_no_such_user
    then codes "NO_SUCH_USER"
    else codes "UNKNOWN_ERROR_" ++ format_uint e

-- A Go map from strings to strings: its entries in the order in which a `range` visits them, which
-- is any order.
abbrev pub Options : Type 0
Options = List (Bytes × Bytes)

-- `datagram`
pub record Datagram : Type 0 where
  pub buf : Bytes
  pub offset : ℕ

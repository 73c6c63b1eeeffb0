-- ===== src/Handlers/Writing.antt =====
-- `writeRequest` of handlers.go: what a handler of write requests is handed.
use trivialt.Prelude.{ℕ, Go, ret, ◌>>=◌, Option, none, some, Bool}
use trivialt.Prelude.Bytes.{Bytes}
use trivialt.Prelude.Int.{ℤ, pos}
use trivialt.Errors.{Error, sentinel, size_not_received}
use trivialt.Conn.{Conn}
use trivialt.Conn.Net.{send_error}
use trivialt.Conn.Run

pub record WriteRequest : Type 0 where
  pub conn : Conn
  pub name : Bytes

unfoldable pub addr : WriteRequest → ℕ
addr w = w.conn.remote_addr

unfoldable pub request_name : WriteRequest → Bytes
request_name w = w.name

-- `Read` runs the loop on fuel; what it read is in the connection's `p`.
unfoldable pub read : Bool → ℕ → WriteRequest → Bytes → Go (Option (Conn × (ℕ × Option Error)))
read windows fuel w p = Run.read windows fuel w.conn p

unfoldable pub size : WriteRequest → ℤ × Option Error
size w = elim w.conn.tsize [
  | none ↦ (pos 0, some (sentinel size_not_received))
  | some n ↦ (n, none)
]

unfoldable pub write_error : WriteRequest → ℕ → Bytes → Go WriteRequest
write_error w code text = do c ← send_error w.conn code text; ret (record w { conn = c })

pub transfer_mode : WriteRequest → Bytes
transfer_mode w = w.conn.mode

-- `WriteHandlerFunc`: a function is a handler by calling it.
abbrev pub WriteHandlerFunc : Type 0
WriteHandlerFunc = WriteRequest → Go (Option Conn)

pub receive_tftp : WriteHandlerFunc → WriteRequest → Go (Option Conn)
receive_tftp h w = h w

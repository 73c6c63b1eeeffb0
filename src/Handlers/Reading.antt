-- ===== src/Handlers/Reading.antt =====
-- `readRequest` of handlers.go: what a handler of read requests is handed.
use trivialt.Prelude.{ℕ, Go, ret, ◌>>=◌, Option, some, Bool}
use trivialt.Prelude.Bytes.{Bytes}
use trivialt.Prelude.Int.{ℤ}
use trivialt.Errors.{Error}
use trivialt.Conn.{Conn}
use trivialt.Conn.Net.{send_error}
use trivialt.Conn.Run

pub record ReadRequest : Type 0 where
  pub conn : Conn
  pub name : Bytes

pub addr : ReadRequest → ℕ
addr w = w.conn.remote_addr

unfoldable pub request_name : ReadRequest → Bytes
request_name w = w.name

-- The methods that use the connection change it. `Write` runs the loop on fuel.
unfoldable pub write : Bool → ℕ → ReadRequest → Bytes → Go (Option (Conn × (ℕ × Option Error)))
write windows fuel w p = Run.write windows fuel w.conn p

unfoldable pub write_error : ReadRequest → ℕ → Bytes → Go ReadRequest
write_error w code text = do c ← send_error w.conn code text; ret (record w { conn = c })

unfoldable pub write_size : ReadRequest → ℤ → ReadRequest
write_size w i = record w { conn = record w.conn { tsize = some i } }

pub transfer_mode : ReadRequest → Bytes
transfer_mode w = w.conn.mode

-- `ReadHandlerFunc`: a function is a handler by calling it.
abbrev pub ReadHandlerFunc : Type 0
ReadHandlerFunc = ReadRequest → Go (Option Conn)

pub serve_tftp : ReadHandlerFunc → ReadRequest → Go (Option Conn)
serve_tftp h w = h w

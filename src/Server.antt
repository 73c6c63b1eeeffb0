-- ===== src/Server.antt =====
-- server.go: the receiving loop, the connection manager and the dispatch of requests. A handler is
-- what the user of the package registers; it is handed a connection and a file name.
pub mod Crash
pub mod Manager
pub mod Life
pub mod Upload
pub mod Loops
use trivialt.Prelude.{
  ℕ, zero, suc, ◌+◌, [], ◌∷◌, ◌++◌, List, Go, ret, panic, ◌>>=◌, Option, none, some, Bool, true,
  false, ltb, ◌==◌, not, ◌&&◌, if◌then◌else◌, length,
}
use trivialt.Prelude.Bytes.{Bytes, bytes_eq, codes, at_index}
use trivialt.Prelude.Int.{ℤ, pos, ltb_ℤ, pos_part}
use trivialt.Datagram.{Options, Datagram, err_illegal_operation, err_unknown_transfer_id}
use trivialt.Datagram.Write.{bytes, empty, set_bytes, write_error}
use trivialt.Datagram.Read.{validate, mode, filename}
use trivialt.Errors.{Error, Sentinel, invalid_network, invalid_retransmit, no_registered_handlers}
use trivialt.Conn.{Conn, Arrival, State, Next, new_conn, new_single_port_conn}
use trivialt.Conn.Receive

pub record Server : Type 0 where
  pub net : Bytes
  pub single_port : Bool
  pub retransmit : ℤ
  pub read_handler : Bool
  pub write_handler : Bool

pub data ServerOpt : Type 0 where
  server_net : Bytes → ServerOpt
  server_retransmit : ℤ → ServerOpt
  server_single_port : Bool → ServerOpt

pub data Outcome : Type 0 where
  configured : Server → Outcome
  rejected : Sentinel → Outcome

unfoldable pub apply_opt : ServerOpt → Server → Outcome
apply_opt (server_net net) s =
    if not (bytes_eq net (codes "udp"))
      && (not (bytes_eq net (codes "udp4")) && not (bytes_eq net (codes "udp6")))
    then rejected invalid_network
    else configured (record s { net = net })
apply_opt (server_retransmit i) s =
    if ltb_ℤ i (pos 0)
    then rejected invalid_retransmit
    else configured (record s { retransmit = i })
apply_opt (server_single_port enable) s = configured (record s { single_port = enable })

unfoldable pub apply_opts : Server → List ServerOpt → Outcome
apply_opts s [] = configured s
apply_opts s (opt ∷ rest) = elim (apply_opt opt s) [
  | configured s' ↦ apply_opts s' rest
  | rejected e ↦ rejected e
]

-- `NewServer`, with the handlers registered after it.
pub new_server : List ServerOpt → Bool → Bool → Outcome
new_server opts rh wh =
    apply_opts
      (record {
        net = codes "udp";
        single_port = false;
        retransmit = pos 10;
        read_handler = rh;
        write_handler = wh;
      })
      opts

-- The check at the start of `Serve`.
unfoldable pub can_serve : Server → Option Sentinel
can_serve s =
    if not s.read_handler && not s.write_handler then some no_registered_handlers else none

-- `request`
pub record Request : Type 0 where
  pub addr : ℕ
  pub pkt : Bytes

-- The loop of `Serve` on what `ReadFromUDP` gave: a packet too short for an opcode is dropped.
unfoldable pub receive : ℕ → Bytes → Option Request
receive addr b = if ltb (length b) 2 then none else some (record { addr = addr; pkt = b })

-- The network that a new connection will see: what arrives, how its writes go, the order in
-- which its maps are iterated, and whether the
-- system gives it a socket.
pub record Network : Type 0 where
  pub arrivals : List Arrival
  pub write_results : List (Option Error)
  pub order : Options → Options
  pub listen_error : Option Error

-- `newConn` or `newSinglePortConn` of conn.go.
abbrev open_conn : Server → Network → Bytes → ℕ → Option Conn
open_conn s net m addr =
    if s.single_port
    then some
        (record (new_single_port_conn net.arrivals net.write_results m addr) { order = net.order })
    else elim net.listen_error [
      | none ↦ some (record (new_conn net.arrivals net.write_results m addr) { order = net.order })
      | some e ↦ none
    ]

-- `newConn` of the server; `none` is its error. A retransmit limit is never negative here.
unfoldable pub accept_conn : Server → Request → Network → Go (Option Conn)
accept_conn s req net = do
  v ← validate (set_bytes req.pkt)
  elim v [
    | some e ↦ ret none
    | none ↦ do
      m ← mode (set_bytes req.pkt)
      ret (elim (open_conn s net m req.addr) [
        | none ↦ none
        | some c ↦ some (record c { rx = set_bytes req.pkt; retransmit = pos_part s.retransmit })
      ])
  ]

-- What a dispatch does: an ERROR to the client, nothing, or a call of the handler.
pub data Dispatch : Type 0 where
  reply : ℕ → Bytes → Dispatch
  dropped : Dispatch
  handled : Conn → Bytes → Dispatch

unfoldable pub reply_error : ℕ → ℕ → Bytes → Go Dispatch
reply_error addr code msg = do d ← write_error empty code msg; b ← bytes d; ret (reply addr b)

-- `dispatchReadRequest`
unfoldable pub dispatch_read_request : Server → Request → Network → Go Dispatch
unfolding accept_conn
dispatch_read_request s req net =
    if not s.read_handler
    then reply_error req.addr err_illegal_operation (codes "Server does not support read requests.")
    else do
      o ← accept_conn s req net
      elim o [ none ↦ ret dropped | some c ↦ do name ← filename c.rx; ret (handled c name) ]

-- `dispatchWriteRequest`: `readSetup` runs, and what it returns is ignored.
unfoldable pub dispatch_write_request : Server → Request → Network → Go Dispatch
unfolding accept_conn
dispatch_write_request s req net =
    if not s.write_handler
    then reply_error req.addr err_illegal_operation
        (codes "Server does not support write requests.")
    else do
      o ← accept_conn s req net
      elim o [
        | none ↦ ret dropped
        | some c ↦ do name ← filename c.rx; (c', next) ← Receive.read_setup c; ret (handled c' name)
      ]

-- ===== src/Conn/Net.antt =====
-- Reading from and writing to the network: `readFromNet`, `writeToNet`, `sendAck`, `sendError` and
-- `remoteError` of conn.go.
pub mod Sends
pub mod Silence
use trivialt.Prelude.{
  ℕ, ◌+◌, ◌-◌, ◌%◌, [], ◌∷◌, ◌++◌, Go, ret, ◌>>=◌, Option, none, some, Bool, ltb, if◌then◌else◌,
  length, take, drop, min,
}
use trivialt.Prelude.Bytes.{Bytes}
use trivialt.Datagram.{Datagram}
use trivialt.Datagram.Write.{bytes, set_bytes, write_ack, write_error}
use trivialt.Errors.{Error, remote_error, wrap_error}
use trivialt.Errors
use trivialt.Conn.{Conn, has_time, Arrival, packet, read_error, deadline_error}

-- `netConn.ReadFrom(c.rx.buf)`: what does not fit the buffer is lost.
abbrev pub fill_rx : Datagram → Bytes → Datagram
fill_rx rx b =
    let n = min (length b) (length rx.buf) in record { buf = take n b ++ drop n rx.buf; offset = n }

-- The single port mode takes the packet's slice for its buffer, and knows no sender.
unfoldable pub arrive : Arrival → Conn → Conn × Option ℕ × Option Error
arrive (packet addr b) c =
    if c.single_port
    then (record c { rx = set_bytes b }, none, none)
    else (record c { rx = fill_rx c.rx b }, some addr, none)
arrive (read_error e) c =
    if c.single_port
    then (c, none, some Errors.timeout)
    else (record c { rx = record { buf = c.rx.buf; offset = 0 } }, none, some e)
arrive (deadline_error e) c =
    if c.single_port
    then (c, none, some Errors.timeout)
    else (c, none, wrap_error (some e) "setting network read deadline")

-- `readFromNet`
unfoldable pub read_from_net : Conn → Conn × Option ℕ × Option Error
unfolding arrive
read_from_net c = elim c.arrivals [
  | [] ↦ arrive (read_error Errors.timeout) c
  | a ∷ rest ↦ arrive a (record c { arrivals = rest })
]

-- `writeToNet`: a packet whose write fails is not sent. A deadline that has passed fails every write.
unfoldable pub write_to_net : Conn → Go (Conn × Option Error)
write_to_net c = do
  b ← bytes c.tx
  if has_time c
      then (elim c.write_results [
        | [] ↦ ret (record c { sent = c.sent ++ (c.remote_addr, b) ∷ [] }, none)
        | none ∷ rest ↦
            ret (record c { sent = c.sent ++ (c.remote_addr, b) ∷ []; write_results = rest }, none)
        | some e ∷ rest ↦ ret (record c { write_results = rest }, some e)
      ])
      else ret (c, some Errors.timeout)

-- `sendAck`
unfoldable pub send_ack : Conn → ℕ → Go (Conn × Option Error)
send_ack c block = do
  tx ← write_ack c.tx block
  (c', e) ← write_to_net (record c { tx = tx })
  ret (c', wrap_error e "sending ACK")

-- `c.blksize - 1` on 16 bits, the room for an error message.
abbrev pub msg_room : Conn → ℕ
msg_room c = (c.blksize + 65535) % 65536

-- `sendError`: a message that is too long is cut, and a failed write is ignored.
unfoldable pub send_error : Conn → ℕ → Bytes → Go Conn
send_error c code msg = do
  tx ← write_error c.tx code (if ltb (msg_room c) (length msg) then take (msg_room c) msg else msg)
  (c', e) ← write_to_net (record c { tx = tx })
  ret c'

-- `remoteError`: the error is set, and returned.
abbrev pub remote_failure : Conn → Conn × Error
remote_failure c = (record c { err = some (remote_error c.rx) }, remote_error c.rx)

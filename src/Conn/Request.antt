-- ===== src/Conn/Request.antt =====
-- The client's side of the negotiation: `sendRequest`, `receiveResponse` and the two handlers.
pub mod Granted
pub mod Unheard
use trivialt.Prelude.{
  ℕ, ◌+◌, ◌%◌, ◌++◌, Go, ret, ◌>>=◌, Option, none, some, true, ltb, leb, ◌==◌, ◌||◌, if◌then◌else◌,
  length,
}
use trivialt.Datagram.{op_ack, op_data, op_error, op_oack}
use trivialt.Datagram.Read.{validate, opcode, block, content}
use trivialt.Errors.{invalid_datagram, unexpected_datagram, wrap_error}
use trivialt.Conn.{
  Conn, Next, receive_response as to_receive_response, handle_wrq_response as to_handle_wrq,
  handle_rrq_response as to_handle_rrq, write_setup as to_write_setup, read_setup as to_read_setup,
}
use trivialt.Conn.Net.{read_from_net, write_to_net, remote_failure}
use trivialt.Conn.Send.{stop_with}

-- `sendRequest`
unfoldable pub send_request : Conn → Go Next
send_request c = do
  (c', e) ← write_to_net (record c { is_client = true })
  ret (elim e [
    | some e ↦ stop_with c' (wrap_error (some e) "writing request to network")
    | none ↦ (c', some to_receive_response)
  ])

-- Outside the single port mode the sender of the response becomes the peer.
abbrev pub new_peer : Conn → Option ℕ → Conn
new_peer c none = c
new_peer c (some addr) = if c.single_port then c else record c { remote_addr = addr }

-- `receiveResponse` on a packet that arrived.
unfoldable pub take_response : Conn → Option ℕ → Go Next
take_response c addr = do
  v ← validate c.rx
  ret (elim v [
    | some e ↦ stop_with c (wrap_error (some (invalid_datagram e)) "validating request response")
    | none ↦ (
      record (new_peer c addr) { tries = 0 },
      some (if c.is_sender then to_handle_wrq else to_handle_rrq),
    )
  ])

-- `receiveResponse`
unfoldable pub receive_response : Conn → Go Next
unfolding take_response
receive_response c0 =
    if leb c0.retransmit c0.tries
    then ret (stop_with c0 (wrap_error c0.err "receiving request response"))
    else (let (c, addr, e) = read_from_net (record c0 { tries = c0.tries + 1 }) in
        elim e [
          | some e ↦ ret (record c { err = some e }, some to_receive_response)
          | none ↦ take_response c addr
        ])

-- `handleWRQResponse`
unfoldable pub handle_wrq_response : Conn → Go Next
handle_wrq_response c = do
  op ← opcode c.rx
  ret (
      if op == op_oack || op == op_ack
      then (c, some to_write_setup)
      else if op == op_error
      then (let (c', e) = remote_failure c in
          stop_with c' (wrap_error (some e) "WRQ OACK response"))
      else stop_with c (wrap_error (some (unexpected_datagram c.rx)) "WRQ OACK response"))

-- A server without options answers with the first block.
unfoldable pub first_block : Conn → Go Next
first_block c = do
  b ← content c.rx
  n ← block c.rx
  ret (
    record c {
      rx_buf = c.rx_buf ++ b;
      block = n;
      done = c.done || ltb (length b % 65536) c.blksize;
    },
    some to_read_setup,
  )

-- `handleRRQResponse`
unfoldable pub handle_rrq_response : Conn → Go Next
unfolding first_block
handle_rrq_response c = do
  op ← opcode c.rx
  if op == op_oack
      then ret (c, some to_read_setup)
      else if op == op_data
      then first_block c
      else if op == op_error
      then (let (c', e) = remote_failure c in
          ret (stop_with c' (wrap_error (some e) "RRQ OACK response")))
      else ret (stop_with c (wrap_error (some (unexpected_datagram c.rx)) "RRQ OACK response"))

-- ===== src/Conn/Receive.antt =====
-- The state functions of the receiving side: `readSetup`, `read`, `readData`, `ackData`.
pub mod InOrder
pub mod Retries
pub mod Setup
pub mod Transfer
use trivialt.Prelude.{
  ℕ, zero, suc, ◌+◌, ◌-◌, ◌%◌, [], ◌∷◌, ◌++◌, Go, ret, panic, ◌>>=◌, Option, none, some, Bool, true,
  false, ltb, leb, ◌==◌, not, ◌&&◌, ◌||◌, if◌then◌else◌, length, take, drop,
}
use trivialt.Prelude.Bytes.{Bytes, bytes_eq, codes}
use trivialt.Datagram.{Datagram, Options, op_data, op_error, mode_netascii, err_not_defined}
use trivialt.Datagram.Write.{make, write_ack, write_option_ack}
use trivialt.Datagram.Read.{validate, opcode, block, content}
use trivialt.Netascii.Reader
use trivialt.Errors.{
  Error, sentinel, max_retries, eof, invalid_datagram, unexpected_datagram, wrap_error,
}
use trivialt.Conn.{
  Conn, State, Next, Source, no_source, plain_source, decoding, read as to_read,
  read_setup as to_read_setup, read_data as to_read_data, ack_data as to_ack_data,
}
use trivialt.Conn.Net.{read_from_net, write_to_net, send_ack, send_error, remote_failure}
use trivialt.Conn.Negotiate.{Parsed, parsed, refused, parse_options}
use trivialt.Conn.Send.{stop_with}

unfoldable pub start_read : Conn → Go Next
start_read c = ret (c, some (if c.options_parsed then to_read else to_read_setup))

-- `int(c.blksize + 4)`, where the sum wraps at 16 bits.
abbrev pub rx_size : ℕ → ℕ
rx_size blksize = (blksize + 4) % 65536

-- The answer to the options: an ACK, or an OACK from a server that accepted some.
abbrev pub answer : Conn → Options → Go Datagram
answer c [] = write_ack c.tx c.block
answer c (o ∷ os) =
    if c.is_client then write_ack c.tx c.block else write_option_ack c.tx (c.order (o ∷ os))

unfoldable pub set_up : Parsed → Go Next
set_up (refused c e) = ret (stop_with c (wrap_error (some e) "read setup"))
set_up (parsed c ack) = do
  let needed = rx_size c.blksize
  let rx =
      if length c.rx.buf == needed then c.rx else record { buf = make needed; offset = c.rx.offset }
  tx ← answer c ack
  (c', e) ← write_to_net (record c { rx = rx; tx = tx })
  ret (elim e [
    | some e ↦ stop_with c' (some e)
    | none ↦ (c', if c'.is_client then none else some to_read)
  ])

-- `readSetup`
unfoldable pub read_setup : Conn → Go Next
unfolding set_up
read_setup c = do
  r ←
      parse_options
        (record c { reader = if bytes_eq c.mode mode_netascii then decoding [] else plain_source })
  set_up r

module _ (windows : Bool) where
  -- `c.reader.Read(c.p)`: the bytes read, and the reader and the buffer after it.
  unfoldable pub read_source : Source → Bytes → ℕ → Go (Bytes × Source × Bytes)
  read_source no_source rx_buf n = panic
  read_source plain_source rx_buf n = ret (take n rx_buf, plain_source, drop n rx_buf)
  read_source (decoding ahead) rx_buf n =
      let (out, at_end, b) = Reader.read windows n (record { ahead = ahead; source = rx_buf }) in
      ret (out, decoding b.ahead, b.source)

  -- `read`
  unfoldable pub read : Conn → Go Next
  unfolding read_source
  read c =
      if leb (length c.p) (length c.rx_buf) || c.done
      then (do
        (out, source, left) ← read_source c.reader c.rx_buf (length c.p)
        let c' = record c {
          n = length out;
          p = out ++ drop (length out) c.p;
          reader = source;
          rx_buf = left;
        }
        ret (
          (if c'.done && length left == 0 then record c' { err = some (sentinel eof) } else c'),
          none,
        ))
      else ret (c, some to_read_data)

-- `readData` on a packet that arrived.
unfoldable pub check_data : Conn → Go Next
check_data c = do
  v ← validate c.rx
  elim v [
    | some e ↦ ret (stop_with c (wrap_error (some (invalid_datagram e)) "validating read data"))
    | none ↦ do
      op ← opcode c.rx
      if op == op_data
          then ret (record c { tries = 0 }, some to_ack_data)
          else if op == op_error
          then (let (c', e) = remote_failure c in
              ret (stop_with c' (wrap_error (some e) "reading data")))
          else ret (stop_with c (wrap_error (some (unexpected_datagram c.rx)) "read data response"))
  ]

-- `readData`: after a failed read the last block is acknowledged again.
unfoldable pub read_data : Conn → Go Next
unfolding check_data
read_data c0 =
    if leb c0.retransmit c0.tries
    then (do
      c ← send_error c0 err_not_defined (codes "max retries reached")
      ret (stop_with c (wrap_error (some (sentinel max_retries)) "reading data")))
    else (let (c, addr, e) = read_from_net (record c0 { tries = c0.tries + 1 }) in
        elim e [
          | some e ↦ do
            (c', e') ← send_ack c c.block
            ret (record c' { window = 0 }, some to_read_data)
          | none ↦ check_data c
        ])

-- `c.rx.block() - c.block` on 16 bits.
abbrev pub block_diff : ℕ → ℕ → ℕ
block_diff rx_block block = (rx_block + 65536 - block) % 65536

-- Blocks are missing: the last one is acknowledged, once until the sender goes on from it.
unfoldable pub missed_blocks : Conn → Go Next
missed_blocks c = if c.catchup then ret (c, some to_read) else do
  (c', e) ← send_ack c c.block
  ret (elim e [
    | some e ↦ stop_with c' (wrap_error (some e) "sending missed block(s) ACK")
    | none ↦ (record c' { window = 0; catchup = true }, some to_read)
  ])

-- The next block: its data is kept, and acknowledged at the end of the window or of the file.
unfoldable pub accept_block : Conn → Go Next
accept_block c0 = do
  data_bytes ← content c0.rx
  let n = length data_bytes
  let c = record c0 { rx_buf = c0.rx_buf ++ data_bytes; done = c0.done || ltb n c0.blksize }
  if ltb c.window c.windowsize && leb c.blksize n then ret (c, some to_read) else do
    (c', e) ← send_ack (record c { window = 0 }) c.block
    ret (elim e [
      | some e ↦ stop_with c' (wrap_error (some e) "sending DATA ACK")
      | none ↦ (c', some to_read)
    ])

-- The cases of `ackData` on the distance of the received block.
unfoldable pub ack_diff : Conn → ℕ → Go Next
unfolding accept_block missed_blocks
ack_diff c diff =
    if diff == 1
    then accept_block (record c {
      block = (c.block + 1) % 65536;
      window = (c.window + 1) % 65536;
      catchup = false;
    })
    else if diff == 0
    then ret (c, some to_read)
    else if ltb c.windowsize diff
    then ret (c, some to_read)
    else missed_blocks c

-- `ackData`
unfoldable pub ack_data : Conn → Go Next
unfolding ack_diff
ack_data c = do rx_block ← block c.rx; ack_diff c (block_diff rx_block c.block)

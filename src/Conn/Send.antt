-- ===== src/Conn/Send.antt =====
-- The state functions of the sending side: `writeSetup`, `sendOACK`, `write`, `writeData`, `getAck`.
pub mod Rollback
pub mod Waits
pub mod Transfer
use trivialt.Prelude.{
  ℕ, zero, suc, ◌+◌, ◌-◌, ◌%◌, [], ◌∷◌, ◌++◌, Go, ret, panic, ◌>>=◌, Option, none, some, Bool, true,
  false, ltb, leb, ◌==◌, not, ◌&&◌, ◌||◌, if◌then◌else◌, length, take, drop,
}
use trivialt.Prelude.Bytes.{Bytes, bytes_eq, codes}
use trivialt.Prelude.Int.{ltb_ℤ, pos}
use trivialt.Datagram.{
  Options, op_ack, op_error, op_oack, mode_netascii, err_not_defined, err_unknown_transfer_id,
}
use trivialt.Datagram.Write.{
  bytes, empty, make, write_data as put_data, write_error, write_option_ack,
}
use trivialt.Datagram.Read.{validate, opcode, block}
use trivialt.Netascii.Writer.{Encoder}
use trivialt.Netascii.Writer
use trivialt.Ring
use trivialt.Ring.{Ring}
use trivialt.Errors.{
  Error, sentinel, max_retries, invalid_datagram, unexpected_datagram, wrap_error,
}
use trivialt.Conn.{
  Conn, State, Next, Target, no_target, plain_target, encoding, write_data as to_write_data,
  write as to_write, get_ack as to_get_ack, send_oack as to_send_oack,
  write_setup as to_write_setup, fail,
}
use trivialt.Conn.Net.{read_from_net, write_to_net, send_error, remote_failure}
use trivialt.Conn.Negotiate.{Parsed, parsed, refused, parse_options}

abbrev pub stop : Conn → Error → Next
stop c e = (record c { err = some e }, none)

-- `c.err = wrapError(err, desc)`, then nil.
abbrev pub stop_with : Conn → Option Error → Conn × Option State
stop_with c e = (record c { err = e }, none)

unfoldable pub start_write : Conn → Go Next
start_write c = ret (c, some (if c.options_parsed then to_write else to_write_setup))

unfoldable pub after_setup : Conn → Options → Next
after_setup c ack =
    if c.is_client
    then (c, none)
    else elim ack [ [] ↦ (c, some to_write) | o ∷ os ↦ (c, some (to_send_oack (o ∷ os))) ]

unfoldable pub set_up : Parsed → Next
unfolding after_setup
set_up (refused c e) = (c, some (fail e "parsing options"))
set_up (parsed c ack) =
    after_setup
      (record c {
        buf = if length c.buf == c.blksize then c.buf else make c.blksize;
        tx_buf = some (Ring.new_ring c.windowsize c.blksize);
        writer = if bytes_eq c.mode mode_netascii then encoding [] 0 else plain_target;
      })
      ack

-- `writeSetup`
unfoldable pub write_setup : Conn → Go Next
unfolding set_up
write_setup c = do r ← parse_options (record c { is_sender = true }); ret (set_up r)

-- `sendOACK`
unfoldable pub send_oack : Conn → Options → Go Next
send_oack c o = do
  tx ← write_option_ack c.tx (c.order o)
  (c', e) ← write_to_net (record c { tx = tx })
  ret (elim e [ none ↦ (c', some to_get_ack) | some e ↦ (c', some (fail e "writing OACK")) ])

-- The ring takes whatever the netascii writer flushes into it.
abbrev pub take_all : Ring → Bytes → Ring × Bool
take_all r b = (Ring.write r b, true)

abbrev pub encoder : Ring → Bytes → ℕ → Encoder Ring take_all
encoder r pending last = record {
  w = record { pending = pending; sink = r; failed = false };
  last = last;
}

-- `c.writer.Write(c.p)`: neither writer fails on the ring. A nil writer is a nil dereference.
unfoldable pub write_target : Target → Option Ring → Bytes → Go (Target × Option Ring × ℕ)
write_target no_target r p = panic
write_target plain_target none p = panic
write_target plain_target (some r) p = ret (plain_target, some (Ring.write r p), length p)
write_target (encoding pending last) none p = panic
write_target (encoding pending last) (some r) p =
    let (e, n, good) = Writer.write Ring take_all (encoder r pending last) p in
    ret (encoding e.w.pending e.last, some e.w.sink, n)

-- `write`
unfoldable pub write : Conn → Go Next
unfolding write_target
write c = do
  (writer, tx_buf, n) ← write_target c.writer c.tx_buf c.p
  ret (record c { writer = writer; tx_buf = tx_buf; n = n }, some to_write_data)

-- `writeData` after the packet of `n` bytes is sent.
unfoldable pub after_send : Conn → ℕ → Next
after_send c n =
    let c' = record c { window = (c.window + 1) % 65536 } in
    if ltb (n % 65536) c'.blksize
    then (record c' { done = true }, some to_get_ack)
    else if ltb c'.window c'.windowsize
    then (c', some to_write_data)
    else (record c' { window = 0 }, some to_get_ack)

-- `writeData` from the increment of the block on.
unfoldable pub send_block : Conn → Ring → Go Next
unfolding after_send
send_block c r = do
  (r', b, eof) ← Ring.read r (length c.buf)
  let c' = record c {
    block = (c.block + 1) % 65536;
    tx_buf = some r';
    buf = b ++ drop (length b) c.buf;
  }
  tx ← put_data c'.tx c'.block b
  (c'', e) ← write_to_net (record c' { tx = tx })
  ret (elim e [
    | none ↦ after_send c'' (length b)
    | some e ↦ stop_with c'' (wrap_error (some e) "writing data to network")
  ])

-- `writeData`
unfoldable pub write_data : Conn → Go Next
unfolding send_block
write_data c = if c.closing && c.done then ret (c, none) else elim c.tx_buf [
  | none ↦ panic
  | some r ↦
      if ltb_ℤ (Ring.len r) (pos c.blksize) && not c.closing then ret (c, none) else send_block c r
]

-- The courtesy to an unknown sender goes out in a goroutine of its own, here at once.
unfoldable pub unknown_tid : Conn → ℕ → Go Conn
unknown_tid c addr = do
  d ← write_error empty err_unknown_transfer_id (codes "Unexpected TID")
  b ← bytes d
  ret (record c { sent = c.sent ++ (addr, b) ∷ [] })

-- `getAck` from the check of the block number on.
unfoldable pub take_ack : Conn → Go Next
take_ack c = do
  n ← block c.rx
  if ltb c.block n then ret (c, some to_get_ack) else do
    op ← opcode c.tx
    let next = if op == op_oack then to_write else to_write_data
    if n == c.block then ret (record c { tries = 0 }, some next) else (elim c.tx_buf [
      | none ↦ panic
      | some r ↦ ret (
        record c {
          tx_buf = some (Ring.unread_slots r (c.block - n));
          block = n;
          window = 0;
          done = false;
          tries = 0;
        },
        some next,
      )
    ])

-- `getAck` on a packet of the peer.
unfoldable pub check_ack : Conn → Go Next
unfolding take_ack
check_ack c = do
  v ← validate c.rx
  elim v [
    | some e ↦ ret (stop_with c (wrap_error (some (invalid_datagram e)) "ACK validation failed"))
    | none ↦ do
      op ← opcode c.rx
      if op == op_ack
          then take_ack c
          else if op == op_error
          then (let (c', e) = remote_failure c in
              ret (stop_with c' (wrap_error (some e) "error receiving ACK")))
          else ret
              (stop_with c (wrap_error (some (unexpected_datagram c.rx)) "error receiving ACK"))
  ]

-- `c.reqChan == nil && sAddr.String() != c.remoteAddr.String()`
abbrev pub is_stranger : Conn → Option ℕ → Bool
is_stranger c none = false
is_stranger c (some addr) = not c.single_port && not (addr == c.remote_addr)

abbrev pub sender : Option ℕ → ℕ
sender none = 0
sender (some addr) = addr

-- `getAck`
unfoldable pub get_ack : Conn → Go Next
unfolding check_ack unknown_tid
get_ack c0 =
    let c = record c0 { tries = c0.tries + 1 } in
    if ltb c.retransmit c.tries
    then (do
      c' ← send_error c err_not_defined (codes "max retries reached")
      ret (stop_with c' (wrap_error (some (sentinel max_retries)) "reading ack")))
    else (let (c', addr, e) = read_from_net c in
        elim e [
          | some e ↦
              ret (record c' { err = wrap_error (some e) "waiting for ACK" }, some to_get_ack)
          | none ↦
              if is_stranger c' addr
              then (do c'' ← unknown_tid c' (sender addr); ret (c'', some to_get_ack))
              else check_ack c'
        ])

-- ===== src/Conn/Send/Transfer/Block.antt =====
-- One block is sent, and its ACK arrives.
use trivialt.Prelude.{
  ℕ, zero, suc, ◌+◌, ◌*◌, ◌%◌, ◌≤◌, ◌<◌, [], ◌∷◌, ◌++◌, List, ret, none, some, Bool, true, false,
  ltb, ◌==◌, length, drop, min, ◌≡◌, refl, ap, ◌∙◌, arith,
}
use trivialt.Prelude.Bytes.{Bytes, slice, uint16, put_uint16}
use trivialt.Datagram.{Datagram, op_data, op_ack}
use trivialt.Datagram.Read.{validate, validate_fields, is_request, opcode, block}
use trivialt.Datagram.Read.Fields.{opcode-wire, block-wire}
use trivialt.Datagram.Write.{bytes, write_data as put_data}
use trivialt.Datagram.Write.Wire.{data_wire, ack_wire, write_data_lem}
use trivialt.Ring.{Ring, read}
use trivialt.Conn.{WritesWork, Conn, State, Arrival, packet}
use trivialt.Conn.Net.{read_from_net, write_to_net, fill_rx}
use trivialt.Conn.Net.Sends.{built_datagram}
use trivialt.Conn.Send.{send_block, after_send, get_ack, check_ack, take_ack, is_stranger}

slice-two :
    (buf : Bytes) (off hi lo : ℕ) (rest : Bytes)
    → slice buf 0 off ≡ ret (hi ∷ lo ∷ rest)
    → slice buf 0 2 ≡ ret (hi ∷ lo ∷ [])
unfolding slice
slice-two [] zero hi lo rest e = ground arith
slice-two [] (suc k) hi lo rest e = ground arith
slice-two (x ∷ []) zero hi lo rest e = ground arith
slice-two (x ∷ []) (suc zero) hi lo rest e = ground arith
slice-two (x ∷ []) (suc (suc k)) hi lo rest e = ground arith
slice-two (x ∷ y ∷ s) zero hi lo rest e = ground arith
slice-two (x ∷ y ∷ s) (suc zero) hi lo rest e = ground arith
slice-two (x ∷ y ∷ s) (suc (suc k)) hi lo rest e = ground arith

opcode-of_bytes :
    (d : Datagram) (hi lo : ℕ) (rest : Bytes)
    → bytes d ≡ ret (hi ∷ lo ∷ rest)
    → opcode d ≡ ret (hi * 256 + lo)
unfolding bytes opcode uint16
opcode-of_bytes d hi lo rest e = rw (slice-two d.buf d.offset hi lo rest e) refl

-- Where the writes succeed, a packet is sent and nothing else happens.
write_to_net-quiet :
    (c : Conn) (wire : Bytes)
    → bytes c.tx ≡ ret wire
    → WritesWork c
    → write_to_net c ≡ ret (record c { sent = c.sent ++ (c.remote_addr, wire) ∷ [] }, none)
unfolding write_to_net
write_to_net-quiet c wire h w =
    rw (h, w.1, w.0)
      (ap
        (λ rs.
          ret (record c { sent = c.sent ++ (c.remote_addr, wire) ∷ []; write_results = rs }, none))
        w.0)

-- The connection after the next block, `b`, went out.
abbrev pub sent_block : Conn → Ring → Bytes → Datagram → Conn
sent_block c r' b tx = record c {
  block = (c.block + 1) % 65536;
  tx_buf = some r';
  buf = b ++ drop (length b) c.buf;
  tx = tx;
  sent = c.sent ++ (c.remote_addr, data_wire ((c.block + 1) % 65536) b) ∷ [];
}

send_block-eq :
    (c : Conn) (r r' : Ring) (b : Bytes) (eof : Bool) (tx : Datagram)
    → read r (length c.buf) ≡ ret (r', b, eof)
    → put_data c.tx ((c.block + 1) % 65536) b ≡ ret tx
    → bytes tx ≡ ret (data_wire ((c.block + 1) % 65536) b)
    → WritesWork c
    → send_block c r ≡ ret (after_send (sent_block c r' b tx) (length b))
unfolding send_block
send_block-eq c r r' b eof tx h made packed w =
    let before = record c {
      block = (c.block + 1) % 65536;
      tx_buf = some r';
      buf = b ++ drop (length b) c.buf;
      tx = tx;
    } in
    rw (h, made, write_to_net-quiet before (data_wire ((c.block + 1) % 65536) b) packed w) refl

pub send_block-sent :
    (c : Conn) (r r' : Ring) (b : Bytes) (eof : Bool)
    → read r (length c.buf) ≡ ret (r', b, eof)
    → WritesWork c
    → (tx : Datagram) × (send_block c r ≡ ret (after_send (sent_block c r' b tx) (length b)))
      × (opcode tx ≡ ret op_data)
send_block-sent c r r' b eof h w =
    let wire = data_wire ((c.block + 1) % 65536) b in
    let (tx, made, packed) =
      built_datagram (put_data c.tx ((c.block + 1) % 65536) b) wire
        (write_data_lem c.tx ((c.block + 1) % 65536) b) in
    (tx, send_block-eq c r r' b eof tx h made packed w, opcode-of_bytes tx 0 3 _ packed)

-- An ACK at the start of a buffer that is longer.
abbrev pub acknowledging : ℕ → Bytes → Datagram
acknowledging n old = record { buf = ack_wire n ++ old; offset = 4 }

pub validate-acknowledging : (n : ℕ) (old : Bytes) → validate (acknowledging n old) ≡ ret none
unfolding validate validate_fields is_request
validate-acknowledging n old =
    rw (opcode-wire (acknowledging n old) op_ack 0 (put_uint16 n ++ old) refl (omega arith)) refl

fill_rx-acknowledging :
    (rx : Datagram) (n : ℕ)
    → 4 ≤ length rx.buf
    → fill_rx rx (ack_wire n) ≡ acknowledging n (drop 4 rx.buf)
fill_rx-acknowledging rx n h = let fits : min 4 (length rx.buf) ≡ 4 = omega arith in rw fits refl

-- The connection with the ACK read.
abbrev pub acked : Conn → List Arrival → ℕ → Conn
acked c rest n = record c { arrivals = rest; tries = 0; rx = acknowledging n (drop 4 c.rx.buf) }

pub get_ack-checked :
    (c d : Conn) (addr : ℕ)
    → ltb c.retransmit (c.tries + 1) ≡ false
    → read_from_net (record c { tries = c.tries + 1 }) ≡ (d, some addr, none)
    → is_stranger d (some addr) ≡ false
    → get_ack c ≡ check_ack d
unfolding get_ack
get_ack-checked c d addr under r known =
    let got : (read_from_net (record c { tries = c.tries + 1 })).0 ≡ d = ap (λ x. x.0) r in
    let by : (read_from_net (record c { tries = c.tries + 1 })).1 ≡ some addr = ap (λ x. x.1) r in
    let good : (read_from_net (record c { tries = c.tries + 1 })).2 ≡ none = ap (λ x. x.2) r in
    let same : is_stranger (read_from_net (record c { tries = c.tries + 1 })).0
          (read_from_net (record c { tries = c.tries + 1 })).1
        ≡ false =
      ap (λ x. is_stranger x.0 x.1) r ∙ known in
    rw (under, good, same) (ap check_ack got)

check_ack-current :
    (c : Conn) (n op : ℕ) (old : Bytes)
    → c.rx ≡ acknowledging n old
    → n < 65536
    → c.block ≡ n
    → opcode c.tx ≡ ret op_data
    → check_ack c ≡ ret (record c { tries = 0 }, some State.write_data)
unfolding check_ack take_ack
check_ack-current c n op old e small here sent =
    let valid : validate c.rx ≡ ret none = ap validate e ∙ validate-acknowledging n old in
    let is_ack : opcode c.rx ≡ ret op_ack =
      ap opcode e
      ∙ opcode-wire (acknowledging n old) op_ack 0 (put_uint16 n ++ old) refl (omega arith) in
    let number : block c.rx ≡ ret n =
      ap block e ∙ block-wire (acknowledging n old) op_ack n old refl small in
    let not_ahead : ltb c.block n ≡ false = ground arith in
    let equal : (n == c.block) ≡ true = ground arith in
    rw (valid, is_ack, number, not_ahead, sent, equal) refl

pub net_acks :
    (c : Conn) (n : ℕ) (rest : List Arrival)
    → c.arrivals ≡ packet c.remote_addr (ack_wire n) ∷ rest
    → c.single_port ≡ false
    → 4 ≤ length c.rx.buf
    → read_from_net (record c { tries = c.tries + 1 })
      ≡ (record (acked c rest n) { tries = c.tries + 1 }, some c.remote_addr, none)
unfolding read_from_net
net_acks c n rest h multi fits = rw (h, multi, fill_rx-acknowledging c.rx n fits) refl

-- The ACK of the block sent last lets the sender go on.
pub get_ack-current :
    (c : Conn) (n : ℕ) (rest : List Arrival)
    → c.arrivals ≡ packet c.remote_addr (ack_wire n) ∷ rest
    → c.single_port ≡ false
    → 4 ≤ length c.rx.buf
    → c.tries < c.retransmit
    → n < 65536
    → c.block ≡ n
    → opcode c.tx ≡ ret op_data
    → get_ack c ≡ ret (acked c rest n, some State.write_data)
get_ack-current c n rest h multi fits more small here sent =
    let under : ltb c.retransmit (c.tries + 1) ≡ false = ground arith in
    let mid = record (acked c rest n) { tries = c.tries + 1 } in
    get_ack-checked c mid c.remote_addr under (net_acks c n rest h multi fits) (ground arith)
    ∙ check_ack-current mid n 0 (drop 4 c.rx.buf) refl small here sent

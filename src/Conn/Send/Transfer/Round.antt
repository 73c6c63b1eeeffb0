-- ===== src/Conn/Send/Transfer/Round.antt =====
-- A block of a file goes out and is acknowledged, and the last one ends the loop.
use trivialt.Prelude.{
  ℕ, zero, suc, ◌+◌, ◌%◌, ◌≤◌, ◌<◌, [], ◌∷◌, ◌++◌, List, ret, some, Bool, true, false, ltb, not,
  ◌&&◌, length, take, drop, take-all, length-append, length-take, length-drop, ◌≡◌, refl, subst,
  sym, ap, ◌∙◌, arith,
}
use trivialt.Prelude.Bytes.{Bytes}
use trivialt.Prelude.Int.{pos, ltb_ℤ}
use trivialt.Datagram.{Datagram, op_data}
use trivialt.Datagram.Read.{opcode}
use trivialt.Datagram.Write.Wire.{data_wire, ack_wire}
use trivialt.Ring
use trivialt.Ring.{Ring}
use trivialt.Ring.Refine.{Holds, read_next}
use trivialt.Conn.{WritesWork, Conn, State, Arrival, packet}
use trivialt.Conn.Send.{write_data, send_block, after_send}
use trivialt.Conn.Send.Transfer.Block.{sent_block, send_block-sent, acked, get_ack-current}
use trivialt.Conn.Run.{step, run}

-- A sender that closes, with the ring `r` behind the chunks `h`, a window of one block, a socket of its
-- own, and writes that succeed.
pub record IsSending (c : Conn) (r : Ring) (h : List Bytes) : Type 0 where
  pub ring : c.tx_buf ≡ some r
  pub holds : Holds r h (length h)
  pub fills : length c.buf ≡ r.size
  pub size : c.blksize ≡ r.size
  pub small : r.size < 65536
  pub closing : c.closing ≡ true
  pub lockstep : c.windowsize ≡ 1
  pub fresh : c.window ≡ 0
  pub multi : c.single_port ≡ false
  pub works : WritesWork c
  pub patient : c.tries < c.retransmit
  pub room : 4 ≤ length c.rx.buf

write_data-block :
    (c : Conn) (r : Ring)
    → c.tx_buf ≡ some r
    → c.closing ≡ true
    → c.done ≡ false
    → write_data c ≡ send_block c r
unfolding write_data
write_data-block c r ring closing going =
    let on : (c.closing && c.done) ≡ false = ground arith in
    let at_once : (ltb_ℤ (Ring.len r) (pos c.blksize) && not c.closing) ≡ false = ground arith in
    rw (on, ring, at_once) refl

pub after_full :
    (s : Conn) (n : ℕ)
    → s.blksize ≡ n
    → n < 65536
    → s.windowsize ≡ 1
    → s.window ≡ 0
    → after_send s n ≡ (record s { window = 0 }, some State.get_ack)
unfolding after_send
after_full s n size small lockstep fresh =
    let whole : ltb (n % 65536) s.blksize ≡ false = ground arith in
    let reached : ltb ((s.window + 1) % 65536) s.windowsize ≡ false = ground arith in
    rw (whole, reached) refl

after_short :
    (s : Conn) (n : ℕ)
    → n < s.blksize
    → s.blksize < 65536
    → after_send s n
      ≡ (record s { window = (s.window + 1) % 65536; done = true }, some State.get_ack)
unfolding after_send
after_short s n short small =
    let under : ltb (n % 65536) s.blksize ≡ true = ground arith in rw under refl

-- A block and its ACK.
pub round :
    (windows : Bool) (f : ℕ) (c s : Conn) (r : Ring) (rest : List Arrival)
    → write_data c ≡ send_block c r
    → send_block c r ≡ ret (s, some State.get_ack)
    → s.arrivals ≡ packet s.remote_addr (ack_wire s.block) ∷ rest
    → s.single_port ≡ false
    → 4 ≤ length s.rx.buf
    → s.tries < s.retransmit
    → s.block < 65536
    → opcode s.tx ≡ ret op_data
    → run windows (suc (suc f)) c (some State.write_data)
      ≡ run windows f (acked s rest s.block) (some State.write_data)
unfolding run step
round windows f c s r rest goes_on sent arrives multi fits more small op =
    let taken = get_ack-current s s.block rest arrives multi fits more small refl op in
    rw (goes_on, sent, taken) refl

-- The blocks behind block `last` that carry `u`: `k` full ones, and the rest.
abbrev pub blocks_of : ℕ → ℕ → ℕ → Bytes → List (ℕ × Bytes)
blocks_of size zero last u = ((last + 1) % 65536, u) ∷ []
blocks_of size (suc k) last u =
    ((last + 1) % 65536, take size u) ∷ blocks_of size k ((last + 1) % 65536) (drop size u)

-- The ACKs of the blocks, and the DATA packets that carry them.
abbrev pub acks : ℕ → List (ℕ × Bytes) → List Arrival
acks addr [] = []
acks addr ((n, b) ∷ xs) = packet addr (ack_wire n) ∷ acks addr xs

abbrev pub datas : ℕ → List (ℕ × Bytes) → List (ℕ × Bytes)
datas addr [] = []
datas addr ((n, b) ∷ xs) = (addr, data_wire n b) ∷ datas addr xs

-- The connection after a full block and its ACK.
abbrev pub past_block : Conn → Ring → Bytes → Datagram → List Arrival → Conn
past_block c r' b tx rest =
    acked (record (sent_block c r' b tx) { window = 0 }) rest ((c.block + 1) % 65536)

pub past_block-IsSending :
    (c : Conn) (r r' : Ring) (h : List Bytes) (b : Bytes) (tx : Datagram) (rest : List Arrival)
    → IsSending c r h
    → r'.size ≡ r.size
    → length b ≤ r.size
    → Holds r' (h ++ b ∷ []) (length h + 1)
    → IsSending (past_block c r' b tx rest) r' (h ++ b ∷ [])
past_block-IsSending c r r' h b tx rest s same le v = record {
  ring = refl;
  holds = subst (Holds r' (h ++ b ∷ [])) (omega (arith, length-append h (b ∷ []))) v;
  fills =
      omega (
        arith,
        s.fills,
        same,
        length-append b (drop (length b) c.buf),
        length-drop (length b) c.buf,
      );
  size = s.size ∙ sym same;
  small = omega (arith, s.small, same);
  closing = s.closing;
  lockstep = s.lockstep;
  fresh = refl;
  multi = s.multi;
  works = s.works;
  patient = omega (arith, s.patient);
  room = omega (arith, s.room, length-drop 4 c.rx.buf);
}

closes : (c : Conn) → c.closing ≡ true → c ≡ record c { closing = true }
closes c h = ap (λ b. record c { closing = b }) h

-- A full block goes out and is acknowledged.
pub block_round :
    (windows : Bool) (f : ℕ) (c : Conn) (r : Ring) (h : List Bytes) (rest : List Arrival)
    → IsSending (record c { closing = true }) r h
    → write_data c ≡ send_block c r
    → r.size ≤ length r.unread
    → c.arrivals ≡ packet c.remote_addr (ack_wire ((c.block + 1) % 65536)) ∷ rest
    → let b = take r.size r.unread in
      (r' : Ring) × (tx : Datagram) × (run windows (suc (suc f)) c (some State.write_data)
        ≡ run windows f (past_block c r' b tx rest) (some State.write_data))
      × IsSending (record (past_block c r' b tx rest) { closing = true }) r' (h ++ b ∷ [])
      × (r'.unread ≡ drop r.size r.unread)
      × (r'.size ≡ r.size)
block_round windows f c r h rest s goes_on more arrives =
    let b = take r.size r.unread in
    let full : length b ≡ r.size = omega (arith, length-take r.size r.unread) in
    let (r', eof, taken, left, same, v) = read_next r h s.holds in
    let taken' = ap (Ring.read r) s.fills ∙ taken in
    let (tx, sent, op) = send_block-sent c r r' b eof taken' s.works in
    let after =
      after_full (sent_block c r' b tx) (length b) (s.size ∙ sym full) (omega (arith, s.small))
        s.lockstep s.fresh in
    let went : send_block c r
        ≡ ret (record (sent_block c r' b tx) { window = 0 }, some State.get_ack) =
      sent ∙ ap ret after in
    (
      r',
      tx,
      round windows f c (record (sent_block c r' b tx) { window = 0 }) r rest goes_on went arrives
          s.multi s.room s.patient (omega arith) op,
      past_block-IsSending (record c { closing = true }) r r' h b tx rest s same (omega arith) v,
      left,
      same,
    )

-- The same of a sender that closes.
pub full_round :
    (windows : Bool) (f : ℕ) (c : Conn) (r : Ring) (h : List Bytes) (rest : List Arrival)
    → IsSending c r h
    → c.done ≡ false
    → r.size ≤ length r.unread
    → c.arrivals ≡ packet c.remote_addr (ack_wire ((c.block + 1) % 65536)) ∷ rest
    → let b = take r.size r.unread in
      (r' : Ring) × (tx : Datagram) × (run windows (suc (suc f)) c (some State.write_data)
        ≡ run windows f (past_block c r' b tx rest) (some State.write_data))
      × IsSending (past_block c r' b tx rest) r' (h ++ b ∷ [])
      × (r'.unread ≡ drop r.size r.unread)
      × (r'.size ≡ r.size)
full_round windows f c r h rest s going more arrives =
    let b = take r.size r.unread in
    let (r', tx, went, s', left, same) =
      block_round windows f c r h rest (subst (λ x. IsSending x r h) (closes c s.closing) s)
        (write_data-block c r s.ring s.closing going) more arrives in
    let next = past_block c r' b tx rest in
    (
      r',
      tx,
      went,
      subst (λ x. IsSending x r' (h ++ b ∷ [])) (sym (closes next s.closing)) s',
      left,
      same,
    )

-- The last block, shorter than the others, and its ACK end the loop.
pub last_block :
    (windows : Bool) (c : Conn) (r : Ring) (h : List Bytes) (rest : List Arrival)
    → IsSending c r h
    → c.done ≡ false
    → length r.unread < r.size
    → c.arrivals ≡ packet c.remote_addr (ack_wire ((c.block + 1) % 65536)) ∷ rest
    → (d : Conn) × (run windows 3 c (some State.write_data) ≡ ret (some d))
      × (d.sent ≡ c.sent ++ (c.remote_addr, data_wire ((c.block + 1) % 65536) r.unread) ∷ [])
      × (d.err ≡ c.err)
      × (d.done ≡ true)
      × (d.single_port ≡ false)
unfolding run step write_data
last_block windows c r h rest s going short arrives =
    let b = r.unread in
    let (r', eof, taken, left, same, v) = read_next r h s.holds in
    let all : take r.size r.unread ≡ b = take-all r.size r.unread (omega arith) in
    let taken' : Ring.read r (length c.buf) ≡ ret (r', b, eof) =
      ap (Ring.read r) s.fills ∙ taken ∙ ap (λ (x : Bytes). ret (r', x, eof)) all in
    let (tx, sent, op) = send_block-sent c r r' b eof taken' s.works in
    let e = sent_block c r' b tx in
    let over = record e { window = (e.window + 1) % 65536; done = true } in
    let went : send_block c r ≡ ret (over, some State.get_ack) =
      sent
      ∙ ap ret
          (after_short e (length b) (omega (arith, s.size)) (omega (arith, s.size, s.small))) in
    let stop : (c.closing && true) ≡ true = ground (arith, s.closing) in
    (
      acked over rest ((c.block + 1) % 65536),
      round windows 1 c over r rest (write_data-block c r s.ring s.closing going) went arrives
            s.multi s.room s.patient (omega arith) op
          ∙ rw stop refl,
      refl,
      refl,
      refl,
      s.multi,
    )

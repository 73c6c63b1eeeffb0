-- ===== src/Conn/Send/Rollback/Resend.antt =====
-- An ACK of an earlier block: the block behind it is sent again.
use trivialt.Prelude.{
  ℕ, suc, ◌+◌, ◌-◌, ◌*◌, ◌%◌, ◌≤◌, ◌<◌, [], ◌∷◌, ◌++◌, List, ret, Option, none, some, Bool, false,
  ltb, ◌==◌, ◌&&◌, length, drop, get_elem?, ◌≡◌, refl, subst, ap, ◌∙◌, arith,
}
use trivialt.Prelude.Bytes.{Bytes, put_uint16}
use trivialt.Prelude.Int.{pos, ltb_ℤ}
use trivialt.Datagram.{op_ack, op_data}
use trivialt.Datagram.Read.{block, opcode, validate}
use trivialt.Datagram.Read.Fields.{opcode-wire, block-wire}
use trivialt.Datagram.Write.Wire.{ack_wire, data_wire}
use trivialt.Ring
use trivialt.Ring.{Ring, unread_slots}
use trivialt.Ring.Refine.{Holds, chunk_at, read_again_lem}
use trivialt.Ring.Replay.{unread_slots-Holds}
use trivialt.Conn.{WritesWork, Conn, State, Arrival, packet}
use trivialt.Conn.Send.{take_ack, check_ack, get_ack, write_data, send_block, after_send}
use trivialt.Conn.Send.Rollback.{IsTraced, get_elem?-numbered, after_send-same}
use trivialt.Conn.Send.Transfer.Block.{
  acknowledging, acked, validate-acknowledging, get_ack-checked, net_acks, sent_block,
  send_block-sent,
}
use trivialt.Conn.Request.Granted.{run-step}
use trivialt.Conn.Run.{step, run}

-- The sender behind the block `n`, which is before `c.block`.
abbrev rolled_back : Conn → Ring → ℕ → Conn
rolled_back c r n = record c {
  tx_buf = some (unread_slots r (c.block - n));
  block = n;
  window = 0;
  done = false;
  tries = 0;
}

check_ack-old :
    (c : Conn) (r : Ring) (n : ℕ) (old : Bytes)
    → c.rx ≡ acknowledging n old
    → c.tx_buf ≡ some r
    → n < c.block
    → c.block < 65536
    → opcode c.tx ≡ ret op_data
    → check_ack c ≡ ret (rolled_back c r n, some State.write_data)
unfolding check_ack take_ack
check_ack-old c r n old e ring before small sent =
    let valid : validate c.rx ≡ ret none = ap validate e ∙ validate-acknowledging n old in
    let is_ack : opcode c.rx ≡ ret op_ack =
      ap opcode e
      ∙ opcode-wire (acknowledging n old) op_ack 0 (put_uint16 n ++ old) refl (omega arith) in
    let number : block c.rx ≡ ret n =
      ap block e ∙ block-wire (acknowledging n old) op_ack n old refl (omega arith) in
    let not_ahead : ltb c.block n ≡ false = ground arith in
    let differs : (n == c.block) ≡ false = ground arith in
    rw (valid, is_ack, number, not_ahead, sent, differs, ring) refl

-- A kept block is to be had at once.
len-again :
    (r : Ring) (h : List Bytes) (cur : ℕ)
    → Holds r h cur
    → cur < length h
    → ltb_ℤ (Ring.len r) (pos r.size) ≡ false
unfolding Ring.len
len-again r h cur v lt =
    let more : r.size ≤ (length h - cur) * r.size = grind arith in
    rw (v.top, v.place) (ground arith)

write_data-again :
    (c : Conn) (r : Ring) (h : List Bytes) (cur : ℕ)
    → c.tx_buf ≡ some r
    → c.blksize ≡ r.size
    → c.done ≡ false
    → Holds r h cur
    → cur < length h
    → write_data c ≡ send_block c r
unfolding write_data
write_data-again c r h cur ring size going v lt =
    let on : (c.closing && c.done) ≡ false = ground arith in
    let full : ltb_ℤ (Ring.len r) (pos c.blksize) ≡ false =
      ap (λ n. ltb_ℤ (Ring.len r) (pos n)) size ∙ len-again r h cur v lt in
    rw (on, ring, full) refl

rolled_back-again :
    (c : Conn) (r : Ring) (h : List Bytes) (base n : ℕ) (before : List (ℕ × Bytes))
    → IsTraced c r h base before
    → WritesWork c
    → base ≤ n
    → n < c.block
    → c.block < 65536
    → c.block - n ≤ r.slots
    → (e : Conn) × (next : Option State) × (write_data (rolled_back c r n) ≡ ret (e, next))
      × (e.sent ≡ c.sent ++ (c.remote_addr, data_wire (n + 1) (chunk_at h (n - base))) ∷ [])
      × (e.block ≡ n + 1)
rolled_back-again c r h base n before t works from earlier small near =
    let back = rolled_back c r n in
    let d = c.block - n in
    let cur = n - base in
    let there : length h - d ≡ cur = omega (arith, t.place) in
    let lt : cur < length h = omega (arith, t.place) in
    let v : Holds (unread_slots r d) h cur =
      subst (Holds (unread_slots r d) h) there
        (unread_slots-Holds d r h t.holds (omega (arith, t.place))) in
    let again =
      read_again_lem (unread_slots r d) h cur (length c.buf) v lt
        (unfold unread_slots in omega (arith, t.place))
        (unfold unread_slots in omega (arith, t.fills)) in
    let (tx, sent, op) =
      send_block-sent back (unread_slots r d) _ (chunk_at h cur) false again works in
    let s = sent_block back _ (chunk_at h cur) tx in
    let (w, done, kept) = after_send-same s (length (chunk_at h cur)) in
    let next_block : (n + 1) % 65536 ≡ n + 1 = omega arith in
    (
      (after_send s (length (chunk_at h cur))).0,
      (after_send s (length (chunk_at h cur))).1,
      write_data-again back (unread_slots r d) h cur refl (unfold unread_slots in t.size) refl v lt
          ∙ sent,
      ap (λ (x : Conn). x.sent) kept
          ∙ ap (λ i. c.sent ++ (c.remote_addr, data_wire i (chunk_at h cur)) ∷ []) next_block,
      ap (λ (x : Conn). x.block) kept ∙ next_block,
    )

-- A sender in `getAck` that has sent the chunks of its ring as the blocks behind `base`, below
-- 65536, and whose last datagram is DATA, hears the ACK of an earlier block `n`, no further back
-- than the slots of its ring. Then the very packet that it sent for block `n + 1` before is the
-- next that it sends, after two state functions, and it goes on from that block. It has a socket
-- of its own, a buffer for received packets with room for an ACK, and a try left, and its writes
-- succeed.
pub get_ack_resends :
    (windows : Bool) (f : ℕ) (c : Conn) (r : Ring) (h : List Bytes) (base n : ℕ)
    (before : List (ℕ × Bytes)) (rest : List Arrival)
    → IsTraced c r h base before
    → opcode c.tx ≡ ret op_data
    → WritesWork c
    → c.single_port ≡ false
    → 4 ≤ length c.rx.buf
    → c.tries < c.retransmit
    → base ≤ n
    → n < c.block
    → c.block < 65536
    → c.block - n ≤ r.slots
    → c.arrivals ≡ packet c.remote_addr (ack_wire n) ∷ rest
    → let again : ℕ × Bytes = (c.remote_addr, data_wire (n + 1) (chunk_at h (n - base))) in
      (get_elem? c.sent (length before + (n - base)) ≡ some again)
      × ((e : Conn) × (next : Option State) × (run windows (suc (suc f)) c (some State.get_ack)
            ≡ run windows f e next)
          × (e.sent ≡ c.sent ++ again ∷ [])
          × (e.block ≡ n + 1))
unfolding step
get_ack_resends windows f c r h base n before rest t data_last works multi fits more from earlier
      small near arrives =
    let cur = n - base in
    let mid = record (acked c rest n) { tries = c.tries + 1 } in
    let under : ltb c.retransmit (c.tries + 1) ≡ false = ground arith in
    let heard : get_ack c ≡ ret (rolled_back mid r n, some State.write_data) =
      get_ack-checked c mid c.remote_addr under (net_acks c n rest arrives multi fits)
        (ground arith)
      ∙ check_ack-old mid r n (drop 4 c.rx.buf) refl t.ring earlier small data_last in
    let t' : IsTraced mid r h base before = record {
      ring = t.ring;
      holds = t.holds;
      fills = t.fills;
      size = t.size;
      place = t.place;
      trace = t.trace;
    } in
    let (e, next, went, sent, place) =
      rolled_back-again mid r h base n before t' works from earlier small near in
    let number : base + cur + 1 ≡ n + 1 = omega arith in
    (
      ap (λ l. get_elem? l (length before + cur)) t.trace
          ∙ get_elem?-numbered c.remote_addr base cur h before (omega (arith, t.place))
          ∙ ap (λ i. some (c.remote_addr, data_wire i (chunk_at h cur))) number,
      (
        e,
        next,
        run-step windows (suc f) State.get_ack c (rolled_back mid r n) (some State.write_data) heard
            ∙ run-step windows f State.write_data (rolled_back mid r n) e next went,
        sent,
        place,
      ),
    )

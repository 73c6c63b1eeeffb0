-- ===== src/Conn/Send/Transfer/Whole.antt =====
-- `Close` sends the rest of a file, block after block, each as soon as the one before is acknowledged.
use trivialt.Prelude.{
  ℕ, zero, suc, ◌+◌, ◌-◌, ◌*◌, ◌%◌, ◌≤◌, ◌<◌, [], ◌∷◌, ◌++◌, List, ret, some, Bool, true, false,
  length, take, drop, length-drop, append_assoc, ◌≡◌, ap, ◌∙◌, arith,
}
use trivialt.Prelude.Bytes.{Bytes}
use trivialt.Datagram.Write.Wire.{data_wire}
use trivialt.Ring.{Ring}
use trivialt.Conn.{Conn, State}
use trivialt.Conn.Run.{run}
use trivialt.Conn.Send.Transfer.Round.{
  IsSending, blocks_of, acks, datas, past_block, full_round, last_block,
}

pub less : (k size n : ℕ) → suc k * size ≤ n → k * size ≤ n - size
less k size n h = grind arith

pub bounded : (k size n : ℕ) → n < suc k * size + size → size ≤ n → n - size < k * size + size
bounded k size n h le = grind arith

-- All that is known of the end of the loop.
pub run_ends :
    (windows : Bool) (k : ℕ) (c : Conn) (r : Ring) (h : List Bytes)
    → IsSending c r h
    → c.done ≡ false
    → k * r.size ≤ length r.unread
    → length r.unread < k * r.size + r.size
    → c.arrivals ≡ acks c.remote_addr (blocks_of r.size k c.block r.unread)
    → (d : Conn) × (run windows (suc (suc (suc (2 * k)))) c (some State.write_data) ≡ ret (some d))
      × (d.sent ≡ c.sent ++ datas c.remote_addr (blocks_of r.size k c.block r.unread))
      × (d.err ≡ c.err)
      × (d.done ≡ true)
      × (d.single_port ≡ false)
run_ends windows zero c r h s going least most arrives =
    last_block windows c r h [] s going (omega arith) arrives
run_ends windows (suc k) c r h s going least most arrives =
    let next = (c.block + 1) % 65536 in
    let rest = acks c.remote_addr (blocks_of r.size k next (drop r.size r.unread)) in
    let fuel : suc (suc (suc (2 * suc k))) ≡ suc (suc (suc (suc (suc (2 * k))))) = omega arith in
    let cut = length-drop r.size r.unread in
    let enough : r.size ≤ length r.unread = grind arith in
    let (r', tx, went, s', left, same) =
      full_round windows (suc (suc (suc (2 * k)))) c r h rest s going enough arrives in
    let mid = past_block c r' (take r.size r.unread) tx rest in
    let blocks : blocks_of r.size k next (drop r.size r.unread)
        ≡ blocks_of r'.size k next r'.unread =
      cc in
    let least' : k * r'.size ≤ length r'.unread =
      rw (same, left, cut) (less k r.size (length r.unread) least) in
    let most' : length r'.unread < k * r'.size + r'.size =
      rw (same, left, cut) (bounded k r.size (length r.unread) most enough) in
    let (d, e, sent, err, done, multi) =
      run_ends windows k mid r' (h ++ take r.size r.unread ∷ []) s' going least' most'
        (ap (acks c.remote_addr) blocks) in
    (
      d,
      ap (λ f. run windows f c (some State.write_data)) fuel ∙ went ∙ e,
      sent
          ∙ rw (← blocks)
              (append_assoc c.sent ((c.remote_addr, data_wire next (take r.size r.unread)) ∷ []) _),
      err,
      done,
      multi,
    )

-- The loop of `Write` in a sender that closes with a window of one block: given the ACK of each
-- block it ends, within two state functions for each block and one more, and has sent exactly the
-- unread data of its ring, cut into blocks that are numbered on 16 bits, all full but the last,
-- which is shorter and may be empty. The sender has a socket of its own, and its writes succeed.
pub run_sends :
    (windows : Bool) (k : ℕ) (c : Conn) (r : Ring) (h : List Bytes)
    → IsSending c r h
    → c.done ≡ false
    → k * r.size ≤ length r.unread
    → length r.unread < k * r.size + r.size
    → c.arrivals ≡ acks c.remote_addr (blocks_of r.size k c.block r.unread)
    → (d : Conn) × (run windows (suc (suc (suc (2 * k)))) c (some State.write_data) ≡ ret (some d))
      × (d.sent ≡ c.sent ++ datas c.remote_addr (blocks_of r.size k c.block r.unread))
      × (d.err ≡ c.err)
      × (d.done ≡ true)
run_sends windows k c r h s going least most arrives =
    let (d, e, sent, err, done, multi) = run_ends windows k c r h s going least most arrives in
    (d, e, sent, err, done)

-- ===== src/Conn/Send/Rollback.antt =====
-- A sender that remembers what it sent, and goes back to the block behind the one that its peer
-- acknowledged.
pub mod Resend
use trivialt.Prelude.{
  ℕ, zero, suc, ◌+◌, ◌-◌, ◌*◌, ◌%◌, ◌≤◌, ◌<◌, [], ◌∷◌, ◌++◌, List, ret, Option, none, some, Bool,
  true, false, ltb, ◌==◌, length, take, drop, length-append, length-take, length-drop, get_elem?,
  append_assoc, Bool-cases, inl, inr, ◌≡◌, ◌≢◌, refl, sym, subst, ap, ap₂, ◌∙◌, arith,
}
use trivialt.Prelude.Bytes.{Bytes}
use trivialt.Datagram.{Datagram, op_data}
use trivialt.Datagram.Read.{opcode}
use trivialt.Datagram.Write.Wire.{data_wire}
use trivialt.Ring
use trivialt.Ring.{Ring}
use trivialt.Ring.Refine.{Holds, chunk_at, read_next}
use trivialt.Conn.{WritesWork, Conn, State}
use trivialt.Conn.Send.{send_block, after_send}
use trivialt.Conn.Send.Transfer.Block.{sent_block, send_block-sent}
use trivialt.Conn.Send.Transfer.Round.{datas}

-- The chunks as blocks behind the block `base`.
abbrev pub numbered : ℕ → List Bytes → List (ℕ × Bytes)
numbered base [] = []
numbered base (b ∷ h) = (base + 1, b) ∷ numbered (base + 1) h

-- Since it had sent `before`, the sender has sent the chunks `h` of its ring, as the blocks behind
-- `base`, and nothing else.
pub record IsTraced (c : Conn) (r : Ring) (h : List Bytes) (base : ℕ) (before : List (ℕ × Bytes))
    : Type 0 where
  pub ring : c.tx_buf ≡ some r
  pub holds : Holds r h (length h)
  pub fills : length c.buf ≡ r.size
  pub size : c.blksize ≡ r.size
  pub place : c.block ≡ base + length h
  pub trace : c.sent ≡ before ++ datas c.remote_addr (numbered base h)

numbered-append :
    (addr base : ℕ) (h : List Bytes) (b : Bytes)
    → datas addr (numbered base (h ++ b ∷ []))
      ≡ datas addr (numbered base h) ++ (addr, data_wire (base + length h + 1) b) ∷ []
numbered-append addr base [] b =
    let e : base + 1 ≡ base + 0 + 1 = omega arith in ap (λ n. (addr, data_wire n b) ∷ []) e
numbered-append addr base (x ∷ h) b =
    let e : (base + 1) + length h + 1 ≡ base + suc (length h) + 1 = omega arith in
    ap (λ l. (addr, data_wire (base + 1) x) ∷ l)
      (numbered-append addr (base + 1) h b
        ∙ ap (λ n. datas addr (numbered (base + 1) h) ++ (addr, data_wire n b) ∷ []) e)

-- What was sent for the chunk `i`.
pub get_elem?-numbered :
    (addr base i : ℕ) (h : List Bytes) (before : List (ℕ × Bytes))
    → i < length h
    → get_elem? (before ++ datas addr (numbered base h)) (length before + i)
      ≡ some (addr, data_wire (base + i + 1) (chunk_at h i))
get_elem?-numbered addr base i h (p ∷ before) lt =
    let e : suc (length before) + i ≡ suc (length before + i) = omega arith in
    ap (get_elem? (p ∷ (before ++ datas addr (numbered base h)))) e
    ∙ get_elem?-numbered addr base i h before lt
get_elem?-numbered addr base i h [] lt =
    let e : 0 + i ≡ i = omega arith in
    ap (get_elem? (datas addr (numbered base h))) e ∙ behind base i h lt
  where
    behind :
        (base i : ℕ) (h : List Bytes)
        → i < length h
        → get_elem? (datas addr (numbered base h)) i
          ≡ some (addr, data_wire (base + i + 1) (chunk_at h i))
    behind base i [] lt = absurd (omega arith)
    behind base zero (b ∷ h) lt =
        let e : base + 1 ≡ base + 0 + 1 = omega arith in ap (λ n. some (addr, data_wire n b)) e
    behind base (suc i) (b ∷ h) lt =
        let e : (base + 1) + i + 1 ≡ base + suc i + 1 = omega arith in
        behind (base + 1) i h (omega arith) ∙ ap (λ n. some (addr, data_wire n (chunk_at h i))) e

-- After the packet is sent only the window and the end change.
pub after_send-same :
    (c : Conn) (n : ℕ)
    → (w : ℕ) × (d : Bool) × ((after_send c n).0 ≡ record c { window = w; done = d })
unfolding after_send
after_send-same c n = elim (Bool-cases (ltb (n % 65536) c.blksize)) [
  | inl t ↦ ((c.window + 1) % 65536, true, rw t refl)
  | inr f ↦ elim (Bool-cases (ltb ((c.window + 1) % 65536) c.windowsize)) [
    | inl t ↦ ((c.window + 1) % 65536, c.done, rw (f, t) refl)
    | inr f' ↦ (0, c.done, rw (f, f') refl)
  ]
]

-- Sending a block keeps the record of a sender: since some point it has sent the chunks of its
-- ring, in their order, as the blocks behind the block `base`, and nothing else. The new block is
-- the front of the unread data, up to a slot long, it is the last chunk of the ring afterwards,
-- and the last datagram is DATA. The block number stays below 65536, and the write succeeds.
pub send_block-IsTraced :
    (c : Conn) (r : Ring) (h : List Bytes) (base : ℕ) (before : List (ℕ × Bytes))
    → IsTraced c r h base before
    → c.block + 1 < 65536
    → WritesWork c
    → (c' : Conn) × (next : Option State) × (r' : Ring) × (send_block c r ≡ ret (c', next))
      × IsTraced c' r' (h ++ take r.size r.unread ∷ []) base before
      × (opcode c'.tx ≡ ret op_data)
send_block-IsTraced c r h base before t small works =
    let b = take r.size r.unread in
    let h' = h ++ b ∷ [] in
    let (r', eof, taken, left, same, v) = read_next r h t.holds in
    let (tx, sent, op) = send_block-sent c r r' b eof (ap (Ring.read r) t.fills ∙ taken) works in
    let s = sent_block c r' b tx in
    let (w, d, kept) = after_send-same s (length b) in
    let next_block : (c.block + 1) % 65536 ≡ base + length h + 1 = omega (arith, t.place) in
    let long : length h' ≡ length h + 1 = length-append h (b ∷ []) in
    let traced : IsTraced (record s { window = w; done = d }) r' h' base before = record {
      ring = refl;
      holds = subst (Holds r' h') (sym long) v;
      fills = omega (
        arith,
        t.fills,
        same,
        length-append b (drop (length b) c.buf),
        length-drop (length b) c.buf,
        length-take r.size r.unread,
      );
      size = t.size ∙ sym same;
      place = omega (arith, next_block, long);
      trace =
          ap₂ (λ l n. l ++ (c.remote_addr, data_wire n b) ∷ []) t.trace next_block
          ∙ append_assoc before (datas c.remote_addr (numbered base h)) _
          ∙ ap (λ l. before ++ l) (sym (numbered-append c.remote_addr base h b));
    } in
    (
      (after_send s (length b)).0,
      (after_send s (length b)).1,
      r',
      sent,
      subst (λ x. IsTraced x r' h' base before) (sym kept) traced,
      ap (λ (x : Conn). opcode x.tx) kept ∙ op,
    )

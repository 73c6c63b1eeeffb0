-- ===== src/Conn/Send/Transfer/Filling.antt =====
-- A sender that is not closing sends the full blocks of its ring and keeps the rest.
use trivialt.Prelude.{
  ℕ, zero, suc, ◌+◌, ◌*◌, ◌%◌, ◌≤◌, ◌<◌, [], ◌∷◌, ◌++◌, List, Go, ret, panic, ◌>>=◌, if◌then◌else◌,
  none, some, Option, Bool, true, false, ltb, not, ◌&&◌, length, take, drop, length-drop,
  take-append_le, drop-append_le, append_assoc, ◌≡◌, refl, sym, ap, ap₂, ◌∙◌, arith,
}
use trivialt.Prelude.Bytes.{Bytes}
use trivialt.Prelude.Int.{pos, ltb_ℤ}
use trivialt.Datagram.{Datagram}
use trivialt.Datagram.Write.Wire.{data_wire}
use trivialt.Ring
use trivialt.Ring.{Ring}
use trivialt.Ring.Refine.{Holds}
use trivialt.Conn.{Conn, State, Next, Arrival, plain_target}
use trivialt.Conn.Send.{write_data, send_block}
use trivialt.Conn.Send.Transfer.Round.{IsSending, blocks_of, acks, datas, past_block, block_round}
use trivialt.Conn.Send.Transfer.Whole.{less, bounded}
use trivialt.Conn.Run.{step, run}

-- A sender that has settled its options and is not closing, in lockstep, with the ring `r`.
pub record IsOpen (c : Conn) (r : Ring) (h : List Bytes) : Type 0 where
  pub sending : IsSending (record c { closing = true }) r h
  pub opened : c.closing ≡ false
  pub going : c.done ≡ false
  pub good : c.err ≡ none
  pub settled : c.options_parsed ≡ true
  pub plain : c.writer ≡ plain_target

len-Holds :
    (r : Ring) (h : List Bytes) (n : ℕ)
    → Holds r h (length h)
    → ltb_ℤ (Ring.len r) (pos n) ≡ ltb (length r.unread) n
unfolding Ring.len
len-Holds r h n v = rw (v.top, v.place) (ground arith)

write_data-on :
    (c : Conn) (r : Ring) (h : List Bytes)
    → IsOpen c r h
    → r.size ≤ length r.unread
    → write_data c ≡ send_block c r
unfolding write_data
write_data-on c r h o more =
    let on : (c.closing && c.done) ≡ false = ground (arith, o.opened) in
    let full : ltb_ℤ (Ring.len r) (pos c.blksize) ≡ false =
      len-Holds r h c.blksize o.sending.holds ∙ ground (arith, o.sending.size) in
    rw (on, o.sending.ring, full) refl

stops_on :
    (c : Conn) (t : Option Ring) (r : Ring)
    → t ≡ some r
    → (ltb_ℤ (Ring.len r) (pos c.blksize) && not c.closing) ≡ true
    → (elim t as (λ _. Go Next) [
      | none ↦ panic
      | some r ↦
          if ltb_ℤ (Ring.len r) (pos c.blksize) && not c.closing
          then ret (c, none)
          else send_block c r
    ])
      ≡ ret (c, none)
stops_on c t r ring short = rw (ring, short) refl

write_data-stops :
    (c : Conn) (r : Ring) (h : List Bytes)
    → IsOpen c r h
    → length r.unread < r.size
    → write_data c ≡ ret (c, none)
unfolding write_data
write_data-stops c r h o less =
    let on : (c.closing && c.done) ≡ false = ground (arith, o.opened) in
    let short : ltb_ℤ (Ring.len r) (pos c.blksize) ≡ true =
      len-Holds r h c.blksize o.sending.holds ∙ ground (arith, o.sending.size) in
    rw on (stops_on c c.tx_buf r o.sending.ring (ap₂ (λ a b. a && not b) short o.opened))

ended :
    (windows : Bool) (c : Conn)
    → write_data c ≡ ret (c, none)
    → run windows 1 c (some State.write_data) ≡ ret (some c)
unfolding run step
ended windows c h = ap (λ m. m >>= λ (x : Next). run windows 0 x.0 x.1) h

-- The blocks of the ring and of what is written behind it, `v`: their ACKs are to come, and with them the
-- trace is complete.
abbrev pub coming : Conn → Ring → Bytes → ℕ → List (ℕ × Bytes)
coming c r v j = blocks_of r.size j c.block (r.unread ++ v)

abbrev pub Awaits : Conn → Ring → Bytes → ℕ → Type 0
Awaits c r v j = c.arrivals ≡ acks c.remote_addr (coming c r v j)

abbrev pub total : Conn → Ring → Bytes → ℕ → List (ℕ × Bytes)
total c r v j = c.sent ++ datas c.remote_addr (coming c r v j)

-- Where a loop over full blocks leaves a sender.
abbrev pub Filled : Conn → Ring → Bytes → ℕ → ℕ → ℕ → Conn → Type 0
Filled c r v k j t d =
    (r' : Ring) × (h' : List Bytes) × IsOpen d r' h'
    × (d.n ≡ c.n)
    × (r'.size ≡ r.size)
    × (length r'.unread + k * r.size ≡ length r.unread)
    × (length r'.unread < r.size)
    × Awaits d r' v j
    × (total d r' v j ≡ total c r v t)

-- The ACKs behind the one of the next block.
abbrev rest_after : Conn → Ring → Bytes → ℕ → List Arrival
rest_after c r v j =
    acks c.remote_addr (blocks_of r.size j ((c.block + 1) % 65536) (drop r.size (r.unread ++ v)))

-- One full block more in front of the loop.
module _ (c : Conn) (r r' : Ring) (v : Bytes) (tx : Datagram) (j : ℕ)
    (more : r.size ≤ length r.unread) (left : r'.unread ≡ drop r.size r.unread)
    (same : r'.size ≡ r.size) where
  next_blocks :
      blocks_of r.size j ((c.block + 1) % 65536) (drop r.size (r.unread ++ v))
      ≡ blocks_of r'.size j ((c.block + 1) % 65536) (r'.unread ++ v)
  next_blocks =
      ap₂ (λ n u. blocks_of n j ((c.block + 1) % 65536) u) (sym same)
        (drop-append_le r.size r.unread v more ∙ ap (λ u. u ++ v) (sym left))

  next_total :
      (rest : List Arrival)
      → total (past_block c r' (take r.size r.unread) tx rest) r' v j ≡ total c r v (suc j)
  next_total rest =
      append_assoc c.sent
        ((c.remote_addr, data_wire ((c.block + 1) % 65536) (take r.size r.unread)) ∷ []) _
      ∙ ap₂
          (λ b xs.
            c.sent ++ (c.remote_addr, data_wire ((c.block + 1) % 65536) b) ∷ datas c.remote_addr xs)
          (sym (take-append_le r.size r.unread v more)) (sym next_blocks)

longer : (k size n m l : ℕ) → n + k * size ≡ m → m + size ≡ l → n + suc k * size ≡ l
longer k size n m l h g = grind arith

-- The loop over `k` full blocks, when `t` blocks are full in all that is to be written.
pub run_fills :
    (windows : Bool) (k j t : ℕ) (c : Conn) (r : Ring) (h : List Bytes) (v : Bytes)
    → t ≡ k + j
    → IsOpen c r h
    → k * r.size ≤ length r.unread
    → length r.unread < k * r.size + r.size
    → Awaits c r v t
    → (d : Conn) × (run windows (suc (2 * k)) c (some State.write_data) ≡ ret (some d))
      × Filled c r v k j t d
run_fills windows zero j t c r h v e o least most arrives =
    let same : t ≡ j = omega (arith, e) in
    let less : length r.unread < r.size = omega (arith, most) in
    (
      c,
      ended windows c (write_data-stops c r h o less),
      (
        r,
        h,
        o,
        refl,
        refl,
        omega arith,
        less,
        arrives ∙ ap (λ i. acks c.remote_addr (coming c r v i)) same,
        ap (total c r v) (sym same),
      ),
    )
run_fills windows (suc k) j zero c r h v e o least most arrives = absurd (omega (arith, e))
run_fills windows (suc k) j (suc t) c r h v e o least most arrives =
    let more : r.size ≤ length r.unread = grind arith in
    let fuel : suc (2 * suc k) ≡ suc (suc (suc (2 * k))) = omega arith in
    let (r', tx, went, s', left, same) =
      block_round windows (suc (2 * k)) c r h (rest_after c r v t) o.sending
        (write_data-on c r h o more) more arrives in
    let mid = past_block c r' (take r.size r.unread) tx (rest_after c r v t) in
    let o' : IsOpen mid r' (h ++ take r.size r.unread ∷ []) = record {
      sending = s';
      opened = o.opened;
      going = o.going;
      good = o.good;
      settled = o.settled;
      plain = o.plain;
    } in
    let cut = length-drop r.size r.unread in
    let least' : k * r'.size ≤ length r'.unread =
      rw (same, left, cut) (less k r.size (length r.unread) least) in
    let most' : length r'.unread < k * r'.size + r'.size =
      rw (same, left, cut) (bounded k r.size (length r.unread) most more) in
    let (d, run', filled) =
      run_fills windows k j t mid r' (h ++ take r.size r.unread ∷ []) v (omega (arith, e)) o' least'
        most' (ap (acks c.remote_addr) (next_blocks c r r' v tx t more left same)) in
    let (r'', h'', o'', n'', size'', len'', short'', awaits, sum) = filled in
    let one : length r'.unread + r.size ≡ length r.unread = omega (arith, ap length left, cut) in
    let rest' : length r''.unread + k * r.size ≡ length r'.unread =
      ap (λ n. length r''.unread + k * n) (sym same) ∙ len'' in
    (
      d,
      ap (λ f. run windows f c (some State.write_data)) fuel ∙ went ∙ run',
      (
        r'',
        h'',
        o'',
        n'',
        size'' ∙ same,
        longer k r.size _ _ _ rest' one,
        omega (arith, short'', same),
        awaits,
        sum ∙ next_total c r r' v tx t more left same (rest_after c r v t),
      ),
    )

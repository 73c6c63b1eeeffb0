-- ===== src/Conn/Send/Transfer/Closing.antt =====
-- `Close` of a sender: the rest of the data goes out, and the socket is closed.
use trivialt.Prelude.{
  arith, zero, ℕ, suc, ◌+◌, ◌*◌, ◌≤◌, ◌<◌, [], ◌++◌, append-nil, List, bind-eq-ret, Go, ret, ◌>>=◌,
  if◌then◌else◌, none, some, Option, Bool, true, false, not, ◌&&◌, length, ◌≡◌, refl, ap, ◌∙◌,
}
use trivialt.Prelude.Bytes.{Bytes}
use trivialt.Errors.{Error, is_eof, wrap_error}
use trivialt.Ring
use trivialt.Ring.{Ring}
use trivialt.Conn.{Conn, State, Next, Target, plain_target}
use trivialt.Conn.Send
use trivialt.Conn.Send.{write_target}
use trivialt.Conn.Send.Transfer.Round.{IsSending, blocks_of, acks, datas}
use trivialt.Conn.Send.Transfer.Whole.{run_ends}
use trivialt.Conn.Run.{step, run, write, write_rest, flush_writer, close_net, close, is_nil}

write-nil : (r : Ring) → Ring.write r [] ≡ r
unfolding Ring.write
write-nil r = ap (λ u. record r { unread = u }) (append-nil r.unread)

-- The connection as `writeData` finds it.
abbrev pub closing : Conn → Ring → Conn
closing c r = record c { closing = true; p = []; n = 0; tx_buf = some r }

-- A plain writer takes nothing into the ring.
write_target-nothing :
    (t : Target) (b : Option Ring) (r : Ring)
    → t ≡ plain_target
    → b ≡ some r
    → write_target t b [] ≡ ret (t, some r, 0)
unfolding write_target
write_target-nothing t b r plain ring =
    rw (plain, ring) (ap (λ x. ret (plain_target, some x, 0)) (write-nil r))

pub first_step :
    (windows : Bool) (f : ℕ) (c : Conn)
    → c.options_parsed ≡ true
    → run windows (suc f) c (some State.start_write) ≡ run windows f c (some State.write)
unfolding run step Send.start_write
first_step windows f c h =
    ap (λ b. run windows f c (some (if b then State.write else State.write_setup))) h

pub second_step :
    (windows : Bool) (f : ℕ) (c : Conn) (t : Target) (b : Option Ring) (n : ℕ)
    → write_target c.writer c.tx_buf c.p ≡ ret (t, b, n)
    → run windows (suc f) c (some State.write)
      ≡ run windows f (record c { writer = t; tx_buf = b; n = n }) (some State.write_data)
unfolding run step Send.write
second_step windows f c t b n h =
    let next : Target × Option Ring × ℕ → Go Next =
      λ x. ret (record c { writer = x.0; tx_buf = x.1; n = x.2 }, some State.write_data) in
    ap (λ m. (m >>= next) >>= λ (r : Next). run windows f r.0 r.1) h

-- Nothing is written, so that the loop comes to `writeData`.
run-closing :
    (windows : Bool) (f : ℕ) (c : Conn) (r : Ring)
    → c.options_parsed ≡ true
    → c.writer ≡ plain_target
    → c.tx_buf ≡ some r
    → run windows (suc (suc f)) (record c { closing = true; p = [] }) (some State.start_write)
      ≡ run windows f (closing c r) (some State.write_data)
run-closing windows f c r settled plain ring =
    let c' = record c { closing = true; p = [] } in
    first_step windows (suc f) c' settled
    ∙ second_step windows f c' c.writer (some r) 0
        (write_target-nothing c.writer c.tx_buf r plain ring)

closing-IsSending :
    (c : Conn) (r : Ring) (h : List Bytes)
    → IsSending (record c { closing = true }) r h
    → IsSending (closing c r) r h
closing-IsSending c r h s = record {
  ring = refl;
  holds = s.holds;
  fills = s.fills;
  size = s.size;
  small = s.small;
  closing = refl;
  lockstep = s.lockstep;
  fresh = s.fresh;
  multi = s.multi;
  works = s.works;
  patient = s.patient;
  room = s.room;
}

pub write-ended :
    (windows : Bool) (fuel : ℕ) (c d : Conn) (p : Bytes)
    → c.err ≡ none
    → run windows fuel (record c { p = p }) (some State.start_write) ≡ ret (some d)
    → write windows fuel c p ≡ ret (some (d, (d.n, wrap_error d.err "writing")))
unfolding write
write-ended windows fuel c d p h r = rw (h, rw h at r) refl

flush_writer-nothing :
    (windows : Bool) (fuel : ℕ) (c : Conn) (t : Target) (b : Option Ring)
    → t ≡ plain_target
    → flush_writer windows fuel c t b ≡ c
unfolding flush_writer
flush_writer-nothing windows fuel c t b h = rw h refl

write_rest-ended :
    (windows : Bool) (fuel : ℕ) (c d : Conn) (t : Option Ring) (r : Ring)
    → t ≡ some r
    → c.err ≡ none
    → run windows fuel (record c { closing = true; p = [] }) (some State.start_write) ≡ ret (some d)
    → write_rest windows fuel c t ≡ ret (some d)
unfolding write_rest
write_rest-ended windows fuel c d t r h good e =
    rw (h, write-ended windows fuel (record c { closing = true }) d [] good e) refl

-- What `Close` makes of a loop that ends without an error.
close-ended :
    (windows : Bool) (fuel : ℕ) (c d : Conn) (r : Ring) (net_error : Option Error)
    → c.err ≡ none
    → c.writer ≡ plain_target
    → c.tx_buf ≡ some r
    → run windows fuel (record c { closing = true; p = [] }) (some State.start_write) ≡ ret (some d)
    → d.err ≡ none
    → close windows fuel c net_error ≡ ret (some (close_net windows fuel d net_error, none))
unfolding close
close-ended windows fuel c d r net_error good plain ring e over =
    let on : (not (is_nil windows c.err) && not (is_eof c.err)) ≡ false = rw good refl in
    let rest = write_rest-ended windows fuel c d c.tx_buf r ring good e in
    rw (on, flush_writer-nothing windows fuel c c.writer c.tx_buf plain, rest)
      (ap (λ x. ret (some (close_net windows fuel d net_error, if is_eof x then none else x))) over)

-- Closing the socket.
closed :
    (windows : Bool) (fuel : ℕ) (d : Conn) (net_error : Option Error)
    → d.single_port ≡ false
    → ((close_net windows fuel d net_error).sent ≡ d.sent)
      × ((close_net windows fuel d net_error).net_closed ≡ true)
unfolding close_net
closed windows fuel d net_error h = rw h (refl, refl)

-- More fuel changes nothing of a loop that ends.
pub run-more :
    (windows : Bool) (f g : ℕ) (c d : Conn) (s : Option State)
    → run windows f c s ≡ ret (some d)
    → run windows (f + g) c s ≡ ret (some d)
unfolding run
run-more windows f g c d none h = h
run-more windows zero g c d (some s) h = cc
run-more windows (suc f) g c d (some s) h =
    let (x, stepped, rest) = bind-eq-ret (step windows s c) (λ x. run windows f x.0 x.1) h in
    let fuel : suc f + g ≡ suc (f + g) = omega arith in
    ap (λ n. run windows n c (some s)) fuel
    ∙ ap (λ m. m >>= λ (y : Next). run windows (f + g) y.0 y.1) stepped
    ∙ run-more windows f g x.0 d x.1 rest

-- `Close` on any fuel that is enough.
pub close-more :
    (windows : Bool) (k g : ℕ) (c : Conn) (r : Ring) (h : List Bytes) (net_error : Option Error)
    → IsSending (record c { closing = true }) r h
    → c.done ≡ false
    → c.err ≡ none
    → c.options_parsed ≡ true
    → c.writer ≡ plain_target
    → k * r.size ≤ length r.unread
    → length r.unread < k * r.size + r.size
    → c.arrivals ≡ acks c.remote_addr (blocks_of r.size k c.block r.unread)
    → (d : Conn) × (close windows (suc (suc (suc (suc (suc (2 * k))))) + g) c net_error
        ≡ ret (some (d, none)))
      × (d.sent ≡ c.sent ++ datas c.remote_addr (blocks_of r.size k c.block r.unread))
      × (d.net_closed ≡ true)
close-more windows k g c r h net_error sending going good settled plain least most answers =
    let (d, e, sent, err, over, multi) =
      run_ends windows k (closing c r) r h (closing-IsSending c r h sending) going least most
        answers in
    let fuel = suc (suc (suc (2 * k))) in
    let f = suc (suc fuel) in
    let (kept, shut) = closed windows (f + g) d net_error multi in
    (
      close_net windows (f + g) d net_error,
      close-ended windows (f + g) c d r net_error good plain sending.ring
          (run-more windows f g _ d _ (run-closing windows fuel c r settled plain sending.ring ∙ e))
          (err ∙ good),
      kept ∙ sent,
      shut,
    )

-- `Close` of a sender without an error, that has settled its options, does not encode, and has a
-- window of one block and a socket of its own: given the ACK of each block, and with writes that
-- succeed, it ends, within two state functions for each block and three more. It returns no error,
-- whatever closing the socket returns; it has sent exactly the unread data of its ring, in blocks
-- that are all full but the last, which is shorter and may be empty; and the socket is closed.
pub close_lem :
    (windows : Bool) (k : ℕ) (c : Conn) (r : Ring) (h : List Bytes) (net_error : Option Error)
    → IsSending (record c { closing = true }) r h
    → c.done ≡ false
    → c.err ≡ none
    → c.options_parsed ≡ true
    → c.writer ≡ plain_target
    → k * r.size ≤ length r.unread
    → length r.unread < k * r.size + r.size
    → c.arrivals ≡ acks c.remote_addr (blocks_of r.size k c.block r.unread)
    → (d : Conn) × (close windows (suc (suc (suc (suc (suc (2 * k)))))) c net_error
        ≡ ret (some (d, none)))
      × (d.sent ≡ c.sent ++ datas c.remote_addr (blocks_of r.size k c.block r.unread))
      × (d.net_closed ≡ true)
close_lem windows k c r h net_error sending going good settled plain least most answers =
    let (d, e, sent, shut) =
      close-more windows k 0 c r h net_error sending going good settled plain least most answers in
    let f = suc (suc (suc (suc (suc (2 * k))))) in
    let fuel : f ≡ f + 0 = omega arith in
    (d, ap (λ n. close windows n c net_error) fuel ∙ e, sent, shut)

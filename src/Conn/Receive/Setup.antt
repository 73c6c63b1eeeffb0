-- ===== src/Conn/Receive/Setup.antt =====
-- `readSetup` on options that are accepted: what it answers, and the receiver it leaves.
use trivialt.Prelude.{
  ℕ, ◌+◌, ◌<◌, ◌==◌, [], ◌∷◌, ◌++◌, ret, ◌>>=◌, none, some, true, false, if◌then◌else◌, length, ltb,
  ◌*◌, true, ◌≡◌, refl, sym, ap, ap₂, ◌∙◌, subst, arith, Bool-cases, inl, inr, length-replicate,
}
use trivialt.Prelude.Bytes.{Bytes, bytes_eq}
use trivialt.Datagram.{Datagram, Options, mode_netascii}
use trivialt.Datagram.Write.{bytes, make}
use trivialt.Datagram.Write.Wire.{ack_wire, oack_wire, write_ack_lem, write_option_ack_lem}
use trivialt.Datagram.Read.{options}
use trivialt.Conn.{WritesWork, Conn, State, plain_source, new_conn}
use trivialt.Conn.Net.{write_to_net}
use trivialt.Conn.Receive.Transfer.File.{IsWaiting}
use trivialt.Conn.Net.Sends.{write_to_net-SendsBy, built_datagram}
use trivialt.Conn.Negotiate.{parsed, apply_options, parse_options}
use trivialt.Conn.Negotiate.Settles.{settled, IsSettled, apply_options-IsSettled}
use trivialt.Conn.Negotiate.Frame.{regraft, apply_options-frame}
use trivialt.Conn.Receive.{rx_size, answer, set_up, read_setup}

-- What the answer to the options is on the wire: an OACK from a server that accepted some, or an ACK.
abbrev pub answer_wire : Conn → Options → Bytes
answer_wire c [] = ack_wire c.block
answer_wire c (o ∷ os) = if c.is_client then ack_wire c.block else oack_wire (c.order (o ∷ os))

answer_lem : (c : Conn) (ack : Options) → (answer c ack >>= bytes) ≡ ret (answer_wire c ack)
answer_lem c [] = write_ack_lem c.tx c.block
answer_lem c (o ∷ os) = elim (Bool-cases c.is_client) [
  | inl t ↦ rw t (write_ack_lem c.tx c.block)
  | inr f ↦ rw f (write_option_ack_lem c.tx (c.order (o ∷ os)))
]

fresh_rx : Conn → Datagram
fresh_rx c =
    if length c.rx.buf == rx_size c.blksize
    then c.rx
    else record { buf = make (rx_size c.blksize); offset = c.rx.offset }

length-fresh_rx : (c : Conn) → c.blksize < 65532 → length (fresh_rx c).buf ≡ c.blksize + 4
unfolding fresh_rx
length-fresh_rx c h = elim (Bool-cases (length c.rx.buf == rx_size c.blksize)) [
  | inl t ↦ rw t (ground arith)
  | inr f ↦ rw f (omega (arith, length-replicate {A = ℕ} (rx_size c.blksize) 0))
]

-- The connection `e` that goes on from `d`, whose options are settled, once they are answered.
pub record Answers (d : Conn) (ack : Options) (e : Conn) : Type 0 where
  pub same : e ≡ record d { rx = e.rx; tx = e.tx; sent = e.sent; write_results = [] }
  pub works : WritesWork e
  pub room : length e.rx.buf ≡ d.blksize + 4
  pub trace : e.sent ≡ d.sent ++ (d.remote_addr, answer_wire d ack) ∷ []

pub set_up-Answers :
    (d : Conn) (ack : Options)
    → WritesWork d
    → d.blksize < 65532
    → (e : Conn) × (set_up (parsed d ack) ≡ ret (e, if d.is_client then none else some State.read))
      × Answers d ack e
unfolding set_up fresh_rx
set_up-Answers d ack quiet small =
    let (tx, made, wire) = built_datagram (answer d ack) (answer_wire d ack) (answer_lem d ack) in
    let c = record d { rx = fresh_rx d; tx = tx } in
    let (e, err, r, t) = write_to_net-SendsBy c (answer_wire d ack) wire in
    let (fine, left) = t.sure quiet in
    let sent : write_to_net c ≡ ret (e, none) = r ∙ ap (λ x. ret (e, x)) fine in
    let place : e.rx ≡ fresh_rx d = ap (λ (x : Conn). x.rx) t.same in
    (
      e,
      rw (made, sent)
          (ap (λ (x : Conn). ret (e, if x.is_client then none else some State.read)) t.same),
      record {
        same =
            t.same
            ∙ ap₂ (λ rx w. record d { rx = rx; tx = e.tx; sent = e.sent; write_results = w })
                (sym place) left.0;
        works = left;
        room = ap (λ (x : Datagram). length x.buf) place ∙ length-fresh_rx d small;
        trace = t.trace fine;
      },
    )

-- A connection that nothing is settled of.
abbrev pub unsettled : Conn
unsettled = new_conn [] [] [] 0

-- A receiver before its options are settled, in a mode other than netascii.
pub record IsFresh (c : Conn) : Type 0 where
  pub multi : c.single_port ≡ false
  pub binary : bytes_eq c.mode mode_netascii ≡ false
  pub works : WritesWork c
  pub patient : c.tries < c.retransmit
  pub numbered : c.block < 65536
  pub going : c.done ≡ false
  pub no_error : c.err ≡ none
  pub reads : c.is_sender ≡ false
  pub at_default : c ≡ settled c unsettled

-- What the set-up keeps, and what it leaves.
pub record IsReady (c : Conn) (blksize : ℕ) (ack : Options) (e : Conn) : Type 0 where
  pub waiting : IsWaiting e
  pub left : e.arrivals ≡ c.arrivals
  pub size : e.blksize ≡ blksize
  pub place : e.block ≡ c.block
  pub got : e.rx_buf ≡ c.rx_buf
  pub trace : e.sent ≡ c.sent ++ (c.remote_addr, answer_wire c ack) ∷ []

ready :
    (c d : Conn) (ack : Options) (e : Conn)
    → IsFresh c
    → d.blksize < 65532
    → d ≡ settled (record c { reader = plain_source }) d
    → d.options_parsed ≡ true
    → Answers d ack e
    → IsReady c d.blksize ack e
ready c d ack e h small kept over a = record {
  waiting = record {
    receiving = record {
      multi = ap (λ (x : Conn). x.single_port) same ∙ h.multi;
      plain = ap (λ (x : Conn). x.reader) same;
      works = a.works;
      patient =
          omega (
            arith,
            ap (λ (x : Conn). x.tries) same,
            ap (λ (x : Conn). x.retransmit) same,
            h.patient,
          );
      numbered = omega (arith, ap (λ (x : Conn). x.block) same, h.numbered);
      room = omega (arith, a.room, ap (λ (x : Conn). x.blksize) a.same);
    };
    going = ap (λ (x : Conn). x.done) same ∙ h.going;
    no_error = ap (λ (x : Conn). x.err) same ∙ h.no_error;
    settled = ap (λ (x : Conn). x.options_parsed) a.same ∙ over;
  };
  left = ap (λ (x : Conn). x.arrivals) same;
  size = ap (λ (x : Conn). x.blksize) a.same;
  place = ap (λ (x : Conn). x.block) same;
  got = ap (λ (x : Conn). x.rx_buf) same;
  trace = a.trace ∙ ap (λ (x : Conn). x.sent ++ (x.remote_addr, answer_wire x ack) ∷ []) kept;
}
  where
    same : e ≡ record c {
      reader = plain_source;
      blksize = d.blksize;
      timeout = d.timeout;
      windowsize = d.windowsize;
      tsize = d.tsize;
      options_parsed = d.options_parsed;
      rx = e.rx;
      tx = e.tx;
      sent = e.sent;
      write_results = [];
    }
    same =
        a.same
        ∙ ap (λ (x : Conn). record x { rx = e.rx; tx = e.tx; sent = e.sent; write_results = [] })
            kept

has_time-positive : (a b : ℕ) → 0 < a → 0 < b → ltb 0 (a * b) ≡ true
has_time-positive a b h k = let p : 0 < a * b = grind arith in ground arith

-- `readSetup`, on options that are accepted, answers them with one packet and leaves a receiver that
-- waits for the file; a client goes no further then.
pub read_setup_lem :
    (c : Conn) (m : Options) (d : Conn) (ack : Options)
    → IsFresh c
    → options c.rx ≡ ret m
    → apply_options unsettled [] (c.order m) ≡ parsed d ack
    → 0 < d.timeout
    → d.blksize < 65532
    → (e : Conn) × (read_setup c ≡ ret (e, if c.is_client then none else some State.read))
      × IsReady c d.blksize ack e
unfolding read_setup parse_options
read_setup_lem c m d ack h read accepted timed small =
    let from = record c { reader = plain_source } in
    let same : from ≡ settled from unsettled =
      ap (λ (x : Conn). record x { reader = plain_source }) h.at_default in
    let there : apply_options from [] (c.order m) ≡ parsed (settled from d) ack =
      ap (λ (x : Conn). apply_options x [] (c.order m)) same
      ∙ apply_options-frame (c.order m) unsettled from [] h.reads
      ∙ ap (regraft from) accepted in
    let over : d.options_parsed ≡ true =
      subst IsSettled accepted (apply_options-IsSettled (c.order m) unsettled []) in
    let (e, r, a) =
      set_up-Answers (settled from d) ack
        (h.works.0, has_time-positive d.timeout c.retransmit timed (omega (arith, h.patient)))
        small in
    (e, rw (h.binary, read, there) r, ready c (settled from d) ack e h small refl over a)

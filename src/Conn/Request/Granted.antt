-- ===== src/Conn/Request/Granted.antt =====
-- A read request that the server grants by an OACK.
use trivialt.Prelude.{
  ℕ, suc, ◌+◌, ◌≤◌, ◌<◌, [], ◌∷◌, ◌++◌, List, ret, Option, none, some, Bool, true, false, leb,
  length, drop, min, take-all, ◌≡◌, refl, ap, ap₂, ◌∙◌, arith,
}
use trivialt.Prelude.Bytes.{Bytes}
use trivialt.Datagram.{Datagram, Options}
use trivialt.Datagram.Write.Wire.{oack_wire}
use trivialt.Datagram.Message.{option_ack, IsSendable}
use trivialt.Datagram.Message.Grant.{opcode-oack_wire, validate-oack_wire, options-oack_wire}
use trivialt.Datagram.Write.{bytes}
use trivialt.Conn.{WritesWork, Conn, State, Arrival, packet}
use trivialt.Conn.Negotiate.{parsed, apply_options}
use trivialt.Conn.Receive.Setup.{unsettled, IsFresh, IsReady, read_setup_lem}
use trivialt.Conn.Run.{step, run}
use trivialt.Conn.Net.{read_from_net, write_to_net, fill_rx}
use trivialt.Datagram.Read.{opcode, validate}
use trivialt.Conn.Request.{send_request, receive_response, take_response, handle_rrq_response}

-- The buffer with the OACK.
abbrev pub oack_rx : Datagram → Options → Datagram
oack_rx rx m = record {
  buf = oack_wire m ++ drop (length (oack_wire m)) rx.buf;
  offset = length (oack_wire m);
}

fill_rx-oack :
    (rx : Datagram) (m : Options)
    → length (oack_wire m) ≤ length rx.buf
    → fill_rx rx (oack_wire m) ≡ oack_rx rx m
fill_rx-oack rx m h =
    let fits : min (length (oack_wire m)) (length rx.buf) ≡ length (oack_wire m) = omega arith in
    rw fits (
      ap
        (λ (x : Bytes). record {
          buf = x ++ drop (length (oack_wire m)) rx.buf;
          offset = length (oack_wire m);
        })
        (take-all (length (oack_wire m)) (oack_wire m) (omega arith)))

-- The connection of the client once the OACK came: its sender is the peer from then on.
abbrev pub granted : Conn → ℕ → Options → List Arrival → Conn
granted c peer m rest = record c {
  arrivals = rest;
  rx = oack_rx c.rx m;
  remote_addr = peer;
  tries = 0;
}

net_gives :
    (c : Conn) (peer : ℕ) (m : Options) (rest : List Arrival)
    → c.arrivals ≡ packet peer (oack_wire m) ∷ rest
    → c.single_port ≡ false
    → length (oack_wire m) ≤ length c.rx.buf
    → read_from_net (record c { tries = c.tries + 1 })
      ≡ (record c { arrivals = rest; tries = c.tries + 1; rx = oack_rx c.rx m }, some peer, none)
unfolding read_from_net
net_gives c peer m rest h multi fits = rw (h, multi, fill_rx-oack c.rx m fits) refl

taken :
    (c d : Conn) (peer : ℕ)
    → leb c.retransmit c.tries ≡ false
    → read_from_net (record c { tries = c.tries + 1 }) ≡ (d, some peer, none)
    → receive_response c ≡ take_response d (some peer)
unfolding receive_response
taken c d peer under r =
    let got : (read_from_net (record c { tries = c.tries + 1 })).0 ≡ d = ap (λ x. x.0) r in
    let whom : (read_from_net (record c { tries = c.tries + 1 })).1 ≡ some peer = ap (λ x. x.1) r in
    let good : (read_from_net (record c { tries = c.tries + 1 })).2 ≡ none = ap (λ x. x.2) r in
    rw (under, good) (ap₂ take_response got whom)

take_response-valid :
    (d : Conn) (peer : ℕ)
    → validate d.rx ≡ ret none
    → d.single_port ≡ false
    → d.is_sender ≡ false
    → take_response d (some peer)
      ≡ ret (record d { remote_addr = peer; tries = 0 }, some State.handle_rrq_response)
unfolding take_response
take_response-valid d peer valid multi reads = rw (valid, multi, reads) refl

pub receive_response-oack :
    (c : Conn) (peer : ℕ) (m : Options) (rest : List Arrival)
    → c.arrivals ≡ packet peer (oack_wire m) ∷ rest
    → c.single_port ≡ false
    → c.is_sender ≡ false
    → c.tries < c.retransmit
    → length (oack_wire m) ≤ length c.rx.buf
    → IsSendable (option_ack m)
    → receive_response c ≡ ret (granted c peer m rest, some State.handle_rrq_response)
receive_response-oack c peer m rest h multi reads patient fits sendable =
    let under : leb c.retransmit c.tries ≡ false = ground arith in
    let d = record c { arrivals = rest; tries = c.tries + 1; rx = oack_rx c.rx m } in
    taken c d peer under (net_gives c peer m rest h multi fits)
    ∙ take_response-valid d peer
        (validate-oack_wire m (drop (length (oack_wire m)) c.rx.buf) sendable) multi reads

pub handle_rrq_response-oack :
    (c : Conn) (m : Options) (old : Bytes)
    → c.rx ≡ record { buf = oack_wire m ++ old; offset = length (oack_wire m) }
    → IsSendable (option_ack m)
    → handle_rrq_response c ≡ ret (c, some State.read_setup)
unfolding handle_rrq_response
handle_rrq_response-oack c m old e sendable =
    rw (ap opcode e ∙ opcode-oack_wire m old sendable) refl

-- The connection that sent its request.
abbrev pub asked : Conn → Bytes → Conn
asked c b = record c { is_client = true; sent = c.sent ++ (c.remote_addr, b) ∷ [] }

pub send_request-quiet :
    (c : Conn) (b : Bytes)
    → bytes c.tx ≡ ret b
    → WritesWork c
    → send_request c ≡ ret (asked c b, some State.receive_response)
unfolding send_request write_to_net
send_request-quiet c b h w =
    rw (h, w.1, w.0)
      (ap (λ rs. ret (record (asked c b) { write_results = rs }, some State.receive_response)) w.0)

pub run-step :
    (windows : Bool) (f : ℕ) (s : State) (c d : Conn) (next : Option State)
    → step windows s c ≡ ret (d, next)
    → run windows (suc f) c (some s) ≡ run windows f d next
unfolding run
run-step windows f s c d next h = rw h refl

pub run-end : (windows : Bool) (f : ℕ) (c : Conn) → run windows f c none ≡ ret (some c)
unfolding run
run-end windows f c = refl

granted-IsFresh :
    (c : Conn) (b : Bytes) (peer : ℕ) (m : Options) (rest : List Arrival)
    → IsFresh c
    → IsFresh (granted (asked c b) peer m rest)
granted-IsFresh c b peer m rest h = record {
  multi = h.multi;
  binary = h.binary;
  works = h.works;
  patient = omega (arith, h.patient);
  numbered = h.numbered;
  going = h.going;
  no_error = h.no_error;
  reads = h.reads;
  at_default =
      ap
        (λ (x : Conn). record x {
          is_client = true;
          sent = c.sent ++ (c.remote_addr, b) ∷ [];
          arrivals = rest;
          rx = oack_rx c.rx m;
          remote_addr = peer;
          tries = 0;
        })
        h.at_default;
}

-- A read request that is granted by an OACK whose options are accepted: four state functions lead to a
-- receiver that waits for the file.
pub request-granted :
    (windows : Bool) (c : Conn) (b : Bytes) (peer : ℕ) (m : Options) (rest : List Arrival)
    (d : Conn) (ack : Options)
    → bytes c.tx ≡ ret b
    → IsFresh c
    → c.arrivals ≡ packet peer (oack_wire m) ∷ rest
    → length (oack_wire m) ≤ length c.rx.buf
    → IsSendable (option_ack m)
    → apply_options unsettled [] (c.order m) ≡ parsed d ack
    → 0 < d.timeout
    → d.blksize < 65532
    → (e : Conn) × (run windows 4 c (some State.send_request) ≡ ret (some e))
      × IsReady (granted (asked c b) peer m rest) d.blksize ack e
unfolding step
request-granted windows c b peer m rest d ack wire h arrives fits sendable accepts timed small =
    let g = granted (asked c b) peer m rest in
    let old = drop (length (oack_wire m)) c.rx.buf in
    let first = send_request-quiet c b wire h.works in
    let second =
      receive_response-oack (asked c b) peer m rest arrives h.multi h.reads h.patient fits
        sendable in
    let third = handle_rrq_response-oack g m old refl sendable in
    let (e, fourth, ready) =
      read_setup_lem g m d ack (granted-IsFresh c b peer m rest h)
        (options-oack_wire m old sendable) accepts timed small in
    (
      e,
      run-step windows 3 State.send_request c (asked c b) (some State.receive_response) first
          ∙ run-step windows 2 State.receive_response (asked c b) g (some State.handle_rrq_response)
              second
          ∙ run-step windows 1 State.handle_rrq_response g g (some State.read_setup) third
          ∙ run-step windows 0 State.read_setup g e none fourth
          ∙ run-end windows 0 e,
      ready,
    )

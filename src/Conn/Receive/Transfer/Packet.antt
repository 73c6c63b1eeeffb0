-- ===== src/Conn/Receive/Transfer/Packet.antt =====
-- `readData` on a DATA that arrives.
use trivialt.Prelude.{
  ℕ, ◌+◌, ◌-◌, ◌≤◌, ◌<◌, ◌∷◌, ◌++◌, List, ret, Option, none, some, false, leb, length, drop, min,
  take-all, take-exact, length-append, ◌≡◌, refl, ap, ◌∙◌, arith,
}
use trivialt.Prelude.Bytes.{Bytes, slice-ok, put_uint16}
use trivialt.Datagram.{Datagram, op_data}
use trivialt.Datagram.Read.{validate, validate_fields, is_request, opcode, block, content}
use trivialt.Datagram.Read.Fields.{opcode-wire, block-wire}
use trivialt.Datagram.Write.Wire.{data_wire}
use trivialt.Conn.{Conn, State, Arrival, packet}
use trivialt.Conn.Net.{read_from_net, fill_rx}
use trivialt.Conn.Receive.{read_data, check_data}

-- A DATA at the start of a buffer that is longer.
abbrev pub arrived : ℕ → Bytes → Bytes → Datagram
arrived n b old = record { buf = data_wire n b ++ old; offset = length (data_wire n b) }

opcode-arrived : (n : ℕ) (b old : Bytes) → opcode (arrived n b old) ≡ ret op_data
opcode-arrived n b old =
    opcode-wire (arrived n b old) op_data 0 (put_uint16 n ++ (b ++ old)) refl (omega arith)

pub block-arrived : (n : ℕ) (b old : Bytes) → n < 65536 → block (arrived n b old) ≡ ret n
block-arrived n b old h = block-wire (arrived n b old) op_data n (b ++ old) refl h

pub content-arrived : (n : ℕ) (b old : Bytes) → content (arrived n b old) ≡ ret b
unfolding content
content-arrived n b old =
    rw
      (slice-ok (data_wire n b ++ old) 4 (length (data_wire n b)) (omega arith)
        (omega (arith, length-append b old)))
      (ap ret (take-exact (length (data_wire n b) - 4) b old (omega arith)))

validate-arrived : (n : ℕ) (b old : Bytes) → validate (arrived n b old) ≡ ret none
unfolding validate validate_fields is_request
validate-arrived n b old = rw (opcode-arrived n b old) (ground arith)

fill_rx-arrived :
    (rx : Datagram) (n : ℕ) (b : Bytes)
    → length b + 4 ≤ length rx.buf
    → fill_rx rx (data_wire n b) ≡ arrived n b (drop (length (data_wire n b)) rx.buf)
fill_rx-arrived rx n b h =
    let fits : min (length (data_wire n b)) (length rx.buf) ≡ length (data_wire n b) =
      omega arith in
    rw fits (
      ap
        (λ (x : Bytes). record {
          buf = x ++ drop (length (data_wire n b)) rx.buf;
          offset = length (data_wire n b);
        })
        (take-all (length (data_wire n b)) (data_wire n b) (omega arith)))

abbrev with_packet : Conn → List Arrival → ℕ → Bytes → Conn
with_packet c rest n b = record c {
  arrivals = rest;
  tries = c.tries + 1;
  rx = arrived n b (drop (length (data_wire n b)) c.rx.buf);
}

net_gives :
    (c : Conn) (addr n : ℕ) (b : Bytes) (rest : List Arrival)
    → c.arrivals ≡ packet addr (data_wire n b) ∷ rest
    → c.single_port ≡ false
    → length b + 4 ≤ length c.rx.buf
    → read_from_net (record c { tries = c.tries + 1 }) ≡ (with_packet c rest n b, some addr, none)
unfolding read_from_net
net_gives c addr n b rest h multi fits = rw (h, multi, fill_rx-arrived c.rx n b fits) refl

-- The connection that `ackData` gets.
abbrev pub given : Conn → List Arrival → ℕ → Bytes → Conn
given c rest n b = record (with_packet c rest n b) { tries = 0 }

check_data-arrived :
    (c : Conn) (n : ℕ) (b old : Bytes)
    → c.rx ≡ arrived n b old
    → check_data c ≡ ret (record c { tries = 0 }, some State.ack_data)
unfolding check_data
check_data-arrived c n b old e =
    let valid : validate c.rx ≡ ret none = ap validate e ∙ validate-arrived n b old in
    let is_data : opcode c.rx ≡ ret op_data = ap opcode e ∙ opcode-arrived n b old in
    rw (valid, is_data) refl

checked :
    (c d : Conn) (addr : Option ℕ)
    → leb c.retransmit c.tries ≡ false
    → read_from_net (record c { tries = c.tries + 1 }) ≡ (d, addr, none)
    → read_data c ≡ check_data d
unfolding read_data
checked c d addr under r =
    let got : (read_from_net (record c { tries = c.tries + 1 })).0 ≡ d = ap (λ x. x.0) r in
    let good : (read_from_net (record c { tries = c.tries + 1 })).2 ≡ none = ap (λ x. x.2) r in
    rw (under, good) (ap check_data got)

pub read_data-packet :
    (c : Conn) (addr n : ℕ) (b : Bytes) (rest : List Arrival)
    → c.arrivals ≡ packet addr (data_wire n b) ∷ rest
    → c.single_port ≡ false
    → length b + 4 ≤ length c.rx.buf
    → c.tries < c.retransmit
    → read_data c ≡ ret (given c rest n b, some State.ack_data)
read_data-packet c addr n b rest h multi fits more =
    let under : leb c.retransmit c.tries ≡ false = ground arith in
    checked c (with_packet c rest n b) (some addr) under (net_gives c addr n b rest h multi fits)
    ∙ check_data-arrived (with_packet c rest n b) n b (drop (length (data_wire n b)) c.rx.buf) refl

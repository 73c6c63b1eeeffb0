-- ===== src/Tests/Transfers.antt =====
-- Concrete connections: a receiver at block 1, and a sender that sent the blocks 1 and 2.
use trivialt.Prelude.{
  ℕ, List, ◌+◌, ◌%◌, [], ◌∷◌, ◌++◌, ret, get_elem?, Option, some, false, ◌≡◌, ◌≢◌, refl, arith,
  replicate, take,
}
use trivialt.Prelude.Bytes.{Bytes, slice, uint16}
use trivialt.Datagram.{mode_octet, op_data}
use trivialt.Datagram.Write.{set_bytes}
use trivialt.Datagram.Read.{block, content, opcode}
use trivialt.Datagram.Write.Wire.{ack_wire, data_wire}
use trivialt.Errors.{sentinel, eof, max_retries, tftp_error}
use trivialt.Ring.{Ring}
use trivialt.Conn.{Conn, State, packet, plain_source, new_conn}
use trivialt.Conn.Net.Silence.{IsSilent, farewell}
use trivialt.Conn.Receive.{ack_data}
use trivialt.Conn.Receive.InOrder.{Takes, Keeps, ack_data_lem}
use trivialt.Conn.Receive.Transfer.File.{IsReceiving, packets}
use trivialt.Conn.Receive.Transfer.Whole.{run_receives}
use trivialt.Conn.Receive.Retries.{read_data_gives_up}
use trivialt.Conn.Send.{send_block}
use trivialt.Conn.Send.Rollback.{IsTraced, numbered, send_block-IsTraced}
use trivialt.Conn.Send.Rollback.Resend.{get_ack_resends}
use trivialt.Conn.Send.Transfer.Round.{datas}
use trivialt.Conn.Send.Waits.{get_ack_gives_up}
use trivialt.Conn.Run.{run}
use trivialt.Tests.Rings.{two_slots, chunks, two_slots-Holds}

-- A DATA with block 2 and one byte.
abbrev receiver : Conn
receiver = record (new_conn [] [] mode_octet 7) {
  block = 1;
  rx = set_bytes (0 ∷ 3 ∷ 0 ∷ 2 ∷ 9 ∷ []);
}

ack_data_lem_example :
    (c : Conn) × (next : Option State) × (ack_data receiver ≡ ret (c, next))
    × (2 ≡ (1 + 1) % 65536 → Takes receiver c 2 (9 ∷ []))
    × (2 ≢ (1 + 1) % 65536 → Keeps receiver c)
ack_data_lem_example =
    ack_data_lem receiver 2 (9 ∷ []) (unfold block slice uint16 in refl)
      (unfold content slice in refl) (omega arith) (omega arith)

silent : IsSilent receiver
silent = record { none_left = refl; all_written = (refl, refl) }

read_data_gives_up_example :
    (d : Conn) × (run false 11 receiver (some State.read_data) ≡ ret (some d))
    × (d.err ≡ some (tftp_error (sentinel max_retries) "reading data"))
    × (d.rx_buf ≡ [])
    × (d.sent ≡ replicate 10 (7, ack_wire 1) ++ farewell receiver ∷ [])
read_data_gives_up_example = read_data_gives_up false 10 receiver silent refl

get_ack_gives_up_example :
    (d : Conn) × (run false 11 receiver (some State.get_ack) ≡ ret (some d))
    × (d.err ≡ some (tftp_error (sentinel max_retries) "reading ack"))
    × (d.block ≡ 1)
    × (d.sent ≡ farewell receiver ∷ [])
get_ack_gives_up_example = get_ack_gives_up false 10 receiver silent refl

-- Blocks 1 and 2 were sent, and the ACK of block 1 arrives again.
abbrev sent_before : List (ℕ × Bytes)
sent_before = datas 7 (numbered 0 chunks)

abbrev sender : Conn
sender = record (new_conn (packet 7 (ack_wire 1) ∷ []) [] mode_octet 7) {
  block = 2;
  blksize = 2;
  windowsize = 2;
  buf = 0 ∷ 0 ∷ [];
  tx_buf = some two_slots;
  tx = set_bytes (0 ∷ 3 ∷ 0 ∷ 2 ∷ 3 ∷ 4 ∷ []);
  sent = sent_before;
}

sender-IsTraced : IsTraced sender two_slots chunks 0 []
sender-IsTraced = record {
  ring = refl;
  holds = two_slots-Holds;
  fills = refl;
  size = refl;
  place = refl;
  trace = refl;
}

send_block-IsTraced_example :
    (c : Conn) × (next : Option State) × (r : Ring) × (send_block sender two_slots ≡ ret (c, next))
    × IsTraced c r (chunks ++ (7 ∷ 8 ∷ []) ∷ []) 0 []
    × (opcode c.tx ≡ ret op_data)
send_block-IsTraced_example =
    send_block-IsTraced sender two_slots chunks 0 [] sender-IsTraced (omega arith) (refl, refl)

get_ack_resends_example :
    (get_elem? sender.sent 1 ≡ some (7, data_wire 2 (3 ∷ 4 ∷ [])))
    × ((c : Conn) × (next : Option State) × (run false 2 sender (some State.get_ack)
          ≡ run false 0 c next)
        × (c.sent ≡ sent_before ++ (7, data_wire 2 (3 ∷ 4 ∷ [])) ∷ [])
        × (c.block ≡ 2))
get_ack_resends_example =
    get_ack_resends false 0 sender two_slots chunks 0 1 [] [] sender-IsTraced
      (unfold opcode slice uint16 in refl) (refl, refl) refl (omega arith) (omega arith)
      (omega arith) (omega arith) (omega arith) (omega arith) refl

-- Block 1 arrives twice, and the second block ends the file.
abbrev pub blocks : List (ℕ × Bytes)
blocks = (1, 7 ∷ 8 ∷ []) ∷ (1, 7 ∷ 8 ∷ []) ∷ (2, 9 ∷ []) ∷ []

abbrev pub reader : Conn
reader = record (new_conn (packets 7 blocks) [] mode_octet 7) {
  blksize = 2;
  rx = set_bytes (replicate 6 0);
  reader = plain_source;
  p = replicate 4 0;
}

reader-IsReceiving : IsReceiving reader
reader-IsReceiving = record {
  multi = refl;
  plain = refl;
  works = (refl, refl);
  patient = omega arith;
  numbered = omega arith;
  room = omega arith;
}

run_receives_example :
    (d : Conn) × (run false 10 reader (some State.read) ≡ ret (some d))
    × (d.n ≡ 3)
    × (take 3 d.p ≡ 7 ∷ 8 ∷ 9 ∷ [])
    × (d.err ≡ some (sentinel eof))
run_receives_example =
    run_receives false 7 blocks reader (7 ∷ 8 ∷ 9 ∷ []) reader-IsReceiving refl refl (omega arith)
      refl (omega arith)

-- ===== src/Tests/Together.antt =====
-- A concrete sender, and a receiver of what it sends: the bytes 7, 8 and 9 in the blocks 3 and 4.
use trivialt.Prelude.{
  ℕ, List, [], ◌∷◌, ret, none, some, true, false, ◌≡◌, refl, arith, replicate, take,
}
use trivialt.Prelude.Bytes.{Bytes}
use trivialt.Datagram.{mode_octet}
use trivialt.Datagram.Write.{set_bytes}
use trivialt.Errors.{sentinel, eof}
use trivialt.Conn.{Conn, State, plain_source, plain_target, new_conn}
use trivialt.Conn.Run.{run, close}
use trivialt.Conn.Send.Transfer.Closing.{close_lem}
use trivialt.Conn.Send.Transfer.Filling.{IsOpen}
use trivialt.Conn.Send.Transfer.Copied.{pieces, copy_out-close}
use trivialt.Copy.{copy_out}
use trivialt.Ring.{Ring}
use trivialt.Ring.Refine.{Holds}
use trivialt.Conn.Send.Transfer.Round.{IsSending, acks, datas}
use trivialt.Conn.Send.Transfer.Whole.{run_sends}
use trivialt.Conn.Receive.Transfer.File.{IsReceiving, packets}
use trivialt.Conn.Together.{file_arrives}
use trivialt.Tests.Rings.{two_slots, chunks, two_slots-Holds}

abbrev blocks : List (ℕ × Bytes)
blocks = (3, 7 ∷ 8 ∷ []) ∷ (4, 9 ∷ []) ∷ []

abbrev sender : Conn
sender = record (new_conn (acks 5 blocks) [] mode_octet 5) {
  block = 2;
  blksize = 2;
  buf = 0 ∷ 0 ∷ [];
  tx_buf = some two_slots;
  closing = true;
  options_parsed = true;
  writer = plain_target;
}

sender-IsSending : IsSending sender two_slots chunks
sender-IsSending = record {
  ring = refl;
  holds = two_slots-Holds;
  fills = refl;
  size = refl;
  small = omega arith;
  closing = refl;
  lockstep = refl;
  fresh = refl;
  multi = refl;
  works = (refl, refl);
  patient = omega arith;
  room = omega arith;
}

run_sends_example :
    (d : Conn) × (run false 5 sender (some State.write_data) ≡ ret (some d))
    × (d.sent ≡ datas 5 blocks)
    × (d.err ≡ sender.err)
    × (d.done ≡ true)
run_sends_example =
    run_sends false 1 sender two_slots chunks sender-IsSending refl (omega arith) (omega arith) refl

-- The same sender before it closes.
abbrev open_sender : Conn
open_sender = record sender { closing = false }

close_lem_example :
    (d : Conn) × (close false 7 open_sender none ≡ ret (some (d, none)))
    × (d.sent ≡ datas 5 blocks)
    × (d.net_closed ≡ true)
close_lem_example =
    close_lem false 1 open_sender two_slots chunks none sender-IsSending refl refl refl refl
      (omega arith) (omega arith) refl

-- A sender whose ring is empty, with the ACKs of the bytes 7, 8 and 9 to come; they are copied in two
-- pieces.
abbrev empty_ring : Ring
empty_ring = record two_slots { unread = [] }

empty_ring-Holds : Holds empty_ring chunks 2
empty_ring-Holds =
    let v = two_slots-Holds in
    record {
      sized = v.sized;
      slotted = v.slotted;
      room = v.room;
      lens = v.lens;
      place = v.place;
      top = v.top;
      behind = v.behind;
      kept = λ i a b.
          let k = v.kept i a b in record { used = k.used; bytes = k.bytes; small = k.small };
    }

abbrev waiting_sender : Conn
waiting_sender = record open_sender { tx_buf = some empty_ring }

waiting_sender-IsOpen : IsOpen waiting_sender empty_ring chunks
waiting_sender-IsOpen = record {
  sending = record {
    ring = refl;
    holds = empty_ring-Holds;
    fills = refl;
    size = refl;
    small = omega arith;
    closing = refl;
    lockstep = refl;
    fresh = refl;
    multi = refl;
    works = (refl, refl);
    patient = omega arith;
    room = omega arith;
  };
  opened = refl;
  going = refl;
  good = refl;
  settled = refl;
  plain = refl;
}

copy_out-close_example :
    (d : Conn) × (e : Conn) × (copy_out false 7 waiting_sender
        (pieces ((7 ∷ []) ∷ (8 ∷ 9 ∷ []) ∷ []))
      ≡ ret (some (d, none)))
    × (close false 7 d none ≡ ret (some (e, none)))
    × (e.sent ≡ datas 5 blocks)
    × (e.net_closed ≡ true)
copy_out-close_example =
    copy_out-close false ((7 ∷ []) ∷ (8 ∷ 9 ∷ []) ∷ []) 1 waiting_sender empty_ring chunks none
      waiting_sender-IsOpen (omega arith) (omega arith) (omega arith) refl

abbrev receiver : Conn
receiver = record (new_conn (packets 7 blocks) [] mode_octet 7) {
  block = 2;
  blksize = 2;
  rx = set_bytes (replicate 6 0);
  reader = plain_source;
  p = replicate 4 0;
}

receiver-IsReceiving : IsReceiving receiver
receiver-IsReceiving = record {
  multi = refl;
  plain = refl;
  works = (refl, refl);
  patient = omega arith;
  numbered = omega arith;
  room = omega arith;
}

file_arrives_example :
    ((d : Conn) × (e : Conn) × (copy_out false 7 waiting_sender
          (pieces ((7 ∷ []) ∷ (8 ∷ 9 ∷ []) ∷ []))
        ≡ ret (some (d, none)))
      × (close false 7 d none ≡ ret (some (e, none)))
      × (e.sent ≡ datas 5 blocks))
    × ((q : Conn) × (run false 7 receiver (some State.read) ≡ ret (some q))
        × (q.n ≡ 3)
        × (take 3 q.p ≡ 7 ∷ 8 ∷ 9 ∷ [])
        × (q.err ≡ some (sentinel eof)))
file_arrives_example =
    file_arrives false ((7 ∷ []) ∷ (8 ∷ 9 ∷ []) ∷ []) 1 7 waiting_sender receiver empty_ring chunks
      none waiting_sender-IsOpen refl (omega arith) (omega arith) refl receiver-IsReceiving refl
      refl refl refl (omega arith) refl

-- ===== src/Conn/Receive/Transfer/File.antt =====
-- What packets carry, and what one of them makes of the receiver.
use native.Mathlib.Decide.{ℕ_discrete}
use trivialt.Prelude.{
  ℕ, ◌+◌, ◌%◌, ◌≤◌, ◌<◌, [], ◌∷◌, ◌++◌, List, ret, Option, none, some, true, false, ltb, ◌==◌, ◌||◌,
  if◌then◌else◌, All, length, drop, length-append, length-drop, ◌≡◌, ◌≢◌, ap, ◌∙◌, arith,
}
use trivialt.Prelude.Bytes.{Bytes}
use trivialt.Datagram.Write.Wire.{data_wire}
use trivialt.Conn.{WritesWork, Conn, State, Arrival, packet, plain_source}
use trivialt.Conn.Receive.{ack_data}
use trivialt.Conn.Receive.InOrder.{ack_data_next}
use trivialt.Conn.Receive.Transfer.Packet.{arrived, given, block-arrived, content-arrived}

-- A receiver of plain bytes with a socket of its own, whose buffer holds a block and whose writes
-- succeed.
pub record IsReceiving (c : Conn) : Type 0 where
  pub multi : c.single_port ≡ false
  pub plain : c.reader ≡ plain_source
  pub works : WritesWork c
  pub patient : c.tries < c.retransmit
  pub numbered : c.block < 65536
  pub room : c.blksize + 4 ≤ length c.rx.buf

-- A receiver that has settled its options and waits for the blocks of a file.
pub record IsWaiting (c : Conn) : Type 0 where
  pub receiving : IsReceiving c
  pub going : c.done ≡ false
  pub no_error : c.err ≡ none
  pub settled : c.options_parsed ≡ true

-- The packets of the peer.
abbrev pub packets : ℕ → List (ℕ × Bytes) → List Arrival
packets addr [] = []
packets addr ((n, b) ∷ xs) = packet addr (data_wire n b) ∷ packets addr xs

-- The file that the packets carry for one who has `got` and waits for the block behind `last`: each
-- block counts once, in its turn, and the first that is short is the end.
abbrev pub file_of : ℕ → ℕ → Bytes → List (ℕ × Bytes) → Option Bytes
file_of size last got [] = none
file_of size last got ((n, b) ∷ xs) =
    let taken = if ltb (length b) size then some (got ++ b) else file_of size n (got ++ b) xs in
    let ignored = file_of size last got xs in if n == (last + 1) % 65536 then taken else ignored

-- Numbers of 16 bits, and no more bytes than a block has.
abbrev pub AreBlocks : ℕ → List (ℕ × Bytes) → Type 0
AreBlocks size = All (λ x. (x.0 < 65536) × (length x.1 ≤ size))

pub file_of-length :
    (size last : ℕ) (got file : Bytes) (xs : List (ℕ × Bytes))
    → file_of size last got xs ≡ some file
    → length got ≤ length file
file_of-length size last got file [] e = absurd (nothing e)
  where
    nothing : none ≢ some file
    nothing e = cc
file_of-length size last got file ((n, b) ∷ xs) e = ground (
  arith,
  length-append got b,
  file_of-length size n (got ++ b) file xs,
  file_of-length size last got file xs,
)

-- What one packet makes of the receiver.
pub record Received (c d : Conn) (n : ℕ) (b : Bytes) (rest : List Arrival) : Type 0 where
  pub receiving : IsReceiving d
  pub left : d.arrivals ≡ rest
  pub target : d.p ≡ c.p
  pub size : d.blksize ≡ c.blksize
  pub taken :
      n ≡ (c.block + 1) % 65536
      → (d.block ≡ n) × (d.rx_buf ≡ c.rx_buf ++ b) × (d.done ≡ (c.done || ltb (length b) c.blksize))
  pub ignored :
      n ≢ (c.block + 1) % 65536 → (d.block ≡ c.block) × (d.rx_buf ≡ c.rx_buf) × (d.done ≡ c.done)

pub acknowledged :
    (c : Conn) (n : ℕ) (b : Bytes) (rest : List Arrival)
    → IsReceiving c
    → n < 65536
    → length b ≤ c.blksize
    → (d : Conn) × (ack_data (given c rest n b) ≡ ret (d, some State.read)) × Received c d n b rest
acknowledged c n b rest h small fits =
    let g = given c rest n b in
    let old = drop (length (data_wire n b)) c.rx.buf in
    let (d, next, r, takes, keeps, smooth) =
      ack_data_next g n b (block-arrived n b old small) (content-arrived n b old) small
        h.numbered in
    let on = smooth h.works in
    let s = on.same in
    let whole : length (arrived n b old).buf ≡ length c.rx.buf =
      omega (arith, h.room, length-append b old, length-drop (length (data_wire n b)) c.rx.buf) in
    let number : d.block < 65536 = elim (ℕ_discrete n ((c.block + 1) % 65536)) [
      | yes e ↦ omega (arith, (takes e).place)
      | no ne ↦ omega (arith, (keeps ne).place, h.numbered)
    ] in
    (
      d,
      r ∙ ap (λ x. ret (d, x)) on.on,
      record {
        receiving = record {
          multi = ap (λ (x : Conn). x.single_port) s ∙ h.multi;
          plain = ap (λ (x : Conn). x.reader) s ∙ h.plain;
          works = on.works;
          patient =
              omega
                (arith, h.patient, ap (λ (x : Conn). x.tries) s, ap (λ (x : Conn). x.retransmit) s);
          numbered = number;
          room = omega (
            arith,
            h.room,
            whole,
            ap (λ (x : Conn). length x.rx.buf) s,
            ap (λ (x : Conn). x.blksize) s,
          );
        };
        left = ap (λ (x : Conn). x.arrivals) s;
        target = ap (λ (x : Conn). x.p) s;
        size = ap (λ (x : Conn). x.blksize) s;
        taken = λ e. ((takes e).place, (takes e).data_kept, (takes e).ends);
        ignored = λ ne. ((keeps ne).place, (keeps ne).data_kept, (keeps ne).ends);
      },
    )

-- ===== src/Conn/Together.antt =====
-- A sender and a receiver of conn.go together: what `Close` sends is the file that `Read` hands out.
use trivialt.Prelude.{
  ℕ, zero, suc, ◌+◌, ◌*◌, ◌%◌, ◌≤◌, ◌<◌, [], ◌∷◌, ◌++◌, Option, none, List, ret, some, Bool, true,
  false, ltb, ◌==◌, length, take, drop, length-take, length-drop, take-append_drop, append_assoc,
  ◌≡◌, refl, subst, sym, ap, ◌∙◌, arith,
}
use trivialt.Prelude.Bytes.{Bytes}
use trivialt.Errors.{Error, sentinel, eof}
use trivialt.Ring.{Ring}
use trivialt.Conn.{Conn, State, Arrival, packet}
use trivialt.Conn.Run.{run, close}
use trivialt.Conn.Send.Transfer.Round.{blocks_of, acks, datas}
use trivialt.Conn.Send.Transfer.Whole.{less, bounded}
use trivialt.Conn.Send.Transfer.Filling.{IsOpen}
use trivialt.Conn.Send.Transfer.Copied.{pieces, text_of, copy_out-close}
use trivialt.Copy.{copy_out}
use trivialt.Datagram.Write.Wire.{data_wire}
use trivialt.Conn.Receive.Transfer.File.{IsReceiving, packets, file_of, AreBlocks}
use trivialt.Conn.Receive.Transfer.Whole.{run_receives}

-- The blocks of a file carry the file.
file_of-blocks_of :
    (k size last : ℕ) (got u : Bytes)
    → k * size ≤ length u
    → length u < k * size + size
    → file_of size last got (blocks_of size k last u) ≡ some (got ++ u)
file_of-blocks_of zero size last got u least most =
    let turn : ((last + 1) % 65536 == (last + 1) % 65536) ≡ true = ground arith in
    let short : ltb (length u) size ≡ true = ground arith in rw (turn, short) refl
file_of-blocks_of (suc k) size last got u least most =
    let next = (last + 1) % 65536 in
    let enough : size ≤ length u = grind arith in
    let turn : (next == next) ≡ true = ground arith in
    let full : ltb (length (take size u)) size ≡ false = ground (arith, length-take size u) in
    let cut = length-drop size u in
    let rest =
      file_of-blocks_of k size next (got ++ take size u) (drop size u)
        (rw cut (less k size (length u) least)) (rw cut (bounded k size (length u) most enough)) in
    rw (turn, full)
      (rest
        ∙ ap some (
            append_assoc got (take size u) (drop size u)
            ∙ ap (λ x. got ++ x) (take-append_drop size u)))

blocks_of-AreBlocks :
    (k size last : ℕ) (u : Bytes)
    → length u < k * size + size
    → AreBlocks size (blocks_of size k last u)
blocks_of-AreBlocks zero size last u most = ((omega arith, omega arith), tt)
blocks_of-AreBlocks (suc k) size last u most =
    let cut = length-drop size u in
    let fewer : length (drop size u) < k * size + size = rw cut (grind arith) in
    (
      (omega arith, omega (arith, length-take size u)),
      blocks_of-AreBlocks k size ((last + 1) % 65536) (drop size u) fewer,
    )

length-blocks_of : (size k last : ℕ) (u : Bytes) → length (blocks_of size k last u) ≡ k + 1
length-blocks_of size zero last u = refl
length-blocks_of size (suc k) last u =
    omega (arith, length-blocks_of size k ((last + 1) % 65536) (drop size u))

-- What a network that loses nothing hands on of what was sent, from the address `addr`.
abbrev pub delivered : ℕ → List (ℕ × Bytes) → List Arrival
delivered addr [] = []
delivered addr ((to, b) ∷ sent) = packet addr b ∷ delivered addr sent

delivered-datas :
    (addr to : ℕ) (xs : List (ℕ × Bytes)) → delivered addr (datas to xs) ≡ packets addr xs
delivered-datas addr to [] = refl
delivered-datas addr to ((n, b) ∷ xs) =
    ap (λ l. packet addr (data_wire n b) ∷ l) (delivered-datas addr to xs)

-- A sender and a receiver of the same block size at the same block, over a network that hands the
-- receiver just what the sender sent. The sender has settled its options, does not encode, has a
-- window of one block and an empty ring; a source is copied into it, in whatever pieces its reads
-- give, and then it is closed; it gets the ACK of each block. The receiver reads plain bytes and
-- has received nothing yet. Both have a socket of their own and writes that succeed. Then the copy
-- and the close end without an error, each of their loops within two state functions for each full
-- block and five, and have sent some packets; and one loop of `Read` over these packets, into a
-- slice that is longer than the source, ends within three state functions for each full block and
-- four, and hands out the whole source, byte for byte, with EOF.
pub file_arrives :
    (windows : Bool) (bs : List Bytes) (t addr : ℕ) (s q : Conn) (r : Ring) (h : List Bytes)
    (net_error : Option Error)
    → IsOpen s r h
    → r.unread ≡ []
    → t * r.size ≤ length (text_of bs)
    → length (text_of bs) < t * r.size + r.size
    → s.arrivals ≡ acks s.remote_addr (blocks_of r.size t s.block (text_of bs))
    → IsReceiving q
    → q.done ≡ false
    → q.blksize ≡ r.size
    → q.block ≡ s.block
    → q.rx_buf ≡ []
    → length (text_of bs) < length q.p
    → q.arrivals ≡ delivered addr (datas s.remote_addr (blocks_of r.size t s.block (text_of bs)))
    → let sent = datas s.remote_addr (blocks_of r.size t s.block (text_of bs)) in
      ((d : Conn) × (e : Conn) × (copy_out windows (2 * t + 5) s (pieces bs) ≡ ret (some (d, none)))
        × (close windows (2 * t + 5) d net_error ≡ ret (some (e, none)))
        × (e.sent ≡ s.sent ++ sent))
      × ((q' : Conn) × (run windows (3 * t + 4) q (some State.read) ≡ ret (some q'))
          × (q'.n ≡ length (text_of bs))
          × (take (length (text_of bs)) q'.p ≡ text_of bs)
          × (q'.err ≡ some (sentinel eof)))
file_arrives windows bs t addr s q r h net_error opened nothing least most answers receiving waiting
      size place empty long arrives =
    let file = text_of bs in
    let xs = blocks_of r.size t s.block file in
    let same : r.unread ++ file ≡ file = ap (λ u. u ++ file) nothing in
    let sized : 0 < r.size = opened.sending.holds.sized in
    let (d, e, copied, closed, sent, shut) =
      copy_out-close windows bs t s r h net_error opened (omega (arith, ap length nothing))
        (rw same least) (rw same most) (rw same answers) in
    let whole : file_of q.blksize q.block q.rx_buf xs ≡ some file =
      ap (λ n. file_of n q.block q.rx_buf xs) size
      ∙ ap (λ n. file_of r.size n q.rx_buf xs) place
      ∙ ap (λ g. file_of r.size s.block g xs) empty
      ∙ file_of-blocks_of t r.size s.block [] file least most in
    let blocks =
      subst (λ n. AreBlocks n xs) (sym size) (blocks_of-AreBlocks t r.size s.block file most) in
    let (q', ran, counted, got, ended) =
      run_receives windows addr xs q file receiving waiting
        (arrives ∙ delivered-datas addr s.remote_addr xs) blocks whole long in
    let fuel : 3 * t + 4 ≡ suc (3 * length xs) =
      omega (arith, length-blocks_of r.size t s.block file) in
    (
      (d, e, copied, closed, rw same at sent),
      (q', ap (λ n. run windows n q (some State.read)) fuel ∙ ran, counted, got, ended),
    )

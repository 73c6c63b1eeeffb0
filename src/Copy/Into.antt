-- ===== src/Copy/Into.antt =====
-- What a copy of a connection leaves in a sink, over a network that repeats, drops and delays packets.
use trivialt.Prelude.{
  [], ◌∷◌, ◌≢◌, ==_refl, if◌then◌else◌, ℕ, suc, ◌*◌, ◌<◌, List, ret, Option, none, some, Bool, true,
  length, take, ◌≡◌, refl, ap, ap₂, ◌∙◌, if◌then◌else◌, arith, length-replicate,
}
use trivialt.Prelude.Bytes.{Bytes}
use trivialt.Errors.{Error, sentinel, eof}
use trivialt.Conn.{Conn, State}
use trivialt.Conn.Receive.{start_read}
use trivialt.Conn.Receive.Transfer.File.{IsReceiving, IsWaiting, packets, file_of, AreBlocks}
use trivialt.Conn.Receive.Transfer.Whole.{run_receives}
use trivialt.Conn.Run.{step, run, read}
use trivialt.Datagram.Write.{make}
use trivialt.Copy.{write_failure, copy_size, copy_in, move_in, copy_all_in}

given_buffer : (c : Conn) (p : Bytes) → IsReceiving c → IsReceiving (record c { n = 0; p = p })
given_buffer c p h = record {
  multi = h.multi;
  plain = h.plain;
  works = h.works;
  patient = h.patient;
  numbered = h.numbered;
  room = h.room;
}

-- The options are settled, so that the first state function goes on to `read`.
started :
    (windows : Bool) (f : ℕ) (c : Conn)
    → c.options_parsed ≡ true
    → run windows (suc f) c (some State.start_read) ≡ run windows f c (some State.read)
unfolding run step start_read
started windows f c h =
    ap (λ b. run windows f c (some (if b then State.read else State.read_setup))) h

read-started :
    (windows : Bool) (f : ℕ) (c d : Conn) (p : Bytes)
    → c.err ≡ none
    → run windows (suc f) (record c { n = 0; p = p }) (some State.start_read) ≡ ret (some d)
    → read windows (suc f) c p ≡ ret (some (d, (d.n, d.err)))
unfolding read
read-started windows f c d p h r = rw (h, rw h at r) refl

-- One `Read` with room for more than the file.
pub read-whole :
    (windows : Bool) (addr : ℕ) (xs : List (ℕ × Bytes)) (c : Conn) (file p : Bytes)
    → IsWaiting c
    → c.arrivals ≡ packets addr xs
    → AreBlocks c.blksize xs
    → file_of c.blksize c.block c.rx_buf xs ≡ some file
    → length file < length p
    → (d : Conn) × (read windows (suc (suc (3 * length xs))) c p
        ≡ ret (some (d, (length file, some (sentinel eof)))))
      × (take (length file) d.p ≡ file)
read-whole windows addr xs c file p h arrives blocks whole long =
    let c' = record c { n = 0; p = p } in
    let (d, r, counted, got, ended) =
      run_receives windows addr xs c' file (given_buffer c p h.receiving) h.going arrives blocks
        whole long in
    let first = started windows (suc (3 * length xs)) c' h.settled in
    let result = read-started windows (suc (3 * length xs)) c d p h.no_error (first ∙ r) in
    (d, result ∙ ap₂ (λ n e. ret (some (d, (n, e)))) counted ended, got)

-- What a sink makes of the whole file at once.
copied :
    {S : Type 0} (accept : S → Bytes → S × ℕ × Option Error) (windows : Bool) (fuel rounds : ℕ)
    (c d : Conn) (buf file : Bytes) (s s' : S)
    → read windows fuel c buf ≡ ret (some (d, (length file, some (sentinel eof))))
    → take (length file) d.p ≡ file
    → move_in accept s file ≡ (s', none)
    → copy_in windows fuel accept (suc rounds) c buf s ≡ ret (some (d, s', none))
unfolding copy_in
copied accept windows fuel rounds c d buf file s s' r got moved =
    let now : move_in accept s (take (length file) d.p) ≡ (s', none) =
      ap (move_in accept s) got ∙ moved in
    cc (r, now)

-- The copy of a waiting connection into a sink that takes the file, in one round.
pub copy_all_in-whole :
    {S : Type 0} (accept : S → Bytes → S × ℕ × Option Error) (windows : Bool) (rounds addr : ℕ)
    (xs : List (ℕ × Bytes)) (c : Conn) (file : Bytes) (s s' : S)
    → IsWaiting c
    → c.arrivals ≡ packets addr xs
    → AreBlocks c.blksize xs
    → file_of c.blksize c.block c.rx_buf xs ≡ some file
    → length file < copy_size
    → move_in accept s file ≡ (s', none)
    → (d : Conn) × (copy_all_in windows (suc (suc (3 * length xs))) accept (suc rounds) c s
        ≡ ret (some (d, s', none)))
copy_all_in-whole accept windows rounds addr xs c file s s' h arrives blocks whole long moved =
    let (d, r, got) =
      read-whole windows addr xs c file (make copy_size) h arrives blocks whole
        (omega (arith, length-replicate {A = ℕ} copy_size 0)) in
    (
      d,
      copied accept windows (suc (suc (3 * length xs))) rounds c d (make copy_size) file s s' r got
          moved,
    )

-- A file that is not empty and that one write takes whole.
pub move_in-whole :
    {S : Type 0} (accept : S → Bytes → S × ℕ × Option Error) (s s' : S) (file : Bytes)
    → file ≢ []
    → accept s file ≡ (s', length file, none)
    → move_in accept s file ≡ (s', none)
move_in-whole accept s s' [] ne h = absurd (ne refl)
move_in-whole accept s s' (b ∷ rest) ne h =
    let full : write_failure (length (b ∷ rest)) (length (b ∷ rest)) none ≡ none =
      rw (==_refl (length (b ∷ rest))) refl in
    rw (h, full) refl

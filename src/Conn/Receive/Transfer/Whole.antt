-- ===== src/Conn/Receive/Transfer/Whole.antt =====
-- `Read` of a whole file, over a network that repeats, drops and delays packets.
use native.Mathlib.Decide.{ℕ_discrete}
use trivialt.Prelude.{
  ℕ, suc, ◌+◌, ◌*◌, ◌%◌, ◌≤◌, ◌<◌, [], ◌∷◌, ◌++◌, List, ret, none, some, Bool, true, false, ltb,
  leb, ◌==◌, ◌&&◌, ◌||◌, length, take, drop, take-all, drop-all, take-exact, ◌≡◌, ◌≢◌, ◌⊎◌, refl,
  subst, sym, ap, ◌∙◌, arith, Bool-cases, inl, inr,
}
use trivialt.Prelude.Bytes.{Bytes}
use trivialt.Datagram.Write.Wire.{data_wire}
use trivialt.Errors.{sentinel, eof}
use trivialt.Conn.{Conn, State, Arrival, packet, plain_source}
use trivialt.Conn.Receive.{ack_data, read, read_source}
use trivialt.Conn.Receive.Transfer.Packet.{given, read_data-packet}
use trivialt.Conn.Run.{step, run}
use trivialt.Conn.Receive.Transfer.File.{
  IsReceiving, packets, file_of, AreBlocks, file_of-length, Received, acknowledged,
}

-- Three state functions take one packet.
one_round :
    (windows : Bool) (f : ℕ) (c d : Conn) (addr n : ℕ) (b : Bytes) (rest : List Arrival)
    → IsReceiving c
    → c.done ≡ false
    → length c.rx_buf < length c.p
    → c.arrivals ≡ packet addr (data_wire n b) ∷ rest
    → length b ≤ c.blksize
    → ack_data (given c rest n b) ≡ ret (d, some State.read)
    → run windows (suc (suc (suc f))) c (some State.read) ≡ run windows f d (some State.read)
unfolding run step read
one_round windows f c d addr n b rest h going short arrives fits r =
    let wants : (leb (length c.p) (length c.rx_buf) || c.done) ≡ false = ground arith in
    let taken =
      read_data-packet c addr n b rest arrives h.multi (omega (arith, h.room)) h.patient in
    rw (wants, taken, r) refl

-- The end: everything is handed out, with EOF.
record Complete (d : Conn) (file : Bytes) : Type 0 where
  counted : d.n ≡ length file
  bytes_read : take (length file) d.p ≡ file
  ended : d.err ≡ some (sentinel eof)

source_given :
    (windows : Bool) (c : Conn) (file : Bytes)
    → c.reader ≡ plain_source
    → c.rx_buf ≡ file
    → length file ≤ length c.p
    → read_source windows c.reader c.rx_buf (length c.p) ≡ ret (file, plain_source, [])
unfolding read_source
source_given windows c file plain got long =
    rw (plain, got, take-all (length c.p) file long, drop-all (length c.p) file long) refl

last_round :
    (windows : Bool) (f : ℕ) (c : Conn) (file : Bytes)
    → c.reader ≡ plain_source
    → c.done ≡ true
    → c.rx_buf ≡ file
    → length file ≤ length c.p
    → (d : Conn) × (run windows (suc f) c (some State.read) ≡ ret (some d)) × Complete d file
unfolding run step read
last_round windows f c file plain over got long =
    let both : (leb (length c.p) (length c.rx_buf) || c.done) ≡ true = ground arith in
    let nothing_left : (c.done && true) ≡ true = ground arith in
    (
      record c {
        n = length file;
        p = file ++ drop (length file) c.p;
        reader = plain_source;
        rx_buf = [];
        err = some (sentinel eof);
      },
      rw (both, source_given windows c file plain got long, nothing_left) refl,
      record {
        counted = refl;
        bytes_read = take-exact (length file) file (drop (length file) c.p) refl;
        ended = refl;
      },
    )

-- A run that ends within `f` state functions, with the file handed out.
abbrev Finishes : Bool → ℕ → Conn → Bytes → Type 0
Finishes windows f c file =
    (d : Conn) × (run windows f c (some State.read) ≡ ret (some d))
    × (d.n ≡ length file)
    × (take (length file) d.p ≡ file)
    × (d.err ≡ some (sentinel eof))

goes_on :
    (windows : Bool) (k : ℕ) (c d : Conn) (file : Bytes)
    → run windows (suc (suc (suc (suc (3 * k))))) c (some State.read)
      ≡ run windows (suc (3 * k)) d (some State.read)
    → Finishes windows (suc (3 * k)) d file
    → Finishes windows (suc (3 * suc k)) c file
goes_on windows k c d file round (e, r, counted, got, ended) =
    let fuel : suc (3 * suc k) ≡ suc (suc (suc (suc (3 * k)))) = omega arith in
    (e, ap (λ f. run windows f c (some State.read)) fuel ∙ round ∙ r, counted, got, ended)

pub same_file :
    (xs : List (ℕ × Bytes)) (s s' l l' : ℕ) (g g' : Bytes)
    → s ≡ s'
    → l ≡ l'
    → g ≡ g'
    → file_of s l g xs ≡ file_of s' l' g' xs
same_file xs s s' l l' g g' a b e = cc

ended_by :
    (windows : Bool) (k : ℕ) (c d : Conn) (n : ℕ) (b file : Bytes) (xs : List (ℕ × Bytes))
    (rest : List Arrival)
    → Received c d n b rest
    → n ≡ (c.block + 1) % 65536
    → ltb (length b) c.blksize ≡ true
    → file_of c.blksize c.block c.rx_buf ((n, b) ∷ xs) ≡ some file
    → length file < length c.p
    → Finishes windows (suc k) d file
ended_by windows k c d n b file xs rest v e t whole long =
    let test : (n == (c.block + 1) % 65536) ≡ true = ground arith in
    let now : some (c.rx_buf ++ b) ≡ some file = rw (test, t) at whole in
    let all : c.rx_buf ++ b ≡ file = cc in
    let over : d.done ≡ true = ground (arith, (v.taken e).2) in
    let (d', r, w) =
      last_round windows k d file v.receiving.plain over ((v.taken e).1 ∙ all)
        (omega (arith, ap length v.target)) in
    (d', r, w.counted, w.bytes_read, w.ended)

-- What stays to be received after a packet that does not end the file.
next_file :
    (c d : Conn) (n : ℕ) (b file : Bytes) (xs : List (ℕ × Bytes)) (rest : List Arrival)
    → Received c d n b rest
    → c.done ≡ false
    → (n ≡ (c.block + 1) % 65536 → ltb (length b) c.blksize ≡ false)
    → file_of c.blksize c.block c.rx_buf ((n, b) ∷ xs) ≡ some file
    → (file_of d.blksize d.block d.rx_buf xs ≡ some file) × (d.done ≡ false)
next_file c d n b file xs rest v going more whole = elim (ℕ_discrete n ((c.block + 1) % 65536)) [
  | yes e ↦
      let test : (n == (c.block + 1) % 65536) ≡ true = ground arith in
      let now : file_of c.blksize n (c.rx_buf ++ b) xs ≡ some file = rw (test, more e) at whole in
      (
        same_file xs _ _ _ _ _ _ v.size (v.taken e).0 (v.taken e).1 ∙ now,
        ground (arith, (v.taken e).2, more e),
      )
  | no ne ↦
      let test : (n == (c.block + 1) % 65536) ≡ false = ground arith in
      let now : file_of c.blksize c.block c.rx_buf xs ≡ some file = rw test at whole in
      (
        same_file xs _ _ _ _ _ _ v.size (v.ignored ne).0 (v.ignored ne).1 ∙ now,
        (v.ignored ne).2 ∙ going,
      )
]

-- The packet ends the file, or does not.
ends_or_not :
    (c : Conn) (n : ℕ) (b : Bytes)
    → ((n ≡ (c.block + 1) % 65536) × (ltb (length b) c.blksize ≡ true))
      ⊎ (n ≡ (c.block + 1) % 65536 → ltb (length b) c.blksize ≡ false)
ends_or_not c n b = elim (ℕ_discrete n ((c.block + 1) % 65536)) [
  | yes e ↦ elim (Bool-cases (ltb (length b) c.blksize)) [
    | inl t ↦ inl (e, t)
    | inr f ↦ inr (λ e. f)
  ]
  | no ne ↦ inr (λ e. absurd (ne e))
]

-- The loop of `Read` on a connection that waits for the block behind `c.block`, with room for more
-- than the file: only DATA packets arrive, from one address and none with more bytes than a block,
-- but repeated, stale or ahead of their turn as they may be; it ends within three state functions
-- for each packet and one more, and hands out exactly the file that the packets carry in their
-- turn, with EOF, if they carry a whole one. The connection reads plain bytes from a socket of its
-- own, its buffer holds a block, it has a try left, and its writes succeed.
pub run_receives :
    (windows : Bool) (addr : ℕ) (xs : List (ℕ × Bytes)) (c : Conn) (file : Bytes)
    → IsReceiving c
    → c.done ≡ false
    → c.arrivals ≡ packets addr xs
    → AreBlocks c.blksize xs
    → file_of c.blksize c.block c.rx_buf xs ≡ some file
    → length file < length c.p
    → (d : Conn) × (run windows (suc (3 * length xs)) c (some State.read) ≡ ret (some d))
      × (d.n ≡ length file)
      × (take (length file) d.p ≡ file)
      × (d.err ≡ some (sentinel eof))
run_receives windows addr [] c file h going arrives blocks whole long = absurd (nothing whole)
  where
    nothing : none ≢ some file
    nothing e = cc
run_receives windows addr ((n, b) ∷ xs) c file h going arrives blocks whole long =
    let (d, r, v) = acknowledged c n b (packets addr xs) h blocks.0.0 blocks.0.1 in
    let known = file_of-length c.blksize c.block c.rx_buf file ((n, b) ∷ xs) whole in
    let round =
      one_round windows (suc (3 * length xs)) c d addr n b (packets addr xs) h going (omega arith)
        arrives blocks.0.1 r in
    goes_on windows (length xs) c d file round (elim (ends_or_not c n b) [
      | inl p ↦
          ended_by windows (3 * length xs) c d n b file xs (packets addr xs) v p.0 p.1 whole long
      | inr more ↦
          let (still, on) = next_file c d n b file xs (packets addr xs) v going more whole in
          run_receives windows addr xs d file v.receiving on v.left
            (subst (λ k. AreBlocks k xs) (sym v.size) blocks.1) still
            (omega (arith, ap length v.target))
    ])

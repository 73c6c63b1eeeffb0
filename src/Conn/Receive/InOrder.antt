-- ===== src/Conn/Receive/InOrder.antt =====
-- `ackData` keeps exactly the next block, whatever arrives.
use trivialt.Prelude.{
  ℕ, ◌+◌, ◌%◌, ◌<◌, [], ◌∷◌, ◌++◌, Go, ret, Option, none, some, true, false, ltb, leb, ◌==◌, ◌&&◌,
  ◌||◌, if◌then◌else◌, length, ◌≡◌, ◌≢◌, refl, sym, ap, ◌∙◌, arith, Bool-cases, inl, inr,
}
use trivialt.Prelude.Bytes.{Bytes}
use trivialt.Datagram.Read.{block, content}
use trivialt.Datagram.Write.Wire.{ack_wire}
use trivialt.Errors.{Error, wrap_error}
use trivialt.Conn.{WritesWork, Conn, State}
use trivialt.Conn.Net.{send_ack}
use trivialt.Conn.Net.Sends.{Transmits, send_ack-SendsBy}
use trivialt.Conn.Receive.{block_diff, missed_blocks, accept_block, ack_diff, ack_data}
use native.Mathlib.Decide.{ℕ_discrete}

-- What is kept of the file and of the place in it.
pub record Keeps (c c' : Conn) : Type 0 where
  pub place : c'.block ≡ c.block
  pub data_kept : c'.rx_buf ≡ c.rx_buf
  pub ends : c'.done ≡ c.done

-- The block `n` with the bytes `b` was taken, and acknowledged if the window or the file ends.
pub record Takes (c c' : Conn) (n : ℕ) (b : Bytes) : Type 0 where
  pub place : c'.block ≡ n
  pub data_kept : c'.rx_buf ≡ c.rx_buf ++ b
  pub ends : c'.done ≡ (c.done || ltb (length b) c.blksize)
  pub answered :
      WritesWork c
      → c'.sent ≡ (
          if ltb ((c.window + 1) % 65536) c.windowsize && leb c.blksize (length b)
          then c.sent
          else c.sent ++ (c.remote_addr, ack_wire n) ∷ [])

-- Sending changes none of these.
sent-place : (c c' : Conn) (b : Bytes) (e : Option Error) → Transmits c b c' e → c'.block ≡ c.block
sent-place c c' b e t = ap (λ (x : Conn). x.block) t.same

sent-data : (c c' : Conn) (b : Bytes) (e : Option Error) → Transmits c b c' e → c'.rx_buf ≡ c.rx_buf
sent-data c c' b e t = ap (λ (x : Conn). x.rx_buf) t.same

sent-done : (c c' : Conn) (b : Bytes) (e : Option Error) → Transmits c b c' e → c'.done ≡ c.done
sent-done c c' b e t = ap (λ (x : Conn). x.done) t.same

-- `c` with what `ackData` may change as in `d`.
abbrev pub onto : Conn → Conn → Conn
onto c d = record c {
  block = d.block;
  window = d.window;
  catchup = d.catchup;
  rx_buf = d.rx_buf;
  done = d.done;
  tx = d.tx;
  sent = d.sent;
  write_results = d.write_results;
}

-- The loop goes on with `read`, the network works on, and nothing else has changed.
pub record Continues (c c' : Conn) (next : Option State) : Type 0 where
  pub on : next ≡ some State.read
  pub works : WritesWork c'
  pub same : c' ≡ onto c c'

some-ne-none : (e : Error) → some e ≢ none
some-ne-none e h = cc

abbrev Smooth : Conn → Conn → Option State → Type 0
Smooth c c' next = WritesWork c → Continues c c' next

abbrev KeepsBy : Conn → Go (Conn × Option State) → Type 0
KeepsBy c m =
    (c' : Conn) × (next : Option State) × (m ≡ ret (c', next)) × Keeps c c' × Smooth c c' next

missed_blocks-sent :
    (c c' : Conn) (e : Option Error)
    → send_ack c c.block ≡ ret (c', e)
    → Transmits c (ack_wire c.block) c' e
    → c.catchup ≡ false
    → KeepsBy c (missed_blocks c)
unfolding missed_blocks
missed_blocks-sent c c' none r t f = (
  record c' { window = 0; catchup = true },
  some State.read,
  rw (r, f) refl,
  record {
    place = sent-place c c' _ _ t;
    data_kept = sent-data c c' _ _ t;
    ends = sent-done c c' _ _ t;
  },
  λ w. record {
    on = refl;
    works = (t.sure w).1;
    same =
        let e = ap (λ (x : Conn). record x { window = 0; catchup = true }) t.same in
        e ∙ sym (ap (onto c) e);
  },
)
missed_blocks-sent c c' (some e) r t f = (
  record c' { err = wrap_error (some e) "sending missed block(s) ACK" },
  none,
  rw (r, f) refl,
  record {
    place = sent-place c c' _ _ t;
    data_kept = sent-data c c' _ _ t;
    ends = sent-done c c' _ _ t;
  },
  λ w. let (bad, left) = t.sure w in absurd (some-ne-none e bad),
)

missed_blocks-Keeps : (c : Conn) → KeepsBy c (missed_blocks c)
unfolding missed_blocks
missed_blocks-Keeps c = elim (Bool-cases c.catchup) [
  | inl t ↦ (
    c,
    some State.read,
    rw t refl,
    record { place = refl; data_kept = refl; ends = refl },
    λ w. record { on = refl; works = w; same = refl },
  )
  | inr f ↦ let (c', e, r, t) = send_ack-SendsBy c c.block in missed_blocks-sent c c' e r t f
]

abbrev TakesBy : Conn → ℕ → Bytes → Go (Conn × Option State) → Type 0
TakesBy c n b m =
    (c' : Conn) × (next : Option State) × (m ≡ ret (c', next)) × Takes c c' n b × Smooth c c' next

-- The connection on which `ackData` goes on with the next block.
abbrev advanced : Conn → Conn
advanced c = record c {
  block = (c.block + 1) % 65536;
  window = (c.window + 1) % 65536;
  catchup = false;
}

-- It with the data of the block.
abbrev stored : Conn → Bytes → Conn
stored c b = record (advanced c) {
  rx_buf = c.rx_buf ++ b;
  done = c.done || ltb (length b) c.blksize;
}

accept_block-sent :
    (c c' : Conn) (b : Bytes) (e : Option Error)
    → content c.rx ≡ ret b
    → let s = record (stored c b) { window = 0 } in
      send_ack s s.block ≡ ret (c', e)
      → Transmits s (ack_wire s.block) c' e
      → (ltb ((c.window + 1) % 65536) c.windowsize && leb c.blksize (length b)) ≡ false
      → TakesBy c ((c.block + 1) % 65536) b (accept_block (advanced c))
unfolding accept_block
accept_block-sent c c' b none h r t f = (
  c',
  some State.read,
  rw (h, f, r) refl,
  record {
    place = sent-place _ c' _ _ t;
    data_kept = sent-data _ c' _ _ t;
    ends = sent-done _ c' _ _ t;
    answered = λ w. rw f (t.trace refl);
  },
  λ w. record { on = refl; works = (t.sure w).1; same = t.same ∙ sym (ap (onto c) t.same) },
)
accept_block-sent c c' b (some e) h r t f = (
  record c' { err = wrap_error (some e) "sending DATA ACK" },
  none,
  rw (h, f, r) refl,
  record {
    place = sent-place _ c' _ _ t;
    data_kept = sent-data _ c' _ _ t;
    ends = sent-done _ c' _ _ t;
    answered = λ w. let (bad, left) = t.sure w in cc;
  },
  λ w. let (bad, left) = t.sure w in absurd (some-ne-none e bad),
)

accept_block-Takes :
    (c : Conn) (b : Bytes)
    → content c.rx ≡ ret b
    → TakesBy c ((c.block + 1) % 65536) b (accept_block (advanced c))
unfolding accept_block
accept_block-Takes c b h =
    elim (Bool-cases (ltb ((c.window + 1) % 65536) c.windowsize && leb c.blksize (length b))) [
      | inl t ↦ (
        stored c b,
        some State.read,
        rw (h, t) refl,
        record { place = refl; data_kept = refl; ends = refl; answered = λ w. rw t refl },
        λ w. record { on = refl; works = w; same = refl },
      )
      | inr f ↦
          let s = record (stored c b) { window = 0 } in
          let (c', e, r, t) = send_ack-SendsBy s s.block in accept_block-sent c c' b e h r t f
    ]

kept_as_is : (c : Conn) (m : Go (Conn × Option State)) → m ≡ ret (c, some State.read) → KeepsBy c m
kept_as_is c m h = (
  c,
  some State.read,
  h,
  record { place = refl; data_kept = refl; ends = refl },
  λ w. record { on = refl; works = w; same = refl },
)

ack_diff-Keeps : (c : Conn) (diff : ℕ) → diff ≢ 1 → KeepsBy c (ack_diff c diff)
unfolding ack_diff
ack_diff-Keeps c diff h =
    let other : (diff == 1) ≡ false = ground arith in
    elim (Bool-cases (diff == 0)) [
      | inl t ↦ kept_as_is c (ack_diff c diff) (rw (other, t) refl)
      | inr f ↦ elim (Bool-cases (ltb c.windowsize diff)) [
        | inl t ↦ kept_as_is c (ack_diff c diff) (rw (other, f, t) refl)
        | inr f' ↦ rw (other, f, f') (missed_blocks-Keeps c)
      ]
    ]

block_diff-next :
    (n block : ℕ) → n < 65536 → block < 65536 → block_diff n block ≡ 1 → n ≡ (block + 1) % 65536
block_diff-next n block h k e = omega arith

block_diff-other :
    (n block : ℕ) → n < 65536 → block < 65536 → n ≢ (block + 1) % 65536 → block_diff n block ≢ 1
block_diff-other n block h k e d = e (omega arith)

-- Both at once: what `ackData` does, and how the loop goes on.
pub ack_data_next :
    (c : Conn) (n : ℕ) (b : Bytes)
    → block c.rx ≡ ret n
    → content c.rx ≡ ret b
    → n < 65536
    → c.block < 65536
    → (c' : Conn) × (next : Option State) × (ack_data c ≡ ret (c', next))
      × (n ≡ (c.block + 1) % 65536 → Takes c c' n b)
      × (n ≢ (c.block + 1) % 65536 → Keeps c c')
      × Smooth c c' next
unfolding ack_data ack_diff
ack_data_next c n b h k small fits = elim (ℕ_discrete n ((c.block + 1) % 65536)) [
  | yes e ↦
      let next : block_diff n c.block ≡ 1 = omega arith in
      let (c', s, r, t, g) = accept_block-Takes c b k in
      (c', s, rw (h, next) r, λ _. rw e t, λ ne. absurd (ne e), g)
  | no ne ↦
      let other = block_diff-other n c.block small fits ne in
      let (c', s, r, t, g) = ack_diff-Keeps c (block_diff n c.block) other in
      (c', s, rw h r, λ e. absurd (ne e), λ _. t, g)
]

-- `ackData` on a DATA with block `n` and bytes `b` never panics. If `n` is the next block on 16
-- bits, its bytes go to the end of what was received, the file is done if they are short, and,
-- where the writes succeed, the one packet sent is an ACK of `n` if the window or the file ends
-- here, and nothing is sent otherwise. With any other `n`, a duplicate, a stale or a skipping one,
-- the data, the place and the end of the file stay as they are.
pub ack_data_lem :
    (c : Conn) (n : ℕ) (b : Bytes)
    → block c.rx ≡ ret n
    → content c.rx ≡ ret b
    → n < 65536
    → c.block < 65536
    → (c' : Conn) × (next : Option State) × (ack_data c ≡ ret (c', next))
      × (n ≡ (c.block + 1) % 65536 → Takes c c' n b)
      × (n ≢ (c.block + 1) % 65536 → Keeps c c')
ack_data_lem c n b h k small fits =
    let (c', next, r, takes, keeps, smooth) = ack_data_next c n b h k small fits in
    (c', next, r, takes, keeps)

-- ===== src/Conn/Send/Transfer/Written.antt =====
-- One `Write`: the full blocks go out, and the rest stays in the ring.
use trivialt.Prelude.{
  ℕ, zero, suc, ◌+◌, ◌*◌, ◌≤◌, ◌<◌, ◌++◌, List, ret, Bool-cases, inl, inr, ltb, none, some, Option,
  Bool, length, ◌≡◌, refl, ap₂, ◌∙◌, arith,
}
use trivialt.Prelude.Bytes.{Bytes}
use trivialt.Errors.{wrap_error}
use trivialt.Ring
use trivialt.Ring.{Ring}
use trivialt.Ring.Refine.{Kept, chunk_at}
use trivialt.Conn.{Conn, State, Target, plain_target}
use trivialt.Conn.Send.{write_target}
use trivialt.Conn.Send.Transfer.Round.{blocks_of, acks, datas}
use trivialt.Conn.Send.Transfer.Filling.{IsOpen, Awaits, total, run_fills}
use trivialt.Conn.Send.Transfer.Closing.{first_step, second_step, write-ended, run-more}
use trivialt.Conn.Run.{run, write}

exact : (k size n : ℕ) → n < k * size + size → k * size + size ≤ suc n → suc k * size ≡ suc n
exact k size n most le = grind arith

write-Kept : (r : Ring) (p : Bytes) (i : ℕ) (b : Bytes) → Kept r i b → Kept (Ring.write r p) i b
unfolding Ring.write
write-Kept r p i b k = record { used = k.used; bytes = k.bytes; small = k.small }

-- Every number has its quotient.
pub quotient : (size n : ℕ) → 0 < size → (k : ℕ) × (k * size ≤ n) × (n < k * size + size)
quotient size zero h = (0, omega arith, omega (arith, h))
quotient size (suc n) h = let (k, least, most) = quotient size n h in next k least most
  where
    next :
        (k : ℕ)
        → k * size ≤ n
        → n < k * size + size
        → (k : ℕ) × (k * size ≤ suc n) × (suc n < k * size + size)
    next k least most = elim (Bool-cases (ltb (suc n) (k * size + size))) [
      | inl t ↦ (k, omega arith, ground arith)
      | inr f ↦
          let full : suc k * size ≡ suc n = exact k size n most (ground arith) in
          (suc k, omega (arith, full), omega (arith, full, h))
    ]

-- The sender with `p` written into its ring.
abbrev pub taken : Conn → Ring → Bytes → Conn
taken c r p = record c { p = p; tx_buf = some (Ring.write r p); n = length p }

write_target-plain :
    (t : Target) (b : Option Ring) (r : Ring) (p : Bytes)
    → t ≡ plain_target
    → b ≡ some r
    → write_target t b p ≡ ret (t, some (Ring.write r p), length p)
unfolding write_target
write_target-plain t b r p plain ring = rw (plain, ring) refl

taken-IsOpen :
    (c : Conn) (r : Ring) (h : List Bytes) (p : Bytes)
    → IsOpen c r h
    → IsOpen (taken c r p) (Ring.write r p) h
unfolding Ring.write
taken-IsOpen c r h p o =
    let s = o.sending in
    let v = s.holds in
    record {
      sending = record {
        ring = refl;
        holds = record {
          sized = v.sized;
          slotted = v.slotted;
          room = v.room;
          lens = v.lens;
          place = v.place;
          top = v.top;
          behind = v.behind;
          kept = λ i a b. write-Kept r p i (chunk_at h i) (v.kept i a b);
        };
        fills = s.fills;
        size = s.size;
        small = s.small;
        closing = refl;
        lockstep = s.lockstep;
        fresh = s.fresh;
        multi = s.multi;
        works = s.works;
        patient = s.patient;
        room = s.room;
      };
      opened = o.opened;
      going = o.going;
      good = o.good;
      settled = o.settled;
      plain = o.plain;
    }

-- The loop of `Write` comes to `writeData`.
run-taken :
    (windows : Bool) (f : ℕ) (c : Conn) (r : Ring) (h : List Bytes) (p : Bytes)
    → IsOpen c r h
    → run windows (suc (suc f)) (record c { p = p }) (some State.start_write)
      ≡ run windows f (taken c r p) (some State.write_data)
run-taken windows f c r h p o =
    let c' = record c { p = p } in
    first_step windows (suc f) c' o.settled
    ∙ second_step windows f c' c.writer (some (Ring.write r p)) (length p)
        (write_target-plain c.writer c.tx_buf r p o.plain o.sending.ring)

-- Where a `Write` of `p` leaves a sender.
abbrev pub Wrote : Conn → Ring → Bytes → Bytes → ℕ → ℕ → ℕ → Conn → Type 0
Wrote c r p v k j t d =
    (r' : Ring) × (h' : List Bytes) × IsOpen d r' h'
    × (r'.size ≡ r.size)
    × (length r'.unread + k * r.size ≡ length (r.unread ++ p))
    × (length r'.unread < r.size)
    × Awaits d r' v j
    × (total d r' v j
        ≡ c.sent ++ datas c.remote_addr (blocks_of r.size t c.block ((r.unread ++ p) ++ v)))

-- One `Write` of a sender that is not closing.
pub write-Wrote :
    (windows : Bool) (k j t g : ℕ) (c : Conn) (r : Ring) (h : List Bytes) (p v : Bytes)
    → t ≡ k + j
    → IsOpen c r h
    → k * r.size ≤ length (r.unread ++ p)
    → length (r.unread ++ p) < k * r.size + r.size
    → c.arrivals ≡ acks c.remote_addr (blocks_of r.size t c.block ((r.unread ++ p) ++ v))
    → (d : Conn) × (write windows (suc (suc (suc (2 * k))) + g) c p
        ≡ ret (some (d, (length p, none))))
      × Wrote c r p v k j t d
unfolding Ring.write wrap_error
write-Wrote windows k j t g c r h p v e o least most arrives =
    let (d, ran, filled) =
      run_fills windows k j t (taken c r p) (Ring.write r p) h v e (taken-IsOpen c r h p o) least
        most arrives in
    let (r', h', o', n', size', len', short', awaits, sum) = filled in
    let f = suc (suc (suc (2 * k))) in
    (
      d,
      write-ended windows (f + g) c d p o.good
            (run-more windows f g _ d _ (run-taken windows (suc (2 * k)) c r h p o ∙ ran))
          ∙ ap₂ (λ n x. ret (some (d, (n, wrap_error x "writing")))) n' o'.good,
      (r', h', o', size', len', short', awaits, sum),
    )

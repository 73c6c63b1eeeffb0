-- ===== src/Ring/Replay.antt =====
-- Rolling the ring back, and the rings that cannot be read.
use trivialt.Prelude.{
  ℕ, zero, suc, ◌+◌, ◌-◌, ◌*◌, ◌≤◌, ◌<◌, [], ◌∷◌, List, Go, ret, panic, ◌>>=◌, length,
  length-replicate, replicate, drop-all, drop, ◌≡◌, ◌⊎◌, inl, inr, refl, sym, ap, ◌∙◌, arith,
}
use trivialt.Prelude.Bytes.{Bytes}
use trivialt.Prelude.Int.{pos, sub_ℤ}
use trivialt.Ring.{Ring, new_ring, write, read, read_fresh, slot_of, store, unread_slots}
use trivialt.Ring.Refine.{Holds, chunk_at, read_again_lem, again-Holds}

-- `n` reads, one after the other.
abbrev pub read_many : ℕ → Ring → Go (Ring × List Bytes)
read_many zero r = ret (r, [])
read_many (suc n) r = do (r', c, eof) ← read r r.size; (r'', cs) ← read_many n r'; ret (r'', c ∷ cs)

drop-chunk : (h : List Bytes) (i : ℕ) → i < length h → drop i h ≡ chunk_at h i ∷ drop (i + 1) h
drop-chunk [] i lt = absurd (omega arith)
drop-chunk (c ∷ h) zero lt = refl
drop-chunk (c ∷ h) (suc i) lt =
    let shift : suc i + 1 ≡ suc (i + 1) = omega arith in rw shift (drop-chunk h i (omega arith))

read_many_lem :
    (n : ℕ) (r : Ring) (h : List Bytes) (cur : ℕ)
    → Holds r h cur
    → cur + n ≡ length h
    → n ≤ r.slots
    → read_many n r ≡ ret (record r { current = pos (length h) }, drop cur h)
read_many_lem zero r h cur v e fits =
    let here : cur ≡ length h = omega arith in
    ap ret (λ i.
      (record r { current = (v.place ∙ ap pos here) i }, sym (drop-all cur h (omega arith)) i))
read_many_lem (suc n) r h cur v e fits =
    let lt : cur < length h = omega arith in
    rw
      (
        read_again_lem r h cur r.size v lt (omega arith) (omega arith),
        read_many_lem n (record r { current = pos (cur + 1) }) h (cur + 1)
            (again-Holds r h cur v lt) (omega arith) (omega arith),
      )
      (ap (λ (t : List Bytes). ret (record r { current = pos (length h) }, t))
        (sym (drop-chunk h cur lt)))

-- Unreading keeps the history and moves the place in it back.
unread-place :
    (n : ℕ) (r : Ring) (h : List Bytes)
    → Holds r h (length h)
    → n ≤ length h
    → sub_ℤ r.current (pos n) ≡ pos (length h - n)
unread-place n r h v le = rw v.place (ground arith)

pub unread_slots-Holds :
    (n : ℕ) (r : Ring) (h : List Bytes)
    → Holds r h (length h)
    → n ≤ length h
    → Holds (unread_slots r n) h (length h - n)
unfolding unread_slots
unread_slots-Holds n r h v le = record {
  sized = v.sized;
  slotted = v.slotted;
  room = v.room;
  lens = v.lens;
  place = unread-place n r h v le;
  top = v.top;
  behind = omega arith;
  kept = λ i a b. record {
    used = (v.kept i a b).used;
    bytes = (v.kept i a b).bytes;
    small = (v.kept i a b).small;
  };
}

-- After `UnreadSlots(n)`, with `n` at most the number of slots and of chunks read, `n` reads hand
-- out the last `n` chunks again, in order and byte for byte, and leave the ring exactly as it was.
pub read_many-unread_slots :
    (n : ℕ) (r : Ring) (h : List Bytes)
    → Holds r h (length h)
    → n ≤ length h
    → n ≤ r.slots
    → read_many n (unread_slots r n) ≡ ret (r, drop (length h - n) h)
unfolding unread_slots
read_many-unread_slots n r h v le fits =
    read_many_lem n (unread_slots r n) h (length h - n) (unread_slots-Holds n r h v le)
      (omega arith) fits
    ∙ ap ret (λ i. (record r { current = sym v.place i }, drop (length h - n) h))

-- A ring that was just made with at least one slot of at least one byte holds the empty history.
pub new_ring-Holds : (slots size : ℕ) → 0 < slots → 0 < size → Holds (new_ring slots size) [] 0
unfolding new_ring
new_ring-Holds slots size h k = record {
  sized = k;
  slotted = h;
  room = length-replicate (size * slots) 0;
  lens = length-replicate (size * slots) 0;
  place = refl;
  top = refl;
  behind = omega arith;
  kept = λ i a b. elim a [ ];
}

-- A ring with no slots, or with slots of no bytes, panics on its first read, whatever was written.
pub read_panics :
    (slots size : ℕ) (p : Bytes) (n : ℕ)
    → (slots ≡ 0) ⊎ (size ≡ 0)
    → read (write (new_ring slots size) p) n ≡ panic
unfolding read slot_of read_fresh store write new_ring
read_panics slots size p n (inl e) = rw e
read_panics slots size p n (inr e) =
    let none_listed : length (replicate (size * slots) (zero)) ≡ 0 =
      length-replicate (size * slots) zero ∙ rw e (omega arith) in
    ground (arith, none_listed)

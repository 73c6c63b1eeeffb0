-- ===== src/Ring/Refine.antt =====
-- The ring hands out the chunks of its history again.
use trivialt.Prelude.{
  ℕ, zero, suc, ◌+◌, ◌*◌, ◌%◌, ◌≤◌, ◌<◌, [], ◌∷◌, ◌++◌, List, ret, Bool, true, false, ltb, leb,
  ◌==◌, length, length-take, length-append, length-set, take-all, ◌&&◌, take, drop, set, ◌≡◌, ◌≢◌,
  ◌⊎◌, inl, inr, refl, sym, ap, ◌∙◌, arith,
}
use trivialt.Prelude.Bytes.{
  Bytes, slice, at_index, slice-copied_self, slice-copied_ne, at_index-set_self, at_index-set_ne,
}
use trivialt.Prelude.Int.{ℤ, pos, add_ℕ, eq_ℤ}
use trivialt.Datagram.Write.{copy_at}
use trivialt.Datagram.Write.Appends.{length-copy_at}
use trivialt.Ring.{Ring, read, read_again, read_fresh, slot_of, store}
use native.Mathlib.Decide.{dec_lt}
use native.Mathlib.Nat.{div-add-mod}

-- Two places less than a round apart are in different slots.
mod-ne : (i j s : ℕ) → 0 < s → i < j → j < i + s → i % s ≢ j % s
mod-ne i j s h lt near e = grind (arith, div-add-mod i s, div-add-mod j s)

-- A slot ends where the next begins.
apart :
    (s t size n : ℕ) → s ≢ t → n ≤ size → (s * size + n ≤ t * size) ⊎ (t * size + size ≤ s * size)
apart s t size n h k = elim (dec_lt s t) [
  | yes p ↦ inl (grind arith)
  | no p ↦ inr (next_slot t s (omega arith))
]
  where
    next_slot : (a b : ℕ) → a < b → a * size + size ≤ b * size
    next_slot a b lt = grind arith

in_buffer : (i s size n : ℕ) → 0 < s → n ≤ size → i % s * size + n ≤ size * s
in_buffer i s size n h k = let below : i % s < s = omega arith in grind arith

in_list : (i s size : ℕ) → 0 < s → 0 < size → i % s < size * s
in_list i s size h k = let below : i % s < s = omega arith in grind arith

-- The chunk in the slot of place `i`.
pub record Kept (r : Ring) (i : ℕ) (c : Bytes) : Type 0 where
  pub used : at_index r.slots_len (i % r.slots) ≡ ret (length c)
  pub bytes : slice r.buf (i % r.slots * r.size) (i % r.slots * r.size + length c) ≡ ret c
  pub small : length c ≤ r.size

abbrev pub chunk_at : List Bytes → ℕ → Bytes
chunk_at [] i = []
chunk_at (c ∷ h) zero = c
chunk_at (c ∷ h) (suc i) = chunk_at h i

-- The ring stands at place `cur` of the chunks `h` that it read so far, and keeps the last of them,
-- as many as it has slots.
pub record Holds (r : Ring) (h : List Bytes) (cur : ℕ) : Type 0 where
  pub sized : 0 < r.size
  pub slotted : 0 < r.slots
  pub room : length r.buf ≡ r.size * r.slots
  pub lens : length r.slots_len ≡ r.size * r.slots
  pub place : r.current ≡ pos cur
  pub top : r.head ≡ pos (length h)
  pub behind : cur ≤ length h
  pub kept : (i : ℕ) → i < length h → length h ≤ i + r.slots → Kept r i (chunk_at h i)

add_pos : (a k : ℕ) → add_ℕ (pos a) k ≡ pos (a + k)
add_pos a k = ground arith

-- A chunk that was read before is read again, from its slot, and nothing else changes.
pub read_again_lem :
    (r : Ring) (h : List Bytes) (cur n : ℕ)
    → Holds r h cur
    → cur < length h
    → length h ≤ cur + r.slots
    → r.size ≤ n
    → read r n ≡ ret (record r { current = pos (cur + 1) }, chunk_at h cur, false)
unfolding read slot_of read_again
read_again_lem r h cur n v lt near big =
    let k = v.kept cur lt near in
    let s1 : (r.slots == 0) ≡ false = ground (arith, v.slotted) in
    let s2 : eq_ℤ (pos cur) (pos (length h)) ≡ false = ground arith in
    let whole = take-all n (chunk_at h cur) (omega (arith, k.small)) in
    rw (v.place, s1, v.top, s2, k.used, k.bytes, whole)
      (ap (λ (z : ℤ). ret (record r { current = z; head = pos (length h) }, chunk_at h cur, false))
        (add_pos cur 1))

pub again-Holds :
    (r : Ring) (h : List Bytes) (cur : ℕ)
    → Holds r h cur
    → cur < length h
    → Holds (record r { current = pos (cur + 1) }) h (cur + 1)
again-Holds r h cur v lt = record {
  sized = v.sized;
  slotted = v.slotted;
  room = v.room;
  lens = v.lens;
  place = refl;
  top = v.top;
  behind = omega arith;
  kept = λ i a b. record {
    used = (v.kept i a b).used;
    bytes = (v.kept i a b).bytes;
    small = (v.kept i a b).small;
  };
}

-- The ring after a fresh read of the chunk `c`.
abbrev after_fresh : Ring → ℕ → Bytes → Bytes → Ring
after_fresh r k c rest = record r {
  unread = rest;
  buf = copy_at r.buf (k % r.slots * r.size) c;
  slots_len = set r.slots_len (k % r.slots) (length c);
  current = pos (k + 1);
  head = pos (k + 1);
}

read_fresh_lem :
    (r : Ring) (h : List Bytes)
    → Holds r h (length h)
    → read r r.size
      ≡ ret (
        after_fresh r (length h) (take r.size r.unread) (drop r.size r.unread),
        take r.size r.unread,
        length r.unread == 0 && ltb 0 r.size,
      )
unfolding read slot_of read_fresh store
read_fresh_lem r h v =
    let k = length h in
    let c = take r.size r.unread in
    let s1 : (r.slots == 0) ≡ false = ground (arith, v.slotted) in
    let s2 : eq_ℤ (pos k) (pos k) ≡ true = ground arith in
    let small : length c ≤ r.size = omega (arith, length-take r.size r.unread) in
    let inside = in_buffer k r.slots r.size (length c) v.slotted small in
    let fits : leb (k % r.slots * r.size + length c) (length r.buf) ≡ true =
      ground (arith, v.room) in
    let slot : k % r.slots < r.size * r.slots = in_list k r.slots r.size v.slotted v.sized in
    let listed : ltb (k % r.slots) (length r.slots_len) ≡ true = ground (arith, v.lens) in
    rw (v.place, s1, v.top, s2, fits, listed)
      (ap
        (λ (z : ℤ). ret (
          record (after_fresh r k c (drop r.size r.unread)) { current = z; head = z },
          c,
          length r.unread == 0 && ltb 0 r.size,
        ))
        (add_pos k 1))

chunk_at-append_lt :
    (h : List Bytes) (c : Bytes) (i : ℕ) → i < length h → chunk_at (h ++ c ∷ []) i ≡ chunk_at h i
chunk_at-append_lt [] c i lt = absurd (omega arith)
chunk_at-append_lt (x ∷ h) c zero lt = refl
chunk_at-append_lt (x ∷ h) c (suc i) lt = chunk_at-append_lt h c i (omega arith)

chunk_at-append_self : (h : List Bytes) (c : Bytes) → chunk_at (h ++ c ∷ []) (length h) ≡ c
chunk_at-append_self [] c = refl
chunk_at-append_self (x ∷ h) c = chunk_at-append_self h c

module _ (r : Ring) (h : List Bytes) (v : Holds r h (length h)) (c rest : Bytes)
    (small : length c ≤ r.size) where
  abbrev next : Ring
  next = after_fresh r (length h) c rest

  offset : ℕ
  offset = length h % r.slots * r.size

  inside : length h % r.slots * r.size + length c ≤ length r.buf
  inside = omega (arith, v.room, in_buffer (length h) r.slots r.size (length c) v.slotted small)

  new-Kept : Kept next (length h) c
  new-Kept = record {
    used =
        at_index-set_self r.slots_len (length h % r.slots) (length c)
          (omega (arith, v.lens, in_list (length h) r.slots r.size v.slotted v.sized));
    bytes = slice-copied_self r.buf (length h % r.slots * r.size) c inside;
    small = small;
  }

  old-Kept : (i : ℕ) → i < length h → length h + 1 ≤ i + r.slots → Kept next i (chunk_at h i)
  old-Kept i lt near =
      let k = v.kept i lt (omega arith) in
      let ne : i % r.slots ≢ length h % r.slots =
        mod-ne i (length h) r.slots v.slotted lt (omega arith) in
      let ends = in_buffer i r.slots r.size (length (chunk_at h i)) v.slotted k.small in
      let disjoint : (i % r.slots * r.size + length (chunk_at h i) ≤ length h % r.slots * r.size)
          ⊎ (length h % r.slots * r.size + length c ≤ i % r.slots * r.size) =
        elim (apart (i % r.slots) (length h % r.slots) r.size (length (chunk_at h i)) ne k.small) [
          | inl q ↦ inl q
          | inr q ↦ inr (omega arith)
        ] in
      record {
        used =
            at_index-set_ne r.slots_len (length h % r.slots) (i % r.slots) (length c)
              (λ e. ne (sym e))
            ∙ k.used;
        bytes =
            slice-copied_ne r.buf (length h % r.slots * r.size) c inside (i % r.slots * r.size)
              (i % r.slots * r.size + length (chunk_at h i)) (omega arith) (omega (arith, v.room))
              disjoint
            ∙ k.bytes;
        small = k.small;
      }

  next-Kept :
      (i : ℕ)
      → i < length (h ++ c ∷ [])
      → length (h ++ c ∷ []) ≤ i + r.slots
      → Kept next i (chunk_at (h ++ c ∷ []) i)
  next-Kept i lt near = elim (dec_lt i (length h)) [
    | yes p ↦
        rw (chunk_at-append_lt h c i p) (old-Kept i p (omega (arith, length-append h (c ∷ []))))
    | no q ↦
        let last : i ≡ length h = omega (arith, length-append h (c ∷ [])) in
        rw (last, chunk_at-append_self h c) new-Kept
  ]

  fresh-Holds : Holds next (h ++ c ∷ []) (length h + 1)
  fresh-Holds = record {
    sized = v.sized;
    slotted = v.slotted;
    room = length-copy_at r.buf (length h % r.slots * r.size) c inside ∙ v.room;
    lens = length-set r.slots_len (length h % r.slots) (length c) ∙ v.lens;
    place = refl;
    top = ap pos (omega (arith, length-append h (c ∷ [])));
    behind = omega (arith, length-append h (c ∷ []));
    kept = next-Kept;
  }

-- The next chunk, with what it leaves.
pub read_next :
    (r : Ring) (h : List Bytes)
    → Holds r h (length h)
    → (r' : Ring) × (eof : Bool) × (read r r.size ≡ ret (r', take r.size r.unread, eof))
      × (r'.unread ≡ drop r.size r.unread)
      × (r'.size ≡ r.size)
      × Holds r' (h ++ take r.size r.unread ∷ []) (length h + 1)
read_next r h v =
    let c = take r.size r.unread in
    let small : length c ≤ r.size = omega (arith, length-take r.size r.unread) in
    (
      after_fresh r (length h) c (drop r.size r.unread),
      length r.unread == 0 && ltb 0 r.size,
      read_fresh_lem r h v,
      refl,
      refl,
      fresh-Holds r h v c (drop r.size r.unread) small,
    )

-- At the end of its history the ring reads a new chunk, up to a slot long, from the front of its
-- unread data, and keeps it.
pub read_new :
    (r : Ring) (h : List Bytes)
    → Holds r h (length h)
    → (r' : Ring) × (eof : Bool) × (read r r.size ≡ ret (r', take r.size r.unread, eof))
      × (r'.unread ≡ drop r.size r.unread)
      × Holds r' (h ++ take r.size r.unread ∷ []) (length h + 1)
read_new r h v =
    let (r', eof, taken, left, size, holds) = read_next r h v in (r', eof, taken, left, holds)

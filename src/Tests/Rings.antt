-- ===== src/Tests/Rings.antt =====
-- Concrete rings.
use trivialt.Prelude.{
  ℕ, zero, suc, ◌<◌, [], ◌∷◌, ◌++◌, List, ret, panic, Bool, ◌≡◌, refl, arith, inl,
}
use trivialt.Prelude.Bytes.{Bytes, at_index, slice}
use trivialt.Prelude.Int.{pos}
use trivialt.Ring.{Ring, new_ring, read, write, unread_slots}
use trivialt.Ring.Refine.{Holds, Kept, chunk_at, read_new}
use trivialt.Ring.Replay.{read_many, read_many-unread_slots, read_panics}

-- Two slots of two bytes, after the chunks `1 2` and `3 4`; three bytes are unread.
abbrev pub two_slots : Ring
two_slots = record {
  unread = 7 ∷ 8 ∷ 9 ∷ [];
  slots = 2;
  size = 2;
  buf = 1 ∷ 2 ∷ 3 ∷ 4 ∷ [];
  slots_len = 2 ∷ 2 ∷ 0 ∷ 0 ∷ [];
  current = pos 2;
  head = pos 2;
}

abbrev pub chunks : List Bytes
chunks = (1 ∷ 2 ∷ []) ∷ (3 ∷ 4 ∷ []) ∷ []

two_slots-Kept : (i : ℕ) → i < 2 → Kept two_slots i (chunk_at chunks i)
unfolding at_index slice
two_slots-Kept zero h = record { used = refl; bytes = refl; small = omega arith }
two_slots-Kept (suc zero) h = record { used = refl; bytes = refl; small = omega arith }
two_slots-Kept (suc (suc i)) h = absurd (omega arith)

pub two_slots-Holds : Holds two_slots chunks 2
two_slots-Holds = record {
  sized = omega arith;
  slotted = omega arith;
  room = refl;
  lens = refl;
  place = refl;
  top = refl;
  behind = omega arith;
  kept = λ i a b. two_slots-Kept i a;
}

read_many-unread_slots_example :
    read_many 1 (unread_slots two_slots 1) ≡ ret (two_slots, (3 ∷ 4 ∷ []) ∷ [])
read_many-unread_slots_example =
    read_many-unread_slots 1 two_slots chunks two_slots-Holds (omega arith) (omega arith)

read_new_example :
    (r : Ring) × (eof : Bool) × (read two_slots 2 ≡ ret (r, 7 ∷ 8 ∷ [], eof))
    × (r.unread ≡ 9 ∷ [])
    × Holds r (chunks ++ (7 ∷ 8 ∷ []) ∷ []) 3
read_new_example = read_new two_slots chunks two_slots-Holds

read_panics_example : read (write (new_ring 0 512) (1 ∷ [])) 512 ≡ panic
read_panics_example = read_panics 0 512 (1 ∷ []) 512 (inl refl)

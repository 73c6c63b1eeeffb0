-- ===== src/Datagram/Read/Tail.antt =====
-- A packet at the start of a buffer that is longer: what the buffer held before does not show.
use trivialt.Prelude.{
  ℕ, zero, suc, ◌-◌, ◌≤◌, ◌<◌, [], ◌∷◌, ◌++◌, length, drop, length-append, length-drop,
  take-append_le, drop-append_le, ◌≡◌, refl, arith,
}
use trivialt.Prelude.Bytes.{Bytes, slice, at_index, slice-ok}
use trivialt.Datagram.{Datagram}
use trivialt.Datagram.Write.{set_bytes}
use trivialt.Datagram.Read.{opcode, options, validate_oack}

at_index-append : (w old : Bytes) (i : ℕ) → i < length w → at_index (w ++ old) i ≡ at_index w i
unfolding at_index
at_index-append [] old i h = absurd (omega arith)
at_index-append (x ∷ w) old zero h = refl
at_index-append (x ∷ w) old (suc i) h = at_index-append w old i (omega arith)

slice-append :
    (w old : Bytes) (lo hi : ℕ) → lo ≤ hi → hi ≤ length w → slice (w ++ old) lo hi ≡ slice w lo hi
slice-append w old lo hi h k =
    rw
      (
        slice-ok (w ++ old) lo hi h (omega (arith, length-append w old)),
        slice-ok w lo hi h k,
        drop-append_le lo w old (omega arith),
        take-append_le (hi - lo) (drop lo w) old (omega (arith, length-drop lo w)),
      )
      refl

-- The packet `w` in front of `old`.
module _ (w old : Bytes) (long : 3 ≤ length w) where
  abbrev pub front : Datagram
  front = record { buf = w ++ old; offset = length w }

  pub opcode-front : opcode front ≡ opcode (set_bytes w)
  unfolding opcode
  opcode-front = rw (slice-append w old 0 2 (omega arith) (omega arith)) refl

  pub options-front : options front ≡ options (set_bytes w)
  unfolding options
  options-front =
      rw (opcode-front, slice-append w old 2 (length w - 1) (omega arith) (omega arith)) refl

  pub validate_oack-front : validate_oack front ≡ validate_oack (set_bytes w)
  unfolding validate_oack
  validate_oack-front =
      rw
        (
          at_index-append w old (length w - 1) (omega arith),
          slice-append w old 2 (length w) (omega arith) (omega arith),
        )
        refl

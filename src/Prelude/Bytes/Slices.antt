-- ===== src/Prelude/Bytes/Slices.antt =====
-- Slices of a buffer before and after a copy into it.
use Prim.Native.Nat.{ℕ, zero, suc, ◌+◌, ◌-◌, ◌≤◌, ◌<◌}
use mathlib.Core.Logic.{◌≢◌, ◌⊎◌, inl, inr}
use mathlib.Core.Path.{◌≡◌, refl, sym, ap, ap₂, ◌∙◌}
use mathlib.Core.List.{List, [], ◌∷◌, ◌++◌, append_assoc}
use native.Mathlib.Omega.{arith}
use trivialt.Prelude.Lists.{
  length, take, drop, set, take-all, take-append_le, drop-append_le, drop-append_add,
  take-append_drop, length-append, length-take, length-drop,
}
use trivialt.Prelude.Call.{ret}
use trivialt.Prelude.Bytes.Defs.{Bytes, slice, at_index}
use trivialt.Prelude.Bytes.Laws.{slice-ok, slice-middle}

slice-append_left :
    (a x : Bytes) (lo hi : ℕ) → lo ≤ hi → hi ≤ length a → slice (a ++ x) lo hi ≡ slice a lo hi
slice-append_left a x lo hi h k =
    rw
      (
        slice-ok (a ++ x) lo hi h (omega (arith, length-append a x)),
        slice-ok a lo hi h k,
        drop-append_le lo a x (omega arith),
      )
      (ap ret (take-append_le (hi - lo) (drop lo a) x (omega (arith, length-drop lo a))))

slice-append_right :
    (a x : Bytes) (lo hi : ℕ)
    → lo ≤ hi
    → hi ≤ length x
    → slice (a ++ x) (length a + lo) (length a + hi) ≡ slice x lo hi
slice-append_right a x lo hi h k =
    let size : length a + hi - (length a + lo) ≡ hi - lo = omega arith in
    rw (
      slice-ok (a ++ x) (length a + lo) (length a + hi) (omega arith)
          (omega (arith, length-append a x)),
      slice-ok x lo hi h k,
      drop-append_add lo a x,
      size,
    )

-- The same, counted from the start of the whole.
slice-append_right_sub :
    (a x : Bytes) (lo hi : ℕ)
    → length a ≤ lo
    → lo ≤ hi
    → hi ≤ length a + length x
    → slice (a ++ x) lo hi ≡ slice x (lo - length a) (hi - length a)
slice-append_right_sub a x lo hi g h k =
    ap₂ (slice (a ++ x)) (omega arith) (omega arith)
    ∙ slice-append_right a x (lo - length a) (hi - length a) (omega arith) (omega arith)

-- `copy_at`, as the writers of a buffer have it.
abbrev copied : Bytes → ℕ → Bytes → Bytes
copied buf off b = take off buf ++ (take (length buf - off) b ++ drop (off + length b) buf)

module _ (buf : Bytes) (off : ℕ) (b : Bytes) (fits : off + length b ≤ length buf) where
  pub slice-copied_self : slice (copied buf off b) off (off + length b) ≡ ret b
  slice-copied_self = rw (take-all (length buf - off) b (omega arith)) (
      slice-middle (take off buf) b (drop (off + length b) buf) off (off + length b)
        (omega (arith, length-take off buf)) (omega (arith, length-take off buf)))

  before : (lo hi : ℕ) → lo ≤ hi → hi ≤ off → slice (copied buf off b) lo hi ≡ slice buf lo hi
  before lo hi h k =
      slice-append_left (take off buf) (take (length buf - off) b ++ drop (off + length b) buf) lo
        hi h (omega (arith, length-take off buf))
      ∙ sym (
          slice-append_left (take off buf) (drop off buf) lo hi h
            (omega (arith, length-take off buf)))
      ∙ ap (λ s. slice s lo hi) (take-append_drop off buf)

  after :
      (lo hi : ℕ)
      → lo ≤ hi
      → hi ≤ length buf
      → off + length b ≤ lo
      → slice (copied buf off b) lo hi ≡ slice buf lo hi
  after lo hi h k e =
      let a = take off buf ++ b in
      let end = off + length b in
      let size : length a ≡ end =
        omega (arith, length-append (take off buf) b, length-take off buf) in
      let size' : length (take end buf) ≡ end = omega (arith, length-take end buf) in
      let rest = length-drop end buf in
      ap (λ s. slice s lo hi)
        (rw (take-all (length buf - off) b (omega arith))
          (sym (append_assoc (take off buf) b (drop end buf))))
      ∙ slice-append_right_sub a (drop end buf) lo hi (omega arith) h (omega arith)
      ∙ ap₂ (slice (drop end buf)) (omega arith) (omega arith)
      ∙ sym
          (slice-append_right_sub (take end buf) (drop end buf) lo hi (omega arith) h (omega arith))
      ∙ ap (λ s. slice s lo hi) (take-append_drop end buf)

  -- A copy leaves what stands wholly before or behind it.
  pub slice-copied_ne :
      (lo hi : ℕ)
      → lo ≤ hi
      → hi ≤ length buf
      → (hi ≤ off) ⊎ (off + length b ≤ lo)
      → slice (copied buf off b) lo hi ≡ slice buf lo hi
  slice-copied_ne lo hi h k (inl e) = before lo hi h e
  slice-copied_ne lo hi h k (inr e) = after lo hi h k e

pub at_index-set_self : (s : List ℕ) (i v : ℕ) → i < length s → at_index (set s i v) i ≡ ret v
unfolding at_index
at_index-set_self [] i v h = absurd (omega arith)
at_index-set_self (x ∷ s) zero v h = refl
at_index-set_self (x ∷ s) (suc i) v h = at_index-set_self s i v (omega arith)

pub at_index-set_ne : (s : List ℕ) (i j v : ℕ) → i ≢ j → at_index (set s i v) j ≡ at_index s j
unfolding at_index
at_index-set_ne [] i j v h = refl
at_index-set_ne (x ∷ s) zero zero v h = absurd (h refl)
at_index-set_ne (x ∷ s) zero (suc j) v h = refl
at_index-set_ne (x ∷ s) (suc i) zero v h = refl
at_index-set_ne (x ∷ s) (suc i) (suc j) v h = at_index-set_ne s i j v (omega arith)

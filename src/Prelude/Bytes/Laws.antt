-- ===== src/Prelude/Bytes/Laws.antt =====
-- Laws of the byte string operations.
use Prim.Native.Nat.{ℕ, zero, suc, ◌+◌, ◌-◌, ◌≤◌, ◌<◌}
use mathlib.Core.Bool.{true}
use mathlib.Core.Logic.{◌≢◌, inl, inr}
use mathlib.Core.Path.{◌≡◌, refl, ap}
use mathlib.Core.List.{List, [], ◌∷◌, ◌++◌}
use mathlib.Core.Option.{none, some}
use native.Mathlib.Omega.{arith}
use trivialt.Prelude.Tests.{◌==◌, Bool-cases}
use trivialt.Prelude.Lists.{length, take, drop, All, take-exact, drop-exact, length-append}
use trivialt.Prelude.Call.{ret}
use trivialt.Prelude.Bytes.Defs.{
  Bytes, bytes_eq, index_byte, count_byte, cons_head, split, slice, put_uint16, uint16, at_index,
}

pub bytes_eq→eq : (xs ys : Bytes) → bytes_eq xs ys ≡ true → xs ≡ ys
bytes_eq→eq [] [] h = refl
bytes_eq→eq [] (y ∷ ys) h = cc
bytes_eq→eq (x ∷ xs) [] h = cc
bytes_eq→eq (x ∷ xs) (y ∷ ys) h = ground (arith, bytes_eq→eq xs ys)

pub bytes_eq_refl : (xs : Bytes) → bytes_eq xs xs ≡ true
bytes_eq_refl [] = refl
bytes_eq_refl (x ∷ xs) = ground (arith, bytes_eq_refl xs)

-- No NUL byte.
abbrev pub IsText : Bytes → Type 0
IsText = All (λ c. c ≢ 0)

-- The first NUL of a text that ends in NUL is that one.
pub index_byte-text : (s rest : Bytes) → IsText s → index_byte (s ++ 0 ∷ rest) 0 ≡ some (length s)
unfolding index_byte
index_byte-text [] rest h = refl
index_byte-text (c ∷ s) rest h = ground (arith, index_byte-text s rest h.1)

pub split-text : (s rest : Bytes) → IsText s → split (s ++ 0 ∷ rest) 0 ≡ s ∷ split rest 0
split-text [] rest h = refl
split-text (c ∷ s) rest h = ground (arith, split-text s rest h.1)

pub split-text_end : (s : Bytes) → IsText s → split s 0 ≡ s ∷ []
split-text_end [] h = refl
split-text_end (c ∷ s) h = ground (arith, split-text_end s h.1)

pub count_byte-append :
    (xs ys : Bytes) (c : ℕ) → count_byte (xs ++ ys) c ≡ count_byte xs c + count_byte ys c
count_byte-append [] ys c = omega arith
count_byte-append (x ∷ xs) ys c = ground (arith, count_byte-append xs ys c)

pub count_byte-text : (s : Bytes) → IsText s → count_byte s 0 ≡ 0
count_byte-text [] h = refl
count_byte-text (c ∷ s) h = ground (arith, count_byte-text s h.1)

-- A string splits into one piece more than it has separators.
length-cons_head : (x : ℕ) (ps : List Bytes) → ps ≢ [] → length (cons_head x ps) ≡ length ps
length-cons_head x [] h = absurd (h refl)
length-cons_head x (p ∷ ps) h = refl

pub split-ne-nil : (s : Bytes) (c : ℕ) → split s c ≢ []
split-ne-nil [] c e = cc
split-ne-nil (x ∷ s) c e = elim (Bool-cases (x == c)) [
  | inl t ↦ cc (rw t at e)
  | inr f ↦ cons_head-ne-nil x (split s c) (rw f at e)
]
  where
    cons_head-ne-nil : (y : ℕ) (ps : List Bytes) → cons_head y ps ≢ []
    cons_head-ne-nil y [] p = cc
    cons_head-ne-nil y (q ∷ ps) p = cc

pub length-split : (s : Bytes) (c : ℕ) → length (split s c) ≡ suc (count_byte s c)
length-split [] c = refl
length-split (x ∷ s) c =
    ground (arith, length-split s c, length-cons_head x (split s c), split-ne-nil s c)

pub uint16-put_uint16 : (i : ℕ) (rest : Bytes) → i < 65536 → uint16 (put_uint16 i ++ rest) ≡ ret i
unfolding uint16
uint16-put_uint16 i rest h = ap ret (omega arith)

pub slice-ok :
    (s : Bytes) (lo hi : ℕ)
    → lo ≤ hi
    → hi ≤ length s
    → slice s lo hi ≡ ret (take (hi - lo) (drop lo s))
unfolding slice
slice-ok s lo hi h k = ground arith

-- A slice cut at known seams.
pub slice-middle :
    (h m t : Bytes) (lo hi : ℕ)
    → lo ≡ length h
    → hi ≡ length h + length m
    → slice (h ++ (m ++ t)) lo hi ≡ ret m
slice-middle h m t lo hi a b =
    rw
      (
        slice-ok (h ++ (m ++ t)) lo hi (omega arith)
            (omega (arith, length-append h (m ++ t), length-append m t)),
        drop-exact lo h (m ++ t) (omega arith),
      )
      (ap ret (take-exact (hi - lo) m t (omega arith)))

pub at_index-last : (s : Bytes) (c i : ℕ) → i ≡ length s → at_index (s ++ c ∷ []) i ≡ ret c
unfolding at_index
at_index-last [] c zero e = refl
at_index-last [] c (suc i) e = absurd (omega arith)
at_index-last (x ∷ s) c zero e = absurd (omega arith)
at_index-last (x ∷ s) c (suc i) e = at_index-last s c i (omega arith)

pub at_index-lt : (s : Bytes) (i : ℕ) → i < length s → (c : ℕ) × (at_index s i ≡ ret c)
unfolding at_index
at_index-lt [] i h = absurd (omega arith)
at_index-lt (x ∷ s) zero h = (x, refl)
at_index-lt (x ∷ s) (suc i) h = at_index-lt s i (omega arith)

-- A byte that is found lies inside the string, and is counted.
pub index_byte-some :
    (s : Bytes) (c i : ℕ) → index_byte s c ≡ some i → (i < length s) × (0 < count_byte s c)
unfolding index_byte
index_byte-some [] c i h = cc
index_byte-some (x ∷ s) c i h = ground (arith, index_byte-some s c (i - 1))

pub index_byte-none : (s : Bytes) (c : ℕ) → index_byte s c ≡ none → count_byte s c ≡ 0
unfolding index_byte
index_byte-none [] c h = refl
index_byte-none (x ∷ s) c h = ground (arith, index_byte-none s c)

-- ===== src/Strconv/Laws.antt =====
-- Printed numbers are parsed back.
use trivialt.Prelude.{
  ℕ, zero, suc, ◌+◌, ◌-◌, ◌*◌, ◌/◌, ◌%◌, ◌^◌, ◌≤◌, ◌<◌, [], ◌∷◌, some, ◌≡◌, refl, arith, leb, false,
  ◌==◌, ◌∙◌, ap, sym, Bool-cases, inl, inr, All,
}
use trivialt.Prelude.Bytes.{Bytes}
use trivialt.Prelude.Int.{pos}
use trivialt.Strconv.{digits, format_uint, parse_digits, parse_uint, parse_int, max_uint64}

-- Reading the last digit of `n` after the others gives `n`.
parse_digits_step :
    (n : ℕ) (acc : Bytes) (max : ℕ)
    → n ≤ max
    → parse_digits max (n / 10) ((b'0' + n % 10) ∷ acc) ≡ parse_digits max n acc
unfolding parse_digits
parse_digits_step n acc max k =
    let value : n / 10 * 10 + (b'0' + n % 10 - b'0') ≡ n = omega arith in ground arith

parse_digits_first :
    (n : ℕ) (acc : Bytes) (max : ℕ)
    → n / 10 ≡ 0
    → n ≤ max
    → parse_digits max 0 ((b'0' + n % 10) ∷ acc) ≡ parse_digits max n acc
parse_digits_first n acc max z k = rw z at (parse_digits_step n acc max k)

-- Parsing goes on from the value that was printed, whatever follows the digits.
parse_digits-digits :
    (f n : ℕ) (acc : Bytes) (max : ℕ)
    → n < f
    → n ≤ max
    → parse_digits max 0 (digits f n acc) ≡ parse_digits max n acc
unfolding digits
parse_digits-digits zero n acc max h k = absurd (omega arith)
parse_digits-digits (suc f) n acc max h k = elim (Bool-cases (n / 10 == 0)) [
  | inl last ↦ rw last (parse_digits_first n acc max (ground arith) k)
  | inr more ↦ rw more (
      parse_digits-digits f (n / 10) ((b'0' + n % 10) ∷ acc) max (ground arith) (omega arith)
      ∙ parse_digits_step n acc max k)
]

digits-ne-nil : (f n : ℕ) (acc : Bytes) → n < f → (c : ℕ) × (s : Bytes) × (digits f n acc ≡ c ∷ s)
unfolding digits
digits-ne-nil zero n acc h = absurd (omega arith)
digits-ne-nil (suc f) n acc h = elim (Bool-cases (n / 10 == 0)) [
  | inl last ↦ (b'0' + n % 10, acc, rw last)
  | inr more ↦ rw more (digits-ne-nil f (n / 10) ((b'0' + n % 10) ∷ acc) (ground arith))
]

-- `ParseUint` reads back what `Itoa` printed, if the width holds it, and refuses it otherwise.
pub parse_uint-format_uint : (max n : ℕ) → n ≤ max → parse_uint max (format_uint n) ≡ some n
unfolding format_uint
parse_uint-format_uint max n h =
    let (c, s, e) = digits-ne-nil (suc n) n [] (omega arith) in
    rw e (
      unfold parse_uint in
      ap (parse_digits max 0) (sym e) ∙ parse_digits-digits (suc n) n [] max (omega arith) h)

-- A printed number has digits only.
abbrev pub AreDigits : Bytes → Type 0
AreDigits = All (λ c. (48 ≤ c) × (c ≤ 57))

digits-AreDigits : (f n : ℕ) (acc : Bytes) → AreDigits acc → AreDigits (digits f n acc)
unfolding digits
digits-AreDigits zero n acc h = h
digits-AreDigits (suc f) n acc h =
    let digit : (48 ≤ 48 + n % 10) × (48 + n % 10 ≤ 57) = (omega arith, omega arith) in
    elim (Bool-cases (n / 10 == 0)) [
      | inl last ↦ rw last (digit, h)
      | inr more ↦ rw more (digits-AreDigits f (n / 10) ((b'0' + n % 10) ∷ acc) (digit, h))
    ]

pub format_uint-AreDigits : (n : ℕ) → AreDigits (format_uint n)
unfolding format_uint
format_uint-AreDigits n = digits-AreDigits (suc n) n [] tt

parse_int-digits :
    (s : Bytes) (n : ℕ)
    → AreDigits s
    → n < 9223372036854775808
    → parse_uint max_uint64 s ≡ some n
    → parse_int s ≡ some (pos n)
unfolding parse_int
parse_int-digits [] n d h e = unfold parse_uint in cc
parse_int-digits (c ∷ s) n d h e =
    let plus : (c == b'+') ≡ false = ground (arith, d.0) in
    let minus : (c == b'-') ≡ false = ground (arith, d.0) in
    let small : leb (2 ^ 63) n ≡ false = ground arith in rw (plus, minus, e, small) refl

-- `ParseInt` reads back what was printed, up to the largest signed number of 64 bits.
pub parse_int-format_uint :
    (n : ℕ) → n < 9223372036854775808 → parse_int (format_uint n) ≡ some (pos n)
parse_int-format_uint n h =
    parse_int-digits (format_uint n) n (format_uint-AreDigits n) h
      (parse_uint-format_uint max_uint64 n (omega arith))

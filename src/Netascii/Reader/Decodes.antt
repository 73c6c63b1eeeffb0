-- ===== src/Netascii/Reader/Decodes.antt =====
-- On other systems than Windows the reader hands out the decoding of its stream, in any pieces.
use trivialt.Prelude.{
  if◌then◌else◌, ℕ, zero, suc, ◌≤◌, ◌<◌, [], ◌∷◌, ◌++◌, Bool, true, false, Option, none, some, ◌==◌,
  ◌≡◌, refl, sym, ap, ◌∙◌, arith, length, append-nil, take-append_drop, Bool-cases, inl, inr, drop,
  length-append,
}
use trivialt.Prelude.Bytes.{Bytes}
use trivialt.Netascii.{decode, cr, lf, nul}
use trivialt.Netascii.Reader.{
  Buffered, read_byte, unread_byte, read_unit, read, hand_on, after_cr, fill,
}

-- What the reader has not handed out.
abbrev pub stream : Buffered → Bytes
stream b = b.ahead ++ b.source

abbrev first : Bytes → Option ℕ
first [] = none
first (c ∷ s) = some c

fill_lem :
    (ahead source : Bytes)
    → ((fill ahead source).0 ≡ first (ahead ++ source))
      × (stream (fill ahead source).1 ≡ drop 1 (ahead ++ source))
unfolding fill
fill_lem [] [] = (refl, refl)
fill_lem [] (c ∷ s) = (refl, take-append_drop 4095 s)
fill_lem (c ∷ a) s = (refl, refl)

-- `ReadByte` takes the first byte of the stream, wherever it is held.
read_byte_lem :
    (b : Buffered)
    → ((read_byte b).0 ≡ first (stream b)) × (stream (read_byte b).1 ≡ drop 1 (stream b))
unfolding read_byte
read_byte_lem b = fill_lem b.ahead b.source

-- The unit that starts with CR and `d`.
abbrev unit_cr : ℕ → Bytes → Option ℕ × Bytes
unit_cr d s = if d == lf then (some lf, s) else if d == nul then (some cr, s) else (some cr, d ∷ s)

-- A unit of the decoding, and the stream behind it.
abbrev unit : Bytes → Option ℕ × Bytes
unit [] = (none, [])
unit (c ∷ []) = if c == cr then (none, []) else (some c, [])
unit (c ∷ d ∷ s) = if c == cr then unit_cr d s else (some c, d ∷ s)

after_cr-unit_cr :
    (b : Buffered) (d : ℕ) (s : Bytes)
    → stream b ≡ s
    → (some (after_cr false b d).0 ≡ (unit_cr d s).0)
      × (stream (after_cr false b d).1 ≡ (unit_cr d s).1)
unfolding after_cr
after_cr-unit_cr b d s h = elim (Bool-cases (d == lf)) [
  | inl t ↦ rw t (refl, h)
  | inr f ↦ elim (Bool-cases (d == nul)) [
    | inl t ↦ rw (f, t) (refl, h)
    | inr f' ↦ rw (f, f') (refl, ap (λ r. d ∷ r) h)
  ]
]

read_unit-unit :
    (b : Buffered) (s : Bytes)
    → stream b ≡ s
    → ((read_unit false b).0 ≡ (unit s).0) × (stream (read_unit false b).1 ≡ (unit s).1)
unfolding read_unit unread_byte
read_unit-unit b [] h =
    let (got, left) = read_byte_lem b in
    let got' : (read_byte b).0 ≡ none = got ∙ ap first h in
    let left' : stream (read_byte b).1 ≡ [] = left ∙ ap (drop 1) h in
    rw (got', read_unit) (refl, left')
read_unit-unit b (c ∷ []) h =
    let (got, left) = read_byte_lem b in
    let (got2, left2) = read_byte_lem (read_byte b).1 in
    let got' : (read_byte b).0 ≡ some c = got ∙ ap first h in
    let left' : stream (read_byte b).1 ≡ [] = left ∙ ap (drop 1) h in
    let got2' : (read_byte (read_byte b).1).0 ≡ none = got2 ∙ ap first left' in
    let left2' : stream (read_byte (read_byte b).1).1 ≡ [] = left2 ∙ ap (drop 1) left' in
    elim (Bool-cases (c == cr)) [
      | inl t ↦ rw (got', t, got2', read_unit) (refl, left2')
      | inr f ↦ rw (got', f, read_unit) (refl, left')
    ]
read_unit-unit b (c ∷ d ∷ s) h =
    let (got, left) = read_byte_lem b in
    let (got2, left2) = read_byte_lem (read_byte b).1 in
    let got' : (read_byte b).0 ≡ some c = got ∙ ap first h in
    let left' : stream (read_byte b).1 ≡ d ∷ s = left ∙ ap (drop 1) h in
    let got2' : (read_byte (read_byte b).1).0 ≡ some d = got2 ∙ ap first left' in
    let left2' : stream (read_byte (read_byte b).1).1 ≡ s = left2 ∙ ap (drop 1) left' in
    elim (Bool-cases (c == cr)) [
      | inl t ↦
          rw (got', t, got2', read_unit) (after_cr-unit_cr (read_byte (read_byte b).1).1 d s left2')
      | inr f ↦ rw (got', f, read_unit) (refl, left')
    ]

-- The decoding goes on unit by unit, and a unit takes at least one byte.
decode-unit :
    (s : Bytes) → decode s ≡ elim (unit s).0 [ none ↦ [] | some c ↦ c ∷ decode (unit s).1 ]
unfolding decode
decode-unit [] = refl
decode-unit (c ∷ []) = ground arith
decode-unit (c ∷ d ∷ s) = ground arith

unit_shorter : (s : Bytes) (c : ℕ) → (unit s).0 ≡ some c → length (unit s).1 < length s
unit_shorter [] c h = cc
unit_shorter (x ∷ []) c h = ground arith
unit_shorter (x ∷ d ∷ s) c h = ground arith

unit_end : (s : Bytes) → (unit s).0 ≡ none → (unit s).1 ≡ []
unit_end [] h = refl
unit_end (x ∷ []) h = ground arith
unit_end (x ∷ d ∷ s) h = ground arith

-- What one call of `Read` returned.
pub record Reads (b : Buffered) (n : ℕ) (r : Bytes × Bool × Buffered) : Type 0 where
  pub lossless : decode (stream b) ≡ r.0 ++ decode (stream r.2)
  pub fits : length r.0 ≤ n
  pub at_end : r.1 ≡ true → stream r.2 ≡ []
  pub filled : r.1 ≡ false → length r.0 ≡ n

hand_on-Reads :
    (b b' : Buffered) (n : ℕ) (r : Bytes × Bool × Buffered) (o : Option ℕ)
    → (unit (stream b)).0 ≡ o
    → stream b' ≡ (unit (stream b)).1
    → Reads b' n r
    → Reads b (suc n) (hand_on o b' r)
hand_on-Reads b b' n r none e left h =
    let empty : stream b' ≡ [] = left ∙ unit_end (stream b) e in
    record {
      lossless = decode-unit (stream b) ∙ rw (e, empty) (unfold decode in refl);
      fits = omega arith;
      at_end = λ _. empty;
      filled = λ p. cc;
    }
hand_on-Reads b b' n r (some c) e left h = record {
  lossless = decode-unit (stream b) ∙ rw (e, ← left) (ap (λ t. c ∷ t) h.lossless);
  fits = omega (arith, h.fits);
  at_end = h.at_end;
  filled = λ p. ap suc (h.filled p);
}

-- On systems other than Windows, one call of `Read` hands out, in order, the decoding of the
-- stream and leaves the rest of it: the slice is filled, or the stream is at its end. No unit is
-- cut, wherever the slice or the buffers end.
pub read-Reads : (n : ℕ) (b : Buffered) → Reads b n (read false n b)
unfolding read
read-Reads zero b = record {
  lossless = refl;
  fits = omega arith;
  at_end = λ e. cc;
  filled = λ e. refl;
}
read-Reads (suc n) b =
    let (got, left) = read_unit-unit b (stream b) refl in
    hand_on-Reads b (read_unit false b).1 n (read false n (read_unit false b).1)
      (read_unit false b).0 (sym got) left (read-Reads n (read_unit false b).1)

length-decode : (n : ℕ) (s : Bytes) → length s ≤ n → length (decode s) ≤ length s
unfolding decode
length-decode n [] h = omega arith
length-decode n (c ∷ []) h = ground arith
length-decode zero (c ∷ d ∷ s) h = absurd (omega arith)
length-decode (suc n) (c ∷ d ∷ s) h = ground (arith, length-decode n s, length-decode n (d ∷ s))

-- A slice longer than the stream gets all of it in one call, and EOF.
pub read_everything :
    (n : ℕ) (b : Buffered)
    → length (stream b) < n
    → ((read false n b).0 ≡ decode (stream b)) × ((read false n b).1 ≡ true)
read_everything n b h =
    let r = read-Reads n b in
    let small = length-decode (length (stream b)) (stream b) (omega arith) in
    let sizes = ap length r.lossless in
    let eof : (read false n b).1 ≡ true = elim (Bool-cases (read false n b).1) [
      | inl t ↦ t
      | inr f ↦ absurd (
          omega (
            arith,
            small,
            sizes,
            r.filled f,
            length-append (read false n b).0 (decode (stream (read false n b).2)),
          ))
    ] in
    (
      sym (append-nil (read false n b).0)
          ∙ sym (
              r.lossless
              ∙ ap (λ t. (read false n b).0 ++ decode t) (r.at_end eof)
              ∙ unfold decode in refl),
      eof,
    )

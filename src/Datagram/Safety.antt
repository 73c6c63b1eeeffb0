-- ===== src/Datagram/Safety.antt =====
-- Which received packets make the accessors and `validate` panic, and which do not.
use trivialt.Prelude.{
  ℕ, suc, ◌+◌, ◌-◌, ◌*◌, ◌%◌, ◌<◌, [], ◌∷◌, List, ret, panic, Option, none, some, ◌≡◌, ◌≢◌, ◌↔◌,
  refl, ap, arith, length, take, ltb, true, false, take-all,
}
use trivialt.Prelude.Bytes.{
  Bytes, at_index-lt, index_byte-some, slice, slice-ok, at_index, index_byte, split, count_byte,
  length-split, uint16,
}
use trivialt.Datagram.{Datagram, Options}
use trivialt.Datagram.Write.{set_bytes}
use trivialt.Datagram.Read.{
  validate, validate_fields, validate_request, validate_error, validate_oack, is_request, opcode,
  filename, mode, second, read_pairs, options, put,
}

-- The loop of `options` over the pieces: it panics exactly on an odd number of them.
pub read_pairs_even :
    (ps : List Bytes) (m : Options) → length ps % 2 ≡ 0 → (r : Options) × (read_pairs m ps ≡ ret r)
unfolding read_pairs
read_pairs_even [] m h = (m, refl)
read_pairs_even (o ∷ []) m h = absurd (omega arith)
read_pairs_even (o ∷ v ∷ ps) m h = read_pairs_even ps (put m o v) (omega arith)

read_pairs_odd : (ps : List Bytes) (m : Options) → length ps % 2 ≡ 1 → read_pairs m ps ≡ panic
unfolding read_pairs
read_pairs_odd [] m h = absurd (omega arith)
read_pairs_odd (o ∷ []) m h = refl
read_pairs_odd (o ∷ v ∷ ps) m h = read_pairs_odd ps (put m o v) (omega arith)

-- The bytes between the opcode and the last byte.
abbrev pub inner : Bytes → Bytes
inner rest = take (length rest - 1) rest

opcode-eq : (a b : ℕ) (rest : Bytes) → opcode (set_bytes (a ∷ b ∷ rest)) ≡ ret (a * 256 + b)
unfolding opcode uint16
opcode-eq a b rest = rw (slice-ok (a ∷ b ∷ rest) 0 2 (omega arith) (omega arith))

inner-eq :
    (a b c : ℕ) (rest : Bytes)
    → let p = a ∷ b ∷ c ∷ rest in slice p 2 (length p - 1) ≡ ret (inner (c ∷ rest))
inner-eq a b c rest =
    let p : Bytes = a ∷ b ∷ c ∷ rest in
    let size : length p - 1 - 2 ≡ suc (length rest) - 1 = omega arith in
    rw (slice-ok p 2 (length p - 1) (omega arith) (omega arith))
      (ap (λ k. ret (take k (c ∷ rest))) size)

options-eq :
    (a b c : ℕ) (rest : Bytes)
    → is_request (a * 256 + b) ≡ false
    → options (set_bytes (a ∷ b ∷ c ∷ rest)) ≡ read_pairs [] (split (inner (c ∷ rest)) 0)
unfolding options
options-eq a b c rest h =
    let long : ltb 0 (length (a ∷ b ∷ c ∷ rest)) ≡ true = ground arith in
    rw (long, inner-eq a b c rest, opcode-eq a b (c ∷ rest), h)

-- On a datagram that is no request `options` reads a map if the number of NUL bytes between the
-- opcode and the last byte is odd, and panics if it is even.
pub options_by_count :
    (a b c : ℕ) (rest : Bytes)
    → is_request (a * 256 + b) ≡ false
    → (count_byte (inner (c ∷ rest)) 0 % 2 ≡ 1
        → (m : Options) × (options (set_bytes (a ∷ b ∷ c ∷ rest)) ≡ ret m))
      × (count_byte (inner (c ∷ rest)) 0 % 2 ≡ 0 → options (set_bytes (a ∷ b ∷ c ∷ rest)) ≡ panic)
options_by_count a b c rest h =
    let pieces = split (inner (c ∷ rest)) 0 in
    let size : length pieces ≡ suc (count_byte (inner (c ∷ rest)) 0) =
      length-split (inner (c ∷ rest)) 0 in
    (
      λ odd. rw (options-eq a b c rest h) (read_pairs_even pieces [] (omega arith)),
      λ even. rw (options-eq a b c rest h) (read_pairs_odd pieces [] (omega arith)),
    )

second-returns : (ps : List Bytes) → 1 < length ps → (b : Bytes) × (second ps ≡ ret b)
unfolding second
second-returns [] h = absurd (omega arith)
second-returns (a ∷ []) h = absurd (omega arith)
second-returns (a ∷ b ∷ ps) h = (b, refl)

-- A packet of two bytes or more, its opcode, and what follows.
module _ (a b : ℕ) (rest : Bytes) where
  abbrev packet : Datagram
  packet = set_bytes (a ∷ b ∷ rest)

  rest-eq : slice packet.buf 2 (length packet.buf) ≡ ret rest
  rest-eq =
      rw (slice-ok packet.buf 2 (length packet.buf) (omega arith) (omega arith))
        (ap ret (take-all (length packet.buf - 2) rest (omega arith)))

  last-returns : (c : ℕ) × (at_index packet.buf (packet.offset - 1) ≡ ret c)
  last-returns = at_index-lt packet.buf (packet.offset - 1) (omega arith)

  filename-panics : index_byte rest 0 ≡ none → filename packet ≡ panic
  unfolding filename
  filename-panics h = rw (rest-eq, h) (unfold slice in ground arith)

  filename-returns : (i : ℕ) → index_byte rest 0 ≡ some i → (n : Bytes) × (filename packet ≡ ret n)
  unfolding filename
  filename-returns i h =
      let (fits, counted) = index_byte-some rest 0 i h in
      (
        take (i + 2 - 2) rest,
        rw (rest-eq, h) (slice-ok packet.buf 2 (i + 2) (omega arith) (omega arith)),
      )

  mode-returns : (i : ℕ) → index_byte rest 0 ≡ some i → (m : Bytes) × (mode packet ≡ ret m)
  unfolding mode
  mode-returns i h =
      let (fits, counted) = index_byte-some rest 0 i h in
      rw rest-eq (second-returns (split rest 0) (omega (arith, length-split rest 0)))

  request-panics : index_byte rest 0 ≡ none → validate_request packet ≡ panic
  unfolding validate_request
  request-panics h = rw (filename-panics h)

  request-returns : (i : ℕ) → index_byte rest 0 ≡ some i → validate_request packet ≢ panic
  unfolding validate_request
  request-returns i h e =
      ground (arith, filename-returns i h, last-returns, rest-eq, mode-returns i h)

  error-returns : validate_error packet ≢ panic
  unfolding validate_error
  error-returns e = ground (arith, last-returns, slice-ok packet.buf 4 packet.offset)

  oack-returns : validate_oack packet ≢ panic
  unfolding validate_oack
  oack-returns e = ground (arith, last-returns, rest-eq)

  request-panics_only : validate_request packet ≡ panic → index_byte rest 0 ≡ none
  request-panics_only e = cases (index_byte rest 0) refl
    where
      cases : (o : Option ℕ) → index_byte rest 0 ≡ o → index_byte rest 0 ≡ none
      cases none h = h
      cases (some i) h = absurd (request-returns i h e)

  fields-panics_only :
      (op : ℕ)
      → validate_fields packet op ≡ panic
      → (is_request op ≡ true) × (index_byte rest 0 ≡ none)
  unfolding validate_fields
  fields-panics_only op e = ground (arith, request-panics_only, error-returns, oack-returns)

  -- `validate` panics on a packet of two bytes or more exactly if it is a request with no NUL
  -- behind its opcode; on every other such packet it gives a verdict.
  pub validate-panic_iff :
      (validate packet ≡ panic) ↔ ((is_request (a * 256 + b) ≡ true) × (index_byte rest 0 ≡ none))
  unfolding validate
  validate-panic_iff = (
    λ e. ground (arith, opcode-eq a b rest, fields-panics_only (a * 256 + b)),
    λ h. rw (opcode-eq a b rest) (unfold validate_fields in ground (arith, request-panics h.1)),
  )

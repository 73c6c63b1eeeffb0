-- ===== src/Datagram/Text/Total.antt =====
-- Printing a datagram does not panic where `validate` does not.
use trivialt.Prelude.{
  ℕ, zero, suc, ◌+◌, ◌-◌, ◌*◌, ◌%◌, ◌≤◌, ◌<◌, [], ◌∷◌, List, Go, ret, panic, ◌>>=◌, bind-eq-ret,
  Returns, bind-Returns, lt→ltb, none, some, Bool, true, false, ltb, ◌==◌, not, if◌then◌else◌,
  length, take, drop, ◌≡◌, ◌≢◌, inl, inr, refl, sym, ap, ◌∙◌, arith, Bool-cases,
}
use trivialt.Prelude.Bytes.{
  Bytes, at_index, slice, slice-ok, split, count_byte, length-split, uint16,
}
use trivialt.Datagram.{Datagram}
use trivialt.Datagram.Read.{
  Invalid, no_opcode, invalid_opcode, no_filename, corrupt_request, mail_mode, invalid_mode,
  corrupt_block, corrupt_error, corrupt_oack, Verdict, validate, validate_fields, validate_request,
  validate_error, validate_oack, check_mode, opcode, block, content, error_code, err_msg, filename,
  mode, options, is_request, skip_two,
}
use trivialt.Datagram.Safety.{read_pairs_even}
use trivialt.Datagram.Text.{string, invalid_string, valid_string, request_string}

-- Taking one more byte, a NUL, adds one to the count.
count_byte-take_next :
    (s : Bytes) (j : ℕ)
    → at_index s j ≡ ret 0
    → count_byte (take (suc j) s) 0 ≡ suc (count_byte (take j s) 0)
unfolding at_index
count_byte-take_next [] j h = cc
count_byte-take_next (x ∷ s) zero h = ground arith
count_byte-take_next (x ∷ s) (suc j) h = ground (arith, count_byte-take_next s j)

skip_two-returns :
    (ps : List Bytes)
    → 2 ≤ length ps
    → (qs : List Bytes) × (skip_two ps ≡ ret qs) × (length ps ≡ suc (suc (length qs)))
unfolding skip_two
skip_two-returns [] h = absurd (omega arith)
skip_two-returns (a ∷ []) h = absurd (omega arith)
skip_two-returns (a ∷ b ∷ ps) h = (ps, refl, refl)

-- A guard that did not give an error.
passed :
    (x : Bool) (e : Invalid) (m : Go Verdict)
    → (if x then ret (some e) else m) ≡ ret none
    → (x ≡ false) × (m ≡ ret none)
passed true e m h = absurd (no_error h)
  where
    no_error : ret (some e) ≢ ret none
    no_error p = cc
passed false e m h = (refl, h)

not_above : (n : ℕ) → ltb 6 n ≡ false → n ≤ 6
not_above n h = ground arith

uint16-Returns : (s : Bytes) → 2 ≤ length s → Returns (uint16 (take 2 s))
unfolding uint16
uint16-Returns [] h = absurd (omega arith)
uint16-Returns (a ∷ []) h = absurd (omega arith)
uint16-Returns (a ∷ b ∷ s) h = (a * 256 + b, refl)

-- A datagram with an opcode, what follows it, and the part of it that is in use.
module _ (a b : ℕ) (s : Bytes) (k : ℕ) (fits : k ≤ length s) where
  abbrev d : Datagram
  d = record { buf = a ∷ b ∷ s; offset = suc (suc k) }

  opcode-d : opcode d ≡ ret (a * 256 + b)
  unfolding opcode uint16
  opcode-d = rw (slice-ok d.buf 0 2 (omega arith) (omega arith)) refl

  -- The bytes in use end in NUL.
  ends_in_nul :
      (op : ℕ)
      → op ≡ a * 256 + b
      → op ≤ 6
      → op ≢ 0
      → at_index d.buf (d.offset - 1) ≡ ret 0
      → (j : ℕ) × (k ≡ suc j) × (at_index s j ≡ ret 0)
  unfolding at_index
  ends_in_nul op e small ne h = by_size k refl
    where
      by_size : (n : ℕ) → k ≡ n → (j : ℕ) × (k ≡ suc j) × (at_index s j ≡ ret 0)
      by_size zero z =
          let low : at_index (a ∷ b ∷ s) 1 ≡ ret 0 = rw z at h in
          let zero_low : b ≡ 0 = cc in absurd (omega arith)
      by_size (suc j) z =
          let place : suc (suc (suc j)) - 1 ≡ suc (suc j) = omega arith in
          (j, z, rw (z, place) at h)

  pieces_even :
      (j : ℕ)
      → k ≡ suc j
      → at_index s j ≡ ret 0
      → count_byte (take k s) 0 % 2 ≡ 0
      → (length (split (take j s) 0) % 2 ≡ 0) × (2 ≤ length (split (take j s) 0))
  pieces_even j e h even =
      let more : count_byte (take (suc j) s) 0 ≡ suc (count_byte (take j s) 0) =
        count_byte-take_next s j h in
      let even' : count_byte (take (suc j) s) 0 % 2 ≡ 0 = rw e at even in
      (omega (arith, length-split (take j s) 0), omega (arith, length-split (take j s) 0))

  slice_to : (j : ℕ) → j ≤ k → slice d.buf 2 (suc (suc j)) ≡ ret (take j s)
  slice_to j h =
      let size : suc (suc j) - 2 ≡ j = omega arith in
      rw (slice-ok d.buf 2 (suc (suc j)) (omega arith) (omega arith))
        (ap (λ n. ret (take n s)) size)

  -- The checks of a request that follow the name, and those that follow its last byte.
  abbrev check_fields : Bytes → Go Verdict
  check_fields fields =
      if not (count_byte fields 0 % 2 == 0)
      then ret (some corrupt_request)
      else (do m ← mode d; ret (check_mode m))

  abbrev check_last : ℕ → Go Verdict
  check_last last =
      if not (last == 0)
      then ret (some corrupt_request)
      else (do fields ← slice d.buf 2 d.offset; check_fields fields)

  -- What `validate` has seen of a request that it accepts.
  request_seen :
      validate_request d ≡ ret none
      → (name : Bytes) × (m : Bytes) × (filename d ≡ ret name)
        × (mode d ≡ ret m)
        × (at_index d.buf (d.offset - 1) ≡ ret 0)
        × (count_byte (take k s) 0 % 2 ≡ 0)
  unfolding validate_request
  request_seen h =
      let (name, n, r) = bind-eq-ret (filename d) _ h in
      let (named, r1) =
        passed (ltb (length name) 1) no_filename
          (do last ← at_index d.buf (d.offset - 1); check_last last) r in
      let (last, l, r2) = bind-eq-ret (at_index d.buf (d.offset - 1)) check_last r1 in
      let (nul, r3) =
        passed (not (last == 0)) corrupt_request
          (do fields ← slice d.buf 2 d.offset; check_fields fields) r2 in
      let (fields, f, r4) = bind-eq-ret (slice d.buf 2 d.offset) check_fields r3 in
      let (even, r5) =
        passed (not (count_byte fields 0 % 2 == 0)) corrupt_request
          (do m ← mode d; ret (check_mode m)) r4 in
      let (m, t, r6) = bind-eq-ret (mode d) _ r5 in
      let same : ret (take k s) ≡ ret fields = sym (slice_to k (omega arith)) ∙ f in
      let taken : fields ≡ take k s = cc in
      let zero_last : last ≡ 0 = ground arith in
      let even_fields : count_byte fields 0 % 2 ≡ 0 = ground arith in
      (name, m, n, t, l ∙ ap ret zero_last, ap (λ x. count_byte x 0 % 2) (sym taken) ∙ even_fields)

  -- What an accepted OACK has passed.
  oack_seen :
      validate_oack d ≡ ret none
      → (at_index d.buf (d.offset - 1) ≡ ret 0) × (count_byte (take k s) 0 % 2 ≡ 0)
  unfolding validate_oack
  oack_seen h =
      let (last, l, r) = bind-eq-ret (at_index d.buf (d.offset - 1)) _ h in
      let (nul, r1) =
        passed (not (last == 0)) corrupt_oack
          (do
            text ← slice d.buf 2 d.offset
            ret (if count_byte text 0 % 2 == 0 then none else some corrupt_oack))
          r in
      let (text, f, r2) =
        bind-eq-ret (slice d.buf 2 d.offset)
          (λ text. ret (if count_byte text 0 % 2 == 0 then none else some corrupt_oack)) r1 in
      let same : ret (take k s) ≡ ret text = sym (slice_to k (omega arith)) ∙ f in
      let taken : text ≡ take k s = cc in
      let zero_last : last ≡ 0 = ground arith in
      let even : count_byte text 0 % 2 ≡ 0 = ground arith in
      (l ∙ ap ret zero_last, ap (λ x. count_byte x 0 % 2) (sym taken) ∙ even)

  -- The options of a datagram whose fields each end in NUL.
  options-Returns :
      (op : ℕ)
      → op ≡ a * 256 + b
      → op ≤ 6
      → op ≢ 0
      → at_index d.buf (d.offset - 1) ≡ ret 0
      → count_byte (take k s) 0 % 2 ≡ 0
      → Returns (options d)
  unfolding options
  options-Returns op e small ne nul even =
      let (j, size, at_j) = ends_in_nul op e small ne nul in
      let (even_pieces, two) = pieces_even j size at_j even in
      let place : d.offset - 1 ≡ suc (suc j) = omega arith in
      let (rest, skipped, shorter) = skip_two-returns (split (take j s) 0) two in
      elim (Bool-cases (is_request op)) [
        | inl t ↦
            let (m, r) = read_pairs_even rest [] (omega arith) in
            (
              m,
              rw
                  (
                    lt→ltb 0 d.offset (omega arith),
                    place,
                    slice_to j (omega arith),
                    opcode-d,
                    sym e,
                    t,
                    skipped,
                  )
                  r,
            )
        | inr f ↦
            let (m, r) = read_pairs_even (split (take j s) 0) [] even_pieces in
            (
              m,
              rw
                  (
                    lt→ltb 0 d.offset (omega arith),
                    place,
                    slice_to j (omega arith),
                    opcode-d,
                    sym e,
                    f,
                  )
                  r,
            )
      ]

  long_enough :
      ◌≡◌ {A = Go Verdict} (ret (if ltb d.offset 4 then some corrupt_block else none)) (ret none)
      → 4 ≤ d.offset
  long_enough h = ground arith

  block-Returns : 4 ≤ d.offset → Returns (block d)
  unfolding block
  block-Returns h =
      rw (slice-ok d.buf 2 4 (omega arith) (omega arith)) (uint16-Returns s (omega arith))

  error_code-Returns : 4 ≤ d.offset → Returns (error_code d)
  unfolding error_code
  error_code-Returns h =
      rw (slice-ok d.buf 2 4 (omega arith) (omega arith)) (uint16-Returns s (omega arith))

  content-Returns : 4 ≤ d.offset → Returns (content d)
  unfolding content
  content-Returns h = (_, slice-ok d.buf 4 d.offset (omega arith) (omega arith))

  err_msg-Returns : 5 ≤ d.offset → Returns (err_msg d)
  unfolding err_msg
  err_msg-Returns h = (
    take (d.offset - 1 - 4) (drop 4 d.buf),
    rw (lt→ltb 0 d.offset (omega arith))
        (slice-ok d.buf 4 (d.offset - 1) (omega arith) (omega arith)),
  )

  error_long : validate_error d ≡ ret none → 5 ≤ d.offset
  unfolding validate_error
  error_long h = ground arith

  request_string-Returns :
      (quote : Bytes → Bytes) (op shown : ℕ)
      → op ≡ a * 256 + b
      → op ≤ 6
      → op ≢ 0
      → validate_request d ≡ ret none
      → Returns (request_string quote d shown)
  unfolding request_string
  request_string-Returns quote op shown e small ne h =
      let (name, m, n, t, nul, even) = request_seen h in
      bind-Returns (filename d) _ (name, n)
        (λ name'.
          bind-Returns (mode d) _ (m, t)
            (λ m'.
              bind-Returns (options d) _ (options-Returns op e small ne nul even) (λ o. (_, refl))))

  valid_string-Returns :
      (quote : Bytes → Bytes) (op : ℕ)
      → op ≡ a * 256 + b
      → op ≤ 6
      → validate_fields d op ≡ ret none
      → Returns (valid_string quote d op)
  unfolding validate_fields valid_string is_request
  valid_string-Returns quote zero e small h = (_, refl)
  valid_string-Returns quote (suc zero) e small h =
      request_string-Returns quote 1 1 e small (omega arith) h
  valid_string-Returns quote (suc (suc zero)) e small h =
      request_string-Returns quote 2 2 e small (omega arith) h
  valid_string-Returns quote (suc (suc (suc zero))) e small h =
      let long = long_enough h in
      bind-Returns (block d) _ (block-Returns long)
        (λ n. bind-Returns (content d) _ (content-Returns long) (λ c. (_, refl)))
  valid_string-Returns quote (suc (suc (suc (suc zero)))) e small h =
      bind-Returns (block d) _ (block-Returns (long_enough h)) (λ n. (_, refl))
  valid_string-Returns quote (suc (suc (suc (suc (suc zero))))) e small h =
      let long = error_long h in
      bind-Returns (error_code d) _ (error_code-Returns (omega arith))
        (λ n. bind-Returns (err_msg d) _ (err_msg-Returns long) (λ m. (_, refl)))
  valid_string-Returns quote (suc (suc (suc (suc (suc (suc zero)))))) e small h =
      let (nul, even) = oack_seen h in
      bind-Returns (options d) _ (options-Returns 6 e small (omega arith) nul even) (λ o. (_, refl))
  valid_string-Returns quote (suc (suc (suc (suc (suc (suc (suc n))))))) e small h =
      absurd (omega arith)

  invalid_string-Returns :
      (quote : Bytes → Bytes) (e : Invalid) → Returns (invalid_string quote d e)
  unfolding invalid_string
  invalid_string-Returns quote corrupt_request = rw opcode-d (_, refl)
  invalid_string-Returns quote no_opcode = (_, refl)
  invalid_string-Returns quote invalid_opcode = (_, refl)
  invalid_string-Returns quote no_filename = (_, refl)
  invalid_string-Returns quote mail_mode = (_, refl)
  invalid_string-Returns quote invalid_mode = (_, refl)
  invalid_string-Returns quote corrupt_block = (_, refl)
  invalid_string-Returns quote corrupt_error = (_, refl)
  invalid_string-Returns quote corrupt_oack = (_, refl)

  -- A valid datagram has passed the checks of its opcode.
  fields_seen :
      validate d ≡ ret none → (a * 256 + b ≤ 6) × (validate_fields d (a * 256 + b) ≡ ret none)
  unfolding validate
  fields_seen h =
      let (long, r) =
        passed (ltb d.offset 2) no_opcode
          (do op ← opcode d; if ltb 6 op then ret (some invalid_opcode) else validate_fields d op)
          h in
      let r1 = rw opcode-d at r in
      let (small, r2) =
        passed (ltb 6 (a * 256 + b)) invalid_opcode (validate_fields d (a * 256 + b)) r1 in
      (not_above (a * 256 + b) small, r2)

  string-d : (quote : Bytes → Bytes) (v : Verdict) → validate d ≡ ret v → Returns (string quote d)
  unfolding string
  string-d quote (some e) h = rw h (invalid_string-Returns quote e)
  string-d quote none h =
      let (small, seen) = fields_seen h in
      rw (h, opcode-d) (valid_string-Returns quote (a * 256 + b) refl small seen)

too_short : (quote : Bytes → Bytes) (d : Datagram) → d.offset < 2 → Returns (string quote d)
unfolding string validate invalid_string
too_short quote d h = rw (lt→ltb d.offset 2 h) (_, refl)

string-Returns :
    (quote : Bytes → Bytes) (buf : Bytes) (offset : ℕ)
    → offset ≤ length buf
    → (v : Verdict) → validate (record { buf = buf; offset = offset }) ≡ ret v
    → Returns (string quote (record { buf = buf; offset = offset }))
string-Returns quote buf zero fits v h = too_short quote _ (omega arith)
string-Returns quote buf (suc zero) fits v h = too_short quote _ (omega arith)
string-Returns quote [] (suc (suc k)) fits v h = absurd (omega arith)
string-Returns quote (a ∷ []) (suc (suc k)) fits v h = absurd (omega arith)
string-Returns quote (a ∷ b ∷ s) (suc (suc k)) fits v h = string-d a b s k (omega arith) quote v h

-- Printing a datagram whose end is inside its buffer, to the log or inside an error, does not
-- panic where `validate` does not, however the texts are quoted.
pub string_lem :
    (quote : Bytes → Bytes) (d : Datagram)
    → d.offset ≤ length d.buf
    → validate d ≢ panic
    → string quote d ≢ panic
string_lem quote d fits safe printed =
    let (v, h) = not_panic (validate d) safe in
    let (t, r) = string-Returns quote d.buf d.offset fits v h in cc
  where
    not_panic : (m : Go Verdict) → m ≢ panic → Returns m
    not_panic (ret v) p = (v, refl)
    not_panic panic p = absurd (p refl)

-- ===== src/Datagram/Message/Payload.antt =====
-- Reading the payloads: a text that ends in NUL, and pairs of them.
use trivialt.Prelude.{
  subst, if◌then◌else◌, true, append-nil, ℕ, ◌+◌, ◌-◌, ◌%◌, ◌≤◌, [], ◌∷◌, ◌++◌, ret, none, ◌≡◌, ◌≢◌,
  refl, ap, sym, arith, length, length-append, append_assoc, inl, inr, ◌⊎◌, ltb, ◌==◌,
}
use trivialt.Prelude.Bytes.{
  Bytes, IsText, put_uint16, slice, slice-middle, at_index-last, at_index, index_byte-text, split,
  split-text, count_byte, count_byte-append, count_byte-text,
}
use trivialt.Datagram.{Datagram, Options, op_rrq, op_wrq, op_error, mode_netascii, mode_octet}
use trivialt.Datagram.Write.{set_bytes}
use trivialt.Datagram.Write.Wire.{error_wire, options_wire}
use trivialt.Datagram.Read.{
  is_request, check_mode, skip_two, validate_oack, validate_request, validate_error, filename, mode,
  options,
}
use trivialt.Datagram.Read.Fields.{opcode-wire}
use trivialt.Datagram.Read.Pairs.{
  AreTexts, AreDistinct, text_of, pieces, options_wire-text_of, split-text_of,
  count_byte-options_wire, read_pairs-pieces,
}

-- The last byte of a payload that ends in NUL, and the payload with and without it.
module _ (head text : Bytes) where
  abbrev pub packet : Bytes
  packet = head ++ (text ++ 0 ∷ [])

  pub length-packet : length packet ≡ length head + length text + 1
  length-packet = omega (arith, length-append head (text ++ 0 ∷ []), length-append text (0 ∷ []))

  pub last_byte : at_index packet (length packet - 1) ≡ ret 0
  last_byte = rw (← append_assoc) (
      at_index-last (head ++ text) 0 (length ((head ++ text) ++ 0 ∷ []) - 1)
        (omega (arith, length-append (head ++ text) (0 ∷ []))))

  pub without_last : slice packet (length head) (length packet - 1) ≡ ret text
  without_last =
      slice-middle head text (0 ∷ []) (length head) (length packet - 1) refl
        (omega (arith, length-packet))

  pub with_last : slice packet (length head) (length packet) ≡ ret (text ++ 0 ∷ [])
  with_last = rw (append-nil (text ++ 0 ∷ [])) at (
      slice-middle head (text ++ 0 ∷ []) [] (length head) (length packet) refl
        (omega (arith, length-packet, length-append text (0 ∷ []))))

pub failure-valid :
    (code : ℕ) (msg : Bytes)
    → IsText msg
    → validate_error (set_bytes (error_wire code msg)) ≡ ret none
unfolding validate_error
failure-valid code msg t =
    let head = put_uint16 op_error ++ put_uint16 code in
    ground (
      arith,
      last_byte head msg,
      with_last head msg,
      count_byte-append msg (0 ∷ []) 0,
      count_byte-text msg t,
      length-append msg (0 ∷ []),
    )

-- The payload of pairs, for OACK and for the requests, cut before its last NUL.
module _ (op : ℕ) (k v : Bytes) (m : Options) (t : AreTexts ((k, v) ∷ m)) where
  abbrev pub pairs : Datagram
  pairs = set_bytes (packet (put_uint16 op) (text_of k v m))

  pub pairs-eq : put_uint16 op ++ options_wire ((k, v) ∷ m) ≡ packet (put_uint16 op) (text_of k v m)
  pairs-eq = ap (λ w. put_uint16 op ++ w) (options_wire-text_of k v m)

  pub pairs_even : (count_byte (text_of k v m ++ 0 ∷ []) 0 % 2 == 0) ≡ true
  pairs_even =
      rw (← options_wire-text_of k v m) (ground (arith, count_byte-options_wire ((k, v) ∷ m) t))

  pub pairs_split : split (text_of k v m) 0 ≡ k ∷ v ∷ pieces m
  pairs_split = split-text_of k v m t

  pub oack-valid : validate_oack pairs ≡ ret none
  unfolding validate_oack
  oack-valid =
      rw (last_byte (put_uint16 op) (text_of k v m), with_last (put_uint16 op) (text_of k v m))
        (ground (arith, pairs_even))

  pub options-pairs :
      (r : Options)
      → op ≤ 6
      → (if is_request op then skip_two (k ∷ v ∷ pieces m) else ret (k ∷ v ∷ pieces m))
        ≡ ret (pieces r)
      → AreDistinct r
      → options pairs ≡ ret r
  unfolding options
  options-pairs r h e u =
      let some_bytes : ltb 0 pairs.offset ≡ true = ground (arith) in
      rw
        (
          some_bytes,
          without_last (put_uint16 op) (text_of k v m),
          opcode-wire pairs op 0 (text_of k v m ++ 0 ∷ []) refl (omega arith),
          pairs_split,
          e,
        )
        (read_pairs-pieces r u)

module _ (op : ℕ) (k v rest : Bytes) (kt : IsText k) (vt : IsText v) where
  abbrev pub request : Datagram
  request = set_bytes (put_uint16 op ++ (k ++ 0 ∷ (v ++ 0 ∷ rest)))

  pub whole : slice request.buf 2 (length request.buf) ≡ ret (k ++ 0 ∷ (v ++ 0 ∷ rest))
  whole = rw (append-nil (k ++ 0 ∷ (v ++ 0 ∷ rest))) at (
      slice-middle (put_uint16 op) (k ++ 0 ∷ (v ++ 0 ∷ rest)) [] 2 (length request.buf) refl
        (omega arith))

  pub filename-request : filename request ≡ ret k
  unfolding filename
  filename-request =
      rw (whole, index_byte-text k (v ++ 0 ∷ rest) kt)
        (slice-middle (put_uint16 op) k (0 ∷ (v ++ 0 ∷ rest)) 2 (length k + 2) refl (omega arith))

  pub mode-request : mode request ≡ ret v
  unfolding mode
  mode-request = rw (whole, split-text k (v ++ 0 ∷ rest) kt, split-text v rest vt)

-- A request as the constructors build it: the options are the rest of the pairs.
module _ (op : ℕ) (k v : Bytes) (m : Options) (kt : IsText k) (vt : IsText v)
    (mt : AreTexts m) where
  abbrev built_request : Datagram
  built_request = request op k v (options_wire m) kt vt

  same : put_uint16 op ++ options_wire ((k, v) ∷ m) ≡ packet (put_uint16 op) (text_of k v m)
  same = pairs-eq op k v m ((kt, vt), mt)

  last-request : at_index built_request.buf (built_request.offset - 1) ≡ ret 0
  last-request =
      subst (λ w. at_index w (length w - 1) ≡ ret 0) (sym same)
        (last_byte (put_uint16 op) (text_of k v m))

  fields-request :
      slice built_request.buf 2 built_request.offset ≡ ret (k ++ 0 ∷ (v ++ 0 ∷ options_wire m))
  fields-request = whole op k v (options_wire m) kt vt

  even-request : (count_byte (k ++ 0 ∷ (v ++ 0 ∷ options_wire m)) 0 % 2 == 0) ≡ true
  even-request = ground (arith, count_byte-options_wire ((k, v) ∷ m) ((kt, vt), mt))

  check_mode-request : (v ≡ mode_netascii) ⊎ (v ≡ mode_octet) → check_mode v ≡ none
  unfolding check_mode
  check_mode-request (inl e) = rw e
  check_mode-request (inr e) = rw e

  pub request-valid :
      k ≢ [] → (v ≡ mode_netascii) ⊎ (v ≡ mode_octet) → validate_request built_request ≡ ret none
  unfolding validate_request
  request-valid ne mv = rw (filename-request op k v (options_wire m) kt vt) (
      ground (
        arith,
        last-request,
        fields-request,
        even-request,
        mode-request op k v (options_wire m) kt vt,
        check_mode-request mv,
        ne,
      ))

  pub options-request : op ≡ op_rrq ⊎ op ≡ op_wrq → AreDistinct m → options built_request ≡ ret m
  options-request which u =
      subst (λ w. options (set_bytes w) ≡ ret m) (sym same)
        (options-pairs op k v m ((kt, vt), mt) m (ground arith)
          (unfold is_request skip_two in ground arith) u)

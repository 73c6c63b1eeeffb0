-- ===== src/Datagram/Message/RoundTrip.antt =====
-- Every sendable message is read back from the bytes that the constructors produce for it.
use trivialt.Prelude.{
  false, ℕ, suc, ◌≤◌, ◌<◌, [], ◌∷◌, ◌++◌, ret, ◌>>=◌, none, some, ◌≡◌, refl, ◌∙◌, arith, length,
  inl, inr, ◌⊎◌, ltb,
}
use trivialt.Prelude.Bytes.{Bytes, IsText, put_uint16}
use trivialt.Datagram.{Datagram, Options, op_rrq, op_wrq, op_data, op_ack, op_error, op_oack}
use trivialt.Datagram.Write.{set_bytes, write_read_req, write_write_req}
use trivialt.Datagram.Write.Wire.{
  ack_wire, data_wire, error_wire, oack_wire, req_wire, options_wire, write_ack_lem, write_data_lem,
  write_error_lem, write_option_ack_lem, write_req_lem,
}
use trivialt.Datagram.Read.{
  is_request, validate, validate_fields, opcode, err_msg, filename, mode, options,
}
use trivialt.Datagram.Read.Fields.{opcode-wire, block-wire, content-wire, error_code-wire}
use trivialt.Datagram.Read.Pairs.{text_of}
use trivialt.Datagram.Message.Payload.{
  without_last, failure-valid, pairs-eq, oack-valid, options-pairs, request, filename-request,
  mode-request, request-valid, options-request,
}
use trivialt.Datagram.Message.{
  Message, read_request, write_request, data_block, ack, failure, option_ack, encode, decode,
  IsSendable, IsRequest, fields, accepted,
}

validate-wire :
    (op : ℕ) (rest : Bytes)
    → op ≤ 6
    → validate_fields (set_bytes (put_uint16 op ++ rest)) op ≡ ret none
    → validate (set_bytes (put_uint16 op ++ rest)) ≡ ret none
unfolding validate
validate-wire op rest h v =
    let d = set_bytes (put_uint16 op ++ rest) in
    let code : opcode d ≡ ret op = opcode-wire d op 0 rest refl (omega arith) in
    let long : ltb (suc (suc (length rest))) 2 ≡ false = ground arith in
    let known : ltb 6 op ≡ false = ground arith in rw (long, code, known) v

-- A packet with opcode `op` that the case of `op` accepts is read by that case.
decode-eq-fields :
    (op : ℕ) (rest : Bytes)
    → op ≤ 6
    → validate_fields (set_bytes (put_uint16 op ++ rest)) op ≡ ret none
    → decode (put_uint16 op ++ rest) ≡ fields (set_bytes (put_uint16 op ++ rest)) op
unfolding decode accepted
decode-eq-fields op rest h v =
    let d = set_bytes (put_uint16 op ++ rest) in
    let code : opcode d ≡ ret op = opcode-wire d op 0 rest refl (omega arith) in
    rw (validate-wire op rest h v) (rw code)

decode-ack : (n : ℕ) → n < 65536 → decode (ack_wire n) ≡ ret (some (ack n))
decode-ack n h =
    decode-eq-fields op_ack (put_uint16 n) (omega arith) (unfold validate_fields in refl)
    ∙ unfold fields in rw (block-wire (set_bytes (ack_wire n)) op_ack n [] refl h)

decode-data : (n : ℕ) (c : Bytes) → n < 65536 → decode (data_wire n c) ≡ ret (some (data_block n c))
decode-data n c h =
    decode-eq-fields op_data (put_uint16 n ++ c) (omega arith)
      (unfold validate_fields in ground arith)
    ∙ unfold fields in
      rw (
        block-wire (set_bytes (data_wire n c)) op_data n c refl h,
        content-wire (set_bytes (data_wire n c)) op_data n c refl refl,
      )

decode-failure :
    (code : ℕ) (msg : Bytes)
    → code < 65536
    → IsText msg
    → decode (error_wire code msg) ≡ ret (some (failure code msg))
decode-failure code msg h t =
    decode-eq-fields op_error (put_uint16 code ++ (msg ++ 0 ∷ [])) (omega arith)
      (unfold validate_fields in failure-valid code msg t)
    ∙ unfold fields err_msg in
      rw (error_code-wire (set_bytes (error_wire code msg)) op_error code (msg ++ 0 ∷ []) refl h)
        (ground (arith, without_last (put_uint16 op_error ++ put_uint16 code) msg))

decode-option_ack :
    (m : Options) → IsSendable (option_ack m) → decode (oack_wire m) ≡ ret (some (option_ack m))
decode-option_ack [] h = absurd (h.0 refl)
decode-option_ack ((k, v) ∷ m) h = rw (pairs-eq op_oack k v m h.1) (
    decode-eq-fields op_oack (text_of k v m ++ 0 ∷ []) (omega arith)
      (unfold validate_fields is_request in oack-valid op_oack k v m h.1)
    ∙ unfold fields in
      rw (
        options-pairs op_oack k v m h.1 ((k, v) ∷ m) (omega arith) (unfold is_request in refl) h.2))

-- The fields of a request, whichever of the two it is.
module _ (op : ℕ) (which : op ≡ op_rrq ⊎ op ≡ op_wrq) (name m : Bytes) (opts : Options)
    (h : IsRequest name m opts) where
  mode_text : IsText m
  mode_text = elim h.2 [ inl e ↦ rw e (omega arith) | inr e ↦ rw e (omega arith) ]

  pub request-wire_valid : validate (set_bytes (req_wire op name m opts)) ≡ ret none
  request-wire_valid = validate-wire op (name ++ 0 ∷ (m ++ 0 ∷ options_wire opts)) (ground arith) (
      unfold validate_fields is_request in
      ground (arith, request-valid op name m opts h.0 mode_text h.3 h.1 h.2))

  decode-request :
      decode (req_wire op name m opts)
      ≡ fields (request op name m (options_wire opts) h.0 mode_text) op
  decode-request = decode-eq-fields op (name ++ 0 ∷ (m ++ 0 ∷ options_wire opts)) (ground arith) (
      unfold validate_fields is_request in
      ground (arith, request-valid op name m opts h.0 mode_text h.3 h.1 h.2))

  pub fields-name : filename (set_bytes (req_wire op name m opts)) ≡ ret name
  fields-name = filename-request op name m (options_wire opts) h.0 mode_text

  pub fields-mode : mode (set_bytes (req_wire op name m opts)) ≡ ret m
  fields-mode = mode-request op name m (options_wire opts) h.0 mode_text

  pub fields-options : options (set_bytes (req_wire op name m opts)) ≡ ret opts
  fields-options = options-request op name m opts h.0 mode_text h.3 which h.4

decode-read_request :
    (name m : Bytes) (opts : Options)
    → IsRequest name m opts
    → decode (req_wire op_rrq name m opts) ≡ ret (some (read_request name m opts))
decode-read_request name m opts h =
    decode-request op_rrq (inl refl) name m opts h
    ∙ unfold fields in
      rw (
        fields-name op_rrq (inl refl) name m opts h,
        fields-mode op_rrq (inl refl) name m opts h,
        fields-options op_rrq (inl refl) name m opts h,
      )

decode-write_request :
    (name m : Bytes) (opts : Options)
    → IsRequest name m opts
    → decode (req_wire op_wrq name m opts) ≡ ret (some (write_request name m opts))
decode-write_request name m opts h =
    decode-request op_wrq (inr refl) name m opts h
    ∙ unfold fields in
      rw (
        fields-name op_wrq (inr refl) name m opts h,
        fields-mode op_wrq (inr refl) name m opts h,
        fields-options op_wrq (inr refl) name m opts h,
      )

-- Every message that the package can send is read back exactly from the bytes that its constructor
-- leaves in the datagram, whatever that datagram held before: the packet validates, no accessor
-- panics, and the fields, the options among them, are those written. The message has numbers of 16
-- bits and no NUL in its texts; a request has a file name that is not empty and one of the modes
-- netascii and octet, its options have distinct names, and an OACK has at least one option, with
-- distinct names.
pub decode-encode :
    (d : Datagram) (msg : Message) → IsSendable msg → (encode d msg >>= decode) ≡ ret (some msg)
unfolding encode write_read_req write_write_req
decode-encode d (read_request name m opts) h =
    rw (write_req_lem d op_rrq name m opts) (decode-read_request name m opts h)
decode-encode d (write_request name m opts) h =
    rw (write_req_lem d op_wrq name m opts) (decode-write_request name m opts h)
decode-encode d (data_block n c) h = rw (write_data_lem d n c) (decode-data n c h)
decode-encode d (ack n) h = rw (write_ack_lem d n) (decode-ack n h)
decode-encode d (failure code msg) h =
    rw (write_error_lem d code msg) (decode-failure code msg h.0 h.1)
decode-encode d (option_ack opts) h = rw (write_option_ack_lem d opts) (decode-option_ack opts h)

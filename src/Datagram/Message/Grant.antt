-- ===== src/Datagram/Message/Grant.antt =====
-- An OACK at the start of a receive buffer.
use trivialt.Prelude.{
  ◌≤◌, [], ◌∷◌, ◌++◌, ret, none, false, ltb, length, length-append, ◌≡◌, refl, sym, subst, ◌∙◌,
  arith,
}
use trivialt.Prelude.Bytes.{Bytes}
use trivialt.Datagram.{Options, op_oack}
use trivialt.Datagram.Write.{set_bytes}
use trivialt.Datagram.Write.Wire.{oack_wire, options_wire}
use trivialt.Datagram.Read.{is_request, validate, validate_fields, validate_oack, opcode, options}
use trivialt.Datagram.Read.Fields.{opcode-wire}
use trivialt.Datagram.Read.Tail.{front, opcode-front, options-front, validate_oack-front}
use trivialt.Datagram.Message.{option_ack, IsSendable}
use trivialt.Datagram.Message.Payload.{pairs-eq, oack-valid, options-pairs}

pub length-oack_wire : (m : Options) → IsSendable (option_ack m) → 3 ≤ length (oack_wire m)
length-oack_wire [] h = absurd (h.0 refl)
length-oack_wire ((k, v) ∷ m) h = omega (arith, length-append k (0 ∷ (v ++ 0 ∷ options_wire m)))

validate_oack-oack :
    (m : Options) → IsSendable (option_ack m) → validate_oack (set_bytes (oack_wire m)) ≡ ret none
validate_oack-oack [] h = absurd (h.0 refl)
validate_oack-oack ((k, v) ∷ m) h =
    subst (λ w. validate_oack (set_bytes w) ≡ ret none) (sym (pairs-eq op_oack k v m h.1))
      (oack-valid op_oack k v m h.1)

options-oack : (m : Options) → IsSendable (option_ack m) → options (set_bytes (oack_wire m)) ≡ ret m
options-oack [] h = absurd (h.0 refl)
options-oack ((k, v) ∷ m) h =
    subst (λ w. options (set_bytes w) ≡ ret ((k, v) ∷ m)) (sym (pairs-eq op_oack k v m h.1))
      (options-pairs op_oack k v m h.1 ((k, v) ∷ m) (omega arith) (unfold is_request in refl) h.2)

-- It validates, and its options are read, whatever the buffer held before.
module _ (m : Options) (old : Bytes) (h : IsSendable (option_ack m)) where
  pub opcode-oack_wire : opcode (front (oack_wire m) old (length-oack_wire m h)) ≡ ret op_oack
  opcode-oack_wire =
      opcode-front (oack_wire m) old (length-oack_wire m h)
      ∙ opcode-wire (set_bytes (oack_wire m)) op_oack 0 (options_wire m) refl (omega arith)

  pub validate-oack_wire : validate (front (oack_wire m) old (length-oack_wire m h)) ≡ ret none
  unfolding validate validate_fields is_request
  validate-oack_wire =
      let long : ltb (length (oack_wire m)) 2 ≡ false = ground (arith, length-oack_wire m h) in
      let accepted =
        validate_oack-front (oack_wire m) old (length-oack_wire m h) ∙ validate_oack-oack m h in
      rw (long, opcode-oack_wire, accepted) refl

  pub options-oack_wire : options (front (oack_wire m) old (length-oack_wire m h)) ≡ ret m
  options-oack_wire = options-front (oack_wire m) old (length-oack_wire m h) ∙ options-oack m h

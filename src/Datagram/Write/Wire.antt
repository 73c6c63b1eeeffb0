-- ===== src/Datagram/Write/Wire.antt =====
-- What the constructors put on the wire, whatever the buffer held before.
use trivialt.Prelude.{
  ℕ, ◌+◌, [], ◌∷◌, ◌++◌, ret, ◌>>=◌, ◌≡◌, refl, arith, length, length-append, append_assoc,
}
use trivialt.Prelude.Bytes.{Bytes, put_uint16}
use trivialt.Datagram.{Datagram, Options, op_data, op_ack, op_error, op_oack}
use trivialt.Datagram.Write.{
  bytes, write_bytes, write_null, write_string, write_uint16, write_option, write_ack, write_data,
  write_error, options_length, write_options, write_option_ack, write_req,
}
use trivialt.Datagram.Write.Appends.{
  Appends, bind-Appends, write_bytes-Appends, write_string-Appends, write_null-Appends,
  write_uint16-Appends, ret-Appends, built,
}

-- The encodings, as lists of bytes.
abbrev pub options_wire : Options → Bytes
options_wire [] = []
options_wire ((o, v) ∷ rest) = o ++ 0 ∷ (v ++ 0 ∷ options_wire rest)

abbrev pub ack_wire : ℕ → Bytes
ack_wire block = put_uint16 op_ack ++ put_uint16 block

abbrev pub data_wire : ℕ → Bytes → Bytes
data_wire block content = put_uint16 op_data ++ (put_uint16 block ++ content)

abbrev pub error_wire : ℕ → Bytes → Bytes
error_wire code msg = put_uint16 op_error ++ (put_uint16 code ++ (msg ++ 0 ∷ []))

abbrev pub oack_wire : Options → Bytes
oack_wire options = put_uint16 op_oack ++ options_wire options

abbrev pub req_wire : ℕ → Bytes → Bytes → Options → Bytes
req_wire op filename mode options =
    put_uint16 op ++ (filename ++ 0 ∷ (mode ++ 0 ∷ options_wire options))

write_option-Appends : (o v : Bytes) → Appends (λ d. write_option d o v) (o ++ 0 ∷ (v ++ 0 ∷ []))
unfolding write_option
write_option-Appends o v = bind-Appends _ _ o _ (write_string-Appends o) (
    bind-Appends _ _ (0 ∷ []) _ write_null-Appends
      (bind-Appends _ _ v _ (write_string-Appends v) write_null-Appends))

write_options-Appends : (m : Options) → Appends (λ d. write_options d m) (options_wire m)
unfolding write_options
write_options-Appends [] = ret-Appends
write_options-Appends ((o, v) ∷ m) = rw pieces (
    bind-Appends _ _ (o ++ 0 ∷ (v ++ 0 ∷ [])) _ (write_option-Appends o v)
      (write_options-Appends m))
  where
    pieces : o ++ 0 ∷ (v ++ 0 ∷ options_wire m) ≡ (o ++ 0 ∷ (v ++ 0 ∷ [])) ++ options_wire m
    pieces = rw (append_assoc, append_assoc)

length-options_wire : (m : Options) → options_length m ≡ length (options_wire m)
unfolding options_length
length-options_wire [] = refl
length-options_wire ((o, v) ∷ m) =
    rw (length-append, length-append) (omega (arith, length-options_wire m))

-- An ACK is its opcode and its block number, whatever the buffer held before: nothing panics.
pub write_ack_lem :
    (d : Datagram) (block : ℕ) → (write_ack d block >>= bytes) ≡ ret (ack_wire block)
unfolding write_ack
write_ack_lem d block =
    built (λ d. write_uint16 d op_ack >>= λ d. write_uint16 d block) (ack_wire block) 4 d
      (bind-Appends _ _ (put_uint16 op_ack) _ (write_uint16-Appends op_ack)
        (write_uint16-Appends block))
      refl

pub write_data_lem :
    (d : Datagram) (block : ℕ) (content : Bytes)
    → (write_data d block content >>= bytes) ≡ ret (data_wire block content)
unfolding write_data
write_data_lem d block content =
    built (λ d. write_uint16 d op_data >>= λ d. write_uint16 d block >>= λ d. write_bytes d content)
      (data_wire block content) (2 + 2 + length content) d
      (bind-Appends _ _ (put_uint16 op_data) _ (write_uint16-Appends op_data) (
        bind-Appends _ _ (put_uint16 block) _ (write_uint16-Appends block)
          (write_bytes-Appends content)))
      (omega arith)

pub write_error_lem :
    (d : Datagram) (code : ℕ) (msg : Bytes)
    → (write_error d code msg >>= bytes) ≡ ret (error_wire code msg)
unfolding write_error
write_error_lem d code msg =
    built
      (λ d. write_uint16 d op_error >>= λ d.
        write_uint16 d code >>= λ d. write_string d msg >>= write_null)
      (error_wire code msg) (2 + 2 + length msg + 1) d
      (bind-Appends _ _ (put_uint16 op_error) _ (write_uint16-Appends op_error) (
        bind-Appends _ _ (put_uint16 code) _ (write_uint16-Appends code)
          (bind-Appends _ _ msg _ (write_string-Appends msg) write_null-Appends)))
      (omega (arith, length-append msg (0 ∷ [])))

pub write_option_ack_lem :
    (d : Datagram) (m : Options) → (write_option_ack d m >>= bytes) ≡ ret (oack_wire m)
unfolding write_option_ack
write_option_ack_lem d m =
    built (λ d. write_uint16 d op_oack >>= λ d. write_options d m) (oack_wire m)
      (2 + options_length m) d
      (bind-Appends _ _ (put_uint16 op_oack) _ (write_uint16-Appends op_oack)
        (write_options-Appends m))
      (omega (arith, length-options_wire m))

pub write_req_lem :
    (d : Datagram) (op : ℕ) (name mode : Bytes) (m : Options)
    → (write_req d op name mode m >>= bytes) ≡ ret (req_wire op name mode m)
unfolding write_req
write_req_lem d op name mode m =
    built
      (λ d. write_uint16 d op >>= λ d. write_string d name >>= λ d.
        write_null d >>= λ d. write_string d mode >>= λ d. write_null d >>= λ d. write_options d m)
      (req_wire op name mode m) (2 + length name + 1 + length mode + 1 + options_length m) d
      (bind-Appends _ _ (put_uint16 op) _ (write_uint16-Appends op) (
        bind-Appends _ _ name _ (write_string-Appends name) (
          bind-Appends _ _ (0 ∷ []) _ write_null-Appends (
            bind-Appends _ _ mode _ (write_string-Appends mode)
              (bind-Appends _ _ (0 ∷ []) _ write_null-Appends (write_options-Appends m))))))
      (omega (
        arith,
        length-append name (0 ∷ (mode ++ 0 ∷ options_wire m)),
        length-append mode (0 ∷ options_wire m),
        length-options_wire m,
      ))

-- ===== src/Datagram/Text.antt =====
-- `datagram.String` and `options.String` of datagram.go, and the texts of `validate`. How `%q` quotes a
-- text is left to the user of the definitions.
pub mod Total
use trivialt.Prelude.{
  ℕ, [], ◌∷◌, ◌++◌, Go, ret, ◌>>=◌, Option, none, some, ◌==◌, ◌||◌, if◌then◌else◌, length, List,
}
use trivialt.Prelude.Bytes.{Bytes, codes}
use trivialt.Strconv.{format_uint}
use trivialt.Datagram.{
  Datagram, Options, op_rrq, op_wrq, op_data, op_ack, op_error, op_oack, opcode_string,
  error_string,
}
use trivialt.Datagram.Read.{
  Invalid, no_opcode, invalid_opcode, no_filename, corrupt_request, mail_mode, invalid_mode,
  corrupt_block, corrupt_error, corrupt_oack, validate, opcode, block, content, error_code, err_msg,
  filename, mode, options, is_request,
}

-- The texts of the errors that `validate` returns; one of them names the opcode.
abbrev pub invalid_text : ℕ → Invalid → Bytes
invalid_text op no_opcode = codes "Datagram has no opcode"
invalid_text op invalid_opcode = codes "Invalid opcode"
invalid_text op no_filename = codes "No filename provided"
invalid_text op corrupt_request = codes "Corrupt " ++ (opcode_string op ++ codes " datagram")
invalid_text op mail_mode = codes "MAIL transfer mode is unsupported"
invalid_text op invalid_mode = codes "Invalid transfer mode"
invalid_text op corrupt_block = codes "Corrupt block number"
invalid_text op corrupt_error = codes "Corrupt ERROR datagram"
invalid_text op corrupt_oack = codes "Corrupt OACK datagram"

-- `strings.Join(s, sep)`
abbrev pub join : Bytes → List Bytes → Bytes
join sep [] = []
join sep (a ∷ []) = a
join sep (a ∷ b ∷ rest) = a ++ (sep ++ join sep (b ∷ rest))

module _ (quote : Bytes → Bytes) where
  abbrev pub option_texts : Options → List Bytes
  option_texts [] = []
  option_texts ((k, v) ∷ m) = (quote k ++ (codes ": " ++ quote v)) ∷ option_texts m

  -- `options.String`
  abbrev pub options_string : Options → Bytes
  options_string m = codes "{" ++ (join (codes "; ") (option_texts m) ++ codes "}")

  -- The opcode of an invalid datagram is read only where its text names it.
  unfoldable pub invalid_string : Datagram → Invalid → Go Bytes
  invalid_string d corrupt_request = do
    op ← opcode d
    ret (codes "INVALID_DATAGRAM[Error: " ++ (quote (invalid_text op corrupt_request) ++ codes "]"))
  invalid_string d e =
      ret (codes "INVALID_DATAGRAM[Error: " ++ (quote (invalid_text 0 e) ++ codes "]"))

  request_string : Datagram → ℕ → Go Bytes
  request_string d op = do
    name ← filename d
    m ← mode d
    opts ← options d
    ret (
        opcode_string op
        ++ (codes "[Filename: "
            ++ (quote name
                ++ (codes "; Mode: "
                    ++ (quote m ++ (codes "; Options: " ++ (options_string opts ++ codes "]")))))))

  -- The switch on the opcode of a valid datagram.
  unfoldable pub valid_string : Datagram → ℕ → Go Bytes
  unfolding request_string
  valid_string d op =
      if is_request op
      then request_string d op
      else if op == op_data
      then (do
        n ← block d
        b ← content d
        ret (
            opcode_string op
            ++ (codes "[Block: "
                ++ (format_uint n
                    ++ (codes "; Data Length: " ++ (format_uint (length b) ++ codes "]"))))))
      else if op == op_oack
      then (do
        opts ← options d
        ret (opcode_string op ++ (codes "[Options: " ++ (options_string opts ++ codes "]"))))
      else if op == op_ack
      then (do
        n ← block d
        ret (opcode_string op ++ (codes "[Block: " ++ (format_uint n ++ codes "]"))))
      else if op == op_error
      then (do
        n ← error_code d
        m ← err_msg d
        ret (
            opcode_string op
            ++ (codes "[Code: "
                ++ (error_string n ++ (codes "; Message: " ++ (quote m ++ codes "]"))))))
      else ret (opcode_string op)

  -- `datagram.String`
  unfoldable pub string : Datagram → Go Bytes
  unfolding invalid_string valid_string
  string d = do
    v ← validate d
    elim v [ some e ↦ invalid_string d e | none ↦ do op ← opcode d; valid_string d op ]

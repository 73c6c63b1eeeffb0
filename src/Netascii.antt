-- ===== src/Netascii.antt =====
-- netascii/netascii.go: the encoding writer and the decoding reader, with what they use of `bufio`.
pub mod Writer
pub mod Reader
pub mod RoundTrip
use trivialt.Prelude.{ℕ, zero, suc, ◌+◌, [], ◌∷◌, Bool, true, false, ◌==◌, not, ◌&&◌, if◌then◌else◌}
use trivialt.Prelude.Bytes.{Bytes}

abbrev pub cr : ℕ
cr = 13

abbrev pub lf : ℕ
lf = 10

abbrev pub nul : ℕ
nul = 0

-- The encoding of a text behind a byte `last`: LF becomes CRLF, and CR becomes CRNUL unless LF or
-- NUL follows it already.
unfoldable pub encode_from : ℕ → Bytes → Bytes
encode_from last [] = []
encode_from last (c ∷ s) =
    let rest = encode_from c s in
    if c == lf && not (last == cr)
    then cr ∷ c ∷ rest
    else if last == cr && (not (c == lf) && not (c == nul))
    then nul ∷ c ∷ rest
    else c ∷ rest

-- The text of an encoded stream: CRLF is a new line, CRNUL is CR, and a CR in front of any other
-- byte stays. A CR at the end is dropped.
unfoldable pub decode : Bytes → Bytes
decode [] = []
decode (c ∷ []) = if c == cr then [] else c ∷ []
decode (c ∷ b ∷ s) =
    let rest = decode s in
    let rest' = decode (b ∷ s) in
    if c == cr
    then (if b == lf then lf ∷ rest else if b == nul then cr ∷ rest else cr ∷ rest')
    else c ∷ rest'

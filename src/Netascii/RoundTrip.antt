-- ===== src/Netascii/RoundTrip.antt =====
-- What the writer encodes, the reader decodes, and where that fails.
use trivialt.Prelude.{
  ℕ, suc, ◌<◌, [], ◌∷◌, ◌++◌, List, true, false, if◌then◌else◌, ◌==◌, ◌≡◌, ◌≢◌, ◌⊎◌, inl, inr, refl,
  sym, ap, ◌∙◌, arith, length, Bool-cases,
}
use trivialt.Prelude.Bytes.{Bytes}
use trivialt.Netascii.{encode_from, decode, cr, lf, nul}
use trivialt.Netascii.Writer.{new_writer, flush}
use trivialt.Netascii.Writer.Encodes.{append}
use trivialt.Netascii.Writer.Flush.{write_all, concat, flush-write_all}
use trivialt.Netascii.Reader.{Buffered, read}
use trivialt.Netascii.Reader.Decodes.{stream, read-Reads, read_everything}

-- A text that netascii can carry as it is: its last byte is no CR, and no CR stands in front of LF
-- or NUL.
abbrev pub IsLocal : Bytes → Type 0
IsLocal [] = Unit
IsLocal (c ∷ []) = c ≢ cr
IsLocal (c ∷ d ∷ s) = ((c ≢ cr) ⊎ ((d ≢ lf) × (d ≢ nul))) × IsLocal (d ∷ s)

decode-plain : (c : ℕ) (s : Bytes) → c ≢ cr → decode (c ∷ s) ≡ c ∷ decode s
unfolding decode
decode-plain c [] h = ground arith
decode-plain c (d ∷ s) h = ground arith

decode-crlf : (s : Bytes) → decode (cr ∷ lf ∷ s) ≡ lf ∷ decode s
unfolding decode
decode-crlf s = refl

decode-crnul : (s : Bytes) → decode (cr ∷ nul ∷ s) ≡ cr ∷ decode s
unfolding decode
decode-crnul s = refl

decode-encode_from :
    (s : Bytes) (last : ℕ) → IsLocal s → last ≢ cr → decode (encode_from last s) ≡ s
unfolding encode_from
decode-encode_from [] last h ne = unfold decode in refl
decode-encode_from (c ∷ []) last h ne =
    ground (arith, decode-plain c [], decode-crlf [], decode-encode_from [] c tt)
decode-encode_from (c ∷ d ∷ s) last h ne = ground (
  arith,
  decode-plain c (encode_from c (d ∷ s)),
  decode-crlf (encode_from lf (d ∷ s)),
  decode-crnul (d ∷ encode_from d s),
  decode-encode_from (d ∷ s) c h.1,
  decode-encode_from (d ∷ s) 0 h.1,
)

-- What reaches the buffer below.
abbrev pub sent : List Bytes → Bytes
sent ps = (flush Bytes append (write_all (new_writer Bytes append []) ps)).0.w.sink

append-nil_left : (xs ys : Bytes) → xs ++ ys ≡ [] → xs ≡ []
append-nil_left [] ys h = refl
append-nil_left (x ∷ xs) ys h = cc

-- The encoding of the package's documentation, byte for byte: LF to CRLF and CR to CRNUL.
abbrev pub documented : Bytes → Bytes
documented [] = []
documented (c ∷ s) =
    let rest = documented s in
    if c == lf then cr ∷ lf ∷ rest else if c == cr then cr ∷ nul ∷ rest else c ∷ rest

encode_from-documented :
    (s : Bytes) (last : ℕ) → IsLocal s → last ≢ cr → encode_from last s ≡ documented s
unfolding encode_from
encode_from-documented [] last h ne = refl
encode_from-documented (c ∷ []) last h ne = ground arith
encode_from-documented (c ∷ d ∷ s) last h ne =
    ground (arith, encode_from-documented (d ∷ s) c h.1, encode_from-documented (d ∷ s) 0 h.1)

-- A text that netascii can carry (no CR at its end or in front of LF or NUL), written in whatever
-- pieces and whatever buffers filled up on the way, is after `Flush` in the buffer below as the
-- package documents it: each LF as CRLF, each CR as CRNUL, and every other byte as it is.
pub flush-documented : (ps : List Bytes) → IsLocal (concat ps) → sent ps ≡ documented (concat ps)
flush-documented ps h = flush-write_all ps ∙ encode_from-documented (concat ps) 0 h (omega arith)

-- On systems other than Windows, a text that netascii can carry (no CR at its end or in front of
-- LF or NUL), written in any pieces and flushed, is what one `Read` with room for more than the
-- encoding hands out, together with EOF.
pub read-flush-write_all :
    (ps : List Bytes) (n : ℕ)
    → IsLocal (concat ps)
    → length (sent ps) < n
    → let (out, eof, b) = read false n (record { ahead = []; source = sent ps }) in
      (out ≡ concat ps) × (eof ≡ true)
read-flush-write_all ps n h long =
    let (out, eof) = read_everything n (record { ahead = []; source = sent ps }) long in
    (out ∙ ap decode (flush-write_all ps) ∙ decode-encode_from (concat ps) 0 h (omega arith), eof)

-- On systems other than Windows, a CR that is the last byte at hand is lost: `Read` hands out
-- nothing for it and reports EOF. If NUL and `t` arrive after that, they are read as NUL and `t`,
-- where the whole stream has CR.
pub read_split_cr :
    (n : ℕ) (t : Bytes) (b : Buffered)
    → stream b ≡ cr ∷ []
    → let (out, eof, b') = read false (suc n) b in
      (out ≡ [])
      × (eof ≡ true)
      × (decode (stream b' ++ nul ∷ t) ≡ nul ∷ decode t)
      × (decode (stream b ++ nul ∷ t) ≡ cr ∷ decode t)
read_split_cr n t b h =
    let r = read-Reads (suc n) b in
    let nothing : decode (stream b) ≡ [] = ap decode h ∙ unfold decode in refl in
    let parts : read_out ≡ [] =
      append-nil_left read_out (decode (stream (read false (suc n) b).2))
        (sym r.lossless ∙ nothing) in
    let eof : (read false (suc n) b).1 ≡ true = elim (Bool-cases (read false (suc n) b).1) [
      | inl e ↦ e
      | inr f ↦ absurd (omega (arith, r.filled f, ap length parts))
    ] in
    (
      parts,
      eof,
      ap (λ s. decode (s ++ nul ∷ t)) (r.at_end eof) ∙ decode-plain nul t (omega arith),
      ap (λ s. decode (s ++ nul ∷ t)) h ∙ decode-crnul t,
    )
  where
    read_out : Bytes
    read_out = (read false (suc n) b).0

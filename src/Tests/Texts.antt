-- ===== src/Tests/Texts.antt =====
-- Concrete netascii texts: 97 is a letter, 13 is CR and 10 is LF.
use trivialt.Prelude.{◌++◌, [], ◌∷◌, List, true, false, ◌≡◌, refl, ◌∙◌, arith, inl, inr}
use trivialt.Prelude.Bytes.{Bytes}
use trivialt.Netascii.{encode_from, decode, nul, cr}
use trivialt.Netascii.Writer.{Encoder, write}
use trivialt.Netascii.Writer.Encodes.{append, stream as written, write_lem}
use trivialt.Netascii.Writer.Flush.{flush-write_all}
use trivialt.Netascii.Reader.{Buffered, read}
use trivialt.Netascii.Reader.Decodes.{stream, Reads, read-Reads}
use trivialt.Netascii.RoundTrip.{
  IsLocal, sent, flush-documented, read-flush-write_all, read_split_cr,
}

abbrev pieces : List Bytes
pieces = (97 ∷ 13 ∷ []) ∷ (97 ∷ 10 ∷ []) ∷ []

abbrev source : Buffered
source = record { ahead = 13 ∷ []; source = 10 ∷ 97 ∷ [] }

abbrev fresh : Encoder Bytes append
fresh = record { w = record { pending = []; sink = []; failed = false }; last = 13 }

IsLocal-pieces : IsLocal (97 ∷ 13 ∷ 97 ∷ 10 ∷ [])
IsLocal-pieces =
    (inl (omega arith), (inr (omega arith, omega arith), (inl (omega arith), omega arith)))

sent-pieces : sent pieces ≡ 97 ∷ 13 ∷ 0 ∷ 97 ∷ 13 ∷ 10 ∷ []
sent-pieces = flush-write_all pieces ∙ unfold encode_from in refl

read-flush-write_all_example :
    let (out, eof, b) = read false 9 (record { ahead = []; source = sent pieces }) in
    (out ≡ 97 ∷ 13 ∷ 97 ∷ 10 ∷ []) × (eof ≡ true)
read-flush-write_all_example =
    read-flush-write_all pieces 9 IsLocal-pieces (rw sent-pieces (omega arith))

read-Reads_example : Reads source 1 (read false 1 source)
read-Reads_example = read-Reads 1 source

read_split_cr_example :
    let (out, eof, b') = read false 4 (record { ahead = 13 ∷ []; source = [] }) in
    (out ≡ [])
    × (eof ≡ true)
    × (decode (stream b' ++ nul ∷ 97 ∷ []) ≡ nul ∷ decode (97 ∷ []))
    × (decode (13 ∷ nul ∷ 97 ∷ []) ≡ cr ∷ decode (97 ∷ []))
read_split_cr_example = read_split_cr 3 (97 ∷ []) (record { ahead = 13 ∷ []; source = [] }) refl

write_lem_example :
    let (e', n, good) = write Bytes append fresh (97 ∷ []) in
    (good ≡ true)
    × (n ≡ 1)
    × (e'.w.failed ≡ false)
    × (written e' ≡ encode_from 13 (97 ∷ []))
    × (e'.last ≡ 97)
write_lem_example = write_lem fresh (97 ∷ []) refl

flush-documented_example : sent pieces ≡ 97 ∷ 13 ∷ 0 ∷ 97 ∷ 13 ∷ 10 ∷ []
flush-documented_example = flush-documented pieces IsLocal-pieces

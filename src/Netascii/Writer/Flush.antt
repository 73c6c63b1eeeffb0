-- ===== src/Netascii/Writer/Flush.antt =====
-- Writing a text in pieces and flushing: the buffer below has the encoding of the whole.
use trivialt.Prelude.{
  List, ◌==◌, Bool-cases, inl, inr, ℕ, [], ◌∷◌, ◌++◌, true, false, ◌≡◌, refl, sym, ap, ◌∙◌, arith,
  length, append-nil, append_assoc,
}
use trivialt.Prelude.Bytes.{Bytes}
use trivialt.Netascii.{encode_from}
use trivialt.Netascii.Writer.{Encoder, new_writer, write, flush, flush_buffer}
use trivialt.Netascii.Writer.Encodes.{append, stream, write_lem, last_of, mark, encode_from-cons}

nil_of_length : (s : Bytes) → length s ≡ 0 → s ≡ []
nil_of_length [] h = refl
nil_of_length (c ∷ s) h = absurd (omega arith)

-- `Flush` leaves everything written in the buffer below, and nothing behind.
pub flush_lem :
    (e : Encoder Bytes append)
    → e.w.failed ≡ false
    → let (e', good) = flush Bytes append e in
      (good ≡ true) × (e'.w.sink ≡ stream e) × (e'.w.pending ≡ []) × (e'.last ≡ e.last)
unfolding flush flush_buffer
flush_lem e h = elim (Bool-cases (length e.w.pending == 0)) [
  | inl t ↦
      let empty : e.w.pending ≡ [] = nil_of_length e.w.pending (ground arith) in
      rw (h, t) (refl, rw empty (sym (append-nil e.w.sink)), empty, refl)
  | inr f ↦ rw (h, f) (refl, refl, refl, refl)
]

encode_from-append :
    (p q : Bytes) (last : ℕ)
    → encode_from last (p ++ q) ≡ encode_from last p ++ encode_from (last_of last p) q
encode_from-append [] q last = unfold encode_from in refl
encode_from-append (c ∷ p) q last =
    rw (encode_from-cons last c (p ++ q), encode_from-cons last c p, append_assoc)
      (ap (λ t. mark last c ++ c ∷ t) (encode_from-append p q c))

-- A caller's writes, one after the other.
abbrev pub write_all : Encoder Bytes append → List Bytes → Encoder Bytes append
write_all e [] = e
write_all e (p ∷ ps) = write_all (write Bytes append e p).0 ps

abbrev pub concat : List Bytes → Bytes
concat [] = []
concat (p ∷ ps) = p ++ concat ps

write_all-stream :
    (ps : List Bytes) (e : Encoder Bytes append)
    → e.w.failed ≡ false
    → ((write_all e ps).w.failed ≡ false)
      × (stream (write_all e ps) ≡ stream e ++ encode_from e.last (concat ps))
write_all-stream [] e h = (h, unfold encode_from in sym (append-nil (stream e)))
write_all-stream (p ∷ ps) e h =
    let (good, counted, working, streamed, last) = write_lem e p h in
    let (still, more) = write_all-stream ps (write Bytes append e p).0 working in
    (
      still,
      more
          ∙ rw (streamed, last, encode_from-append p (concat ps) e.last)
              (append_assoc (stream e) (encode_from e.last p)
                (encode_from (last_of e.last p) (concat ps))),
    )

-- Writing in pieces and flushing encodes the whole.
pub flush-write_all :
    (ps : List Bytes)
    → (flush Bytes append (write_all (new_writer Bytes append []) ps)).0.w.sink
      ≡ encode_from 0 (concat ps)
flush-write_all ps =
    let e = new_writer Bytes append [] in
    let (still, streamed) = write_all-stream ps e (unfold new_writer in refl) in
    let (good, sunk, emptied, same) = flush_lem (write_all e ps) still in
    sunk ∙ streamed ∙ unfold new_writer in refl

-- ===== src/Netascii/Writer/Encodes.antt =====
-- Over a buffer that takes everything, as `conn.txBuf` does, the writer emits the encoding.
use trivialt.Prelude.{
  ◌==◌, not, ◌&&◌, if◌then◌else◌, Bool-cases, inl, inr, ℕ, ◌+◌, ◌≤◌, [], ◌∷◌, ◌++◌, Bool, true,
  false, ◌≡◌, refl, sym, ap, ◌∙◌, arith, length, append-nil, length-append, append_assoc,
}
use trivialt.Prelude.Bytes.{Bytes}
use trivialt.Netascii.{encode_from, cr, lf, nul}
use trivialt.Netascii.Writer.{
  Buffered, Encoder, write, write_loop, write_byte, put_byte, put_prefix, put_encoded,
}

-- A `bytes.Buffer` takes any slice.
abbrev pub append : Bytes → Bytes → Bytes × Bool
append s b = (s ++ b, true)

-- All that was written so far, flushed or not.
abbrev pub stream : Encoder Bytes append → Bytes
stream e = e.w.sink ++ e.w.pending

write_byte-good :
    (b : Buffered Bytes append) (c : ℕ)
    → b.failed ≡ false
    → let (b', good) = write_byte Bytes append b c in
      (good ≡ true)
      × (b'.failed ≡ false)
      × (b'.sink ++ b'.pending ≡ (b.sink ++ b.pending) ++ c ∷ [])
unfolding write_byte
write_byte-good b c h = ground (arith, append_assoc b.sink b.pending (c ∷ []), append-nil b.sink)

-- `r` is a run from `e` that wrote the bytes `b`, the last of them `last`, with no error.
record Emits (e : Encoder Bytes append) (b : Bytes) (last : ℕ) (e' : Encoder Bytes append)
    : Type 0 where
  working : e'.w.failed ≡ false
  streamed : stream e' ≡ stream e ++ b
  ends : e'.last ≡ last

put_byte-Emits :
    (e : Encoder Bytes append) (c : ℕ)
    → e.w.failed ≡ false
    → ((put_byte Bytes append e c).1 ≡ true) × Emits e (c ∷ []) c (put_byte Bytes append e c).0
unfolding put_byte
put_byte-Emits e c h =
    let (good, working, streamed) = write_byte-good e.w c h in
    (rw good, record { working = rw good working; streamed = rw good streamed; ends = rw good })

-- The byte that the encoding puts in front of `c` behind `last`, if one.
abbrev pub mark : ℕ → ℕ → Bytes
mark last c =
    if c == lf && not (last == cr)
    then cr ∷ []
    else if last == cr && (not (c == lf) && not (c == nul))
    then nul ∷ []
    else []

pub encode_from-cons :
    (last c : ℕ) (s : Bytes) → encode_from last (c ∷ s) ≡ mark last c ++ c ∷ encode_from c s
unfolding encode_from
encode_from-cons last c s = ground arith

-- What `put_prefix` and `put_encoded` return on a working writer.
record Puts (e : Encoder Bytes append) (b : Bytes) (n : ℕ) (r : Encoder Bytes append × ℕ × Bool)
    : Type 0 where
  good : r.2 ≡ true
  counted : r.1 ≡ n
  working : r.0.w.failed ≡ false
  streamed : stream r.0 ≡ stream e ++ b

one_byte-Puts :
    (e : Encoder Bytes append) (x : ℕ)
    → e.w.failed ≡ false
    → let (e', good) = put_byte Bytes append e x in
      Puts e (x ∷ []) 1 (e', if good then 1 else 0, good)
one_byte-Puts e x h =
    let (good, emits) = put_byte-Emits e x h in
    record { good = good; counted = rw good; working = emits.working; streamed = emits.streamed }

put_prefix-Puts :
    (e : Encoder Bytes append) (c : ℕ)
    → e.w.failed ≡ false
    → Puts e (mark e.last c) (length (mark e.last c)) (put_prefix Bytes append e c)
unfolding put_prefix
put_prefix-Puts e c h = elim (Bool-cases (c == lf && not (e.last == cr))) [
  | inl t ↦ rw t (one_byte-Puts e cr h)
  | inr f ↦ elim (Bool-cases (e.last == cr && (not (c == lf) && not (c == nul)))) [
    | inl t' ↦ rw (f, t') (one_byte-Puts e nul h)
    | inr f' ↦
        rw (f, f')
          (record {
            good = refl;
            counted = refl;
            working = h;
            streamed = sym (append-nil (stream e));
          })
  ]
]

put_encoded-Puts :
    (e : Encoder Bytes append) (n c : ℕ)
    → e.w.failed ≡ false
    → let r = put_encoded Bytes append e n c in
      Puts e (mark e.last c ++ c ∷ []) (n + length (mark e.last c) + 1) r × (r.0.last ≡ c)
unfolding put_encoded
put_encoded-Puts e n c h =
    let front = put_prefix-Puts e c h in
    let (good, emits) = put_byte-Emits (put_prefix Bytes append e c).0 c front.working in
    rw (front.good, good)
      (
        record {
          good = refl;
          counted = ap (λ k. n + k + 1) front.counted;
          working = emits.working;
          streamed = emits.streamed ∙ rw (front.streamed, append_assoc);
        },
        emits.ends,
      )

abbrev pub last_of : ℕ → Bytes → ℕ
last_of last [] = last
last_of last (c ∷ p) = last_of c p

write_loop-Puts :
    (p : Bytes) (e : Encoder Bytes append) (n : ℕ)
    → e.w.failed ≡ false
    → let r = write_loop Bytes append e n p in
      Puts e (encode_from e.last p) (n + length (encode_from e.last p)) r
      × (r.0.last ≡ last_of e.last p)
unfolding write_loop
write_loop-Puts [] e n h = (
  record {
    good = refl;
    counted = unfold encode_from in omega arith;
    working = h;
    streamed = unfold encode_from in sym (append-nil (stream e));
  },
  refl,
)
write_loop-Puts (c ∷ p) e n h =
    let r = put_encoded Bytes append e n c in
    let (here, ends) = put_encoded-Puts e n c h in
    let (rest, last) = write_loop-Puts p r.0 r.1 here.working in
    let tail : encode_from r.0.last p ≡ encode_from c p = ap (λ l. encode_from l p) ends in
    let front = mark e.last c in
    let whole : encode_from e.last (c ∷ p) ≡ (front ++ c ∷ []) ++ encode_from c p =
      encode_from-cons e.last c p ∙ sym (append_assoc front (c ∷ []) (encode_from c p)) in
    rw (here.good, whole)
      (
        record {
          good = rest.good;
          counted = omega (
            arith,
            rest.counted,
            here.counted,
            ap length tail,
            length-append (front ++ c ∷ []) (encode_from c p),
            length-append front (c ∷ []),
          );
          working = rest.working;
          streamed =
              rest.streamed
              ∙ rw (here.streamed, tail)
                  (append_assoc (stream e) (front ++ c ∷ []) (encode_from c p));
        },
        last ∙ ap (λ l. last_of l p) ends,
      )

le-encode_from : (p : Bytes) (last : ℕ) → length p ≤ length (encode_from last p)
unfolding encode_from
le-encode_from [] last = omega arith
le-encode_from (c ∷ p) last = ground (arith, le-encode_from p c)

-- Over a buffer that takes everything, and with no error so far, `Write` appends the encoding of
-- `p` behind the last byte to what it wrote so far, reports `len(p)` and no error, and keeps the
-- last byte of `p`.
pub write_lem :
    (e : Encoder Bytes append) (p : Bytes)
    → e.w.failed ≡ false
    → let (e', n, good) = write Bytes append e p in
      (good ≡ true)
      × (n ≡ length p)
      × (e'.w.failed ≡ false)
      × (stream e' ≡ stream e ++ encode_from e.last p)
      × (e'.last ≡ last_of e.last p)
unfolding write
write_lem e p h =
    let (puts, last) = write_loop-Puts p e 0 h in
    (
      puts.good,
      ground (arith, puts.counted, le-encode_from p e.last),
      puts.working,
      puts.streamed,
      last,
    )

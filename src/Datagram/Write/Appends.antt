-- ===== src/Datagram/Write/Appends.antt =====
-- The buffer writers append, as long as there is room: the lemmas behind the constructors.
use trivialt.Prelude.{
  subst, suc, set, take-set, ℕ, ◌+◌, ◌-◌, ◌≤◌, [], ◌∷◌, ◌++◌, Go, ret, ◌>>=◌, ◌≡◌, refl, ap, ◌∙◌,
  arith, length, take, length-append, length-take, length-drop, length-set, length-replicate,
  take-all, take-exact, append_assoc, append-nil,
}
use trivialt.Prelude.Bytes.{Bytes, put_uint16, slice-ok}
use trivialt.Datagram.{Datagram}
use trivialt.Datagram.Write.{
  copy_at, bytes, reset, write_bytes, write_null, write_string, write_uint16,
}

-- `d` holds the bytes `w` so far, and has room for `n` more.
pub record Holds (d : Datagram) (w : Bytes) (n : ℕ) : Type 0 where
  pub written : take d.offset d.buf ≡ w
  pub at_end : d.offset ≡ length w
  pub room : length w + n ≤ length d.buf

-- `r` returned a datagram that holds `w`.
abbrev pub Wrote : Go Datagram → Bytes → ℕ → Type 0
Wrote r w n = (d : Datagram) × (r ≡ ret d) × Holds d w n

pub reset-Holds : (d : Datagram) (size : ℕ) → Holds (reset d size) [] size
unfolding reset
reset-Holds d size = record {
  written = refl;
  at_end = refl;
  room = ground (arith, length-replicate {A = ℕ} size 0);
}

pub length-copy_at :
    (buf : Bytes) (off : ℕ) (b : Bytes)
    → off + length b ≤ length buf
    → length (copy_at buf off b) ≡ length buf
length-copy_at buf off b h =
    rw
      (
        length-append,
        length-append,
        length-take off buf,
        length-take (length buf - off) b,
        length-drop (off + length b) buf,
      )
      (omega arith)

take-copy_at :
    (buf : Bytes) (off : ℕ) (b : Bytes)
    → off + length b ≤ length buf
    → take (off + length b) (copy_at buf off b) ≡ take off buf ++ b
take-copy_at buf off b h =
    rw (take-all (length buf - off) b (omega arith), ← append_assoc)
      (take-exact (off + length b) (take off buf ++ b) _
        (rw (length-append, length-take off buf) (omega arith)))

-- One write of `b` appends it.
write_bytes-Wrote :
    (d : Datagram) (w b : Bytes) (n : ℕ)
    → Holds d w (length b + n)
    → Wrote (write_bytes d b) (w ++ b) n
unfolding write_bytes
write_bytes-Wrote d w b n h = (
  record { buf = copy_at d.buf d.offset b; offset = d.offset + length b },
  ground (arith, h.at_end, h.room),
  record {
    written = rw (take-copy_at d.buf d.offset b fits) (ap (λ t. t ++ b) h.written);
    at_end = rw length-append (ap (λ t. t + length b) h.at_end);
    room = rw (length-copy_at d.buf d.offset b fits, length-append) (omega (arith, h.room));
  },
)
  where
    fits : d.offset + length b ≤ length d.buf
    fits = omega (arith, h.at_end, h.room)

write_null-Wrote :
    (d : Datagram) (w : Bytes) (n : ℕ) → Holds d w (suc n) → Wrote (write_null d) (w ++ 0 ∷ []) n
unfolding write_null
write_null-Wrote d w n h = (
  record { buf = set d.buf d.offset 0; offset = d.offset + 1 },
  ground (arith, h.at_end, h.room),
  record {
    written =
        take-set d.buf d.offset 0 (omega (arith, h.at_end, h.room))
        ∙ ap (λ t. t ++ 0 ∷ []) h.written;
    at_end = rw length-append (omega (arith, h.at_end));
    room = rw (length-set d.buf d.offset 0, length-append) (omega (arith, h.room));
  },
)

write_uint16-eq-write_bytes :
    (d : Datagram) (i : ℕ)
    → d.offset + 2 ≤ length d.buf
    → write_uint16 d i ≡ write_bytes d (put_uint16 i)
unfolding write_uint16 write_bytes
write_uint16-eq-write_bytes d i h = ground arith

write_uint16-Wrote :
    (d : Datagram) (w : Bytes) (i n : ℕ)
    → Holds d w (2 + n)
    → Wrote (write_uint16 d i) (w ++ put_uint16 i) n
write_uint16-Wrote d w i n h =
    rw (write_uint16-eq-write_bytes d i (omega (arith, h.at_end, h.room)))
      (write_bytes-Wrote d w (put_uint16 i) n h)

-- `f` appends `b` to any datagram with room for it.
pub record Appends (f : Datagram → Go Datagram) (b : Bytes) : Type 0 where
  pub at : (d : Datagram) (w : Bytes) (n : ℕ) → Holds d w (length b + n) → Wrote (f d) (w ++ b) n

pub write_bytes-Appends : (b : Bytes) → Appends (λ d. write_bytes d b) b
write_bytes-Appends b = record { at = λ d w n h. write_bytes-Wrote d w b n h }

pub write_string-Appends : (b : Bytes) → Appends (λ d. write_string d b) b
unfolding write_string
write_string-Appends b = write_bytes-Appends b

pub write_null-Appends : Appends write_null (0 ∷ [])
write_null-Appends = record {
  at = λ d w n h. write_null-Wrote d w n (subst (λ k. Holds d w k) (omega arith) h);
}

pub write_uint16-Appends : (i : ℕ) → Appends (λ d. write_uint16 d i) (put_uint16 i)
write_uint16-Appends i = record {
  at = λ d w n h. write_uint16-Wrote d w i n (subst (λ k. Holds d w k) (omega arith) h);
}

pub ret-Appends : Appends ret []
ret-Appends = record {
  at = λ d w n h. (d, refl, rw append-nil (subst (λ k. Holds d w k) (omega arith) h));
}

-- A chain of writes appends what they append.
pub bind-Appends :
    (f g : Datagram → Go Datagram) (a b : Bytes)
    → Appends f a
    → Appends g b
    → Appends (λ d. f d >>= g) (a ++ b)
bind-Appends f g a b hf hg = record {
  at = λ d w n h.
      let size : length (a ++ b) + n ≡ length a + (length b + n) =
        omega (arith, length-append a b) in
      let (d', e, h') = hf.at d w (length b + n) (subst (λ k. Holds d w k) size h) in
      rw (e, ← append_assoc) (hg.at d' (w ++ a) n h');
}

-- The size given to `reset` is that of what is appended, so the whole buffer in use is it.
pub bytes-Holds : (d : Datagram) (w : Bytes) (n : ℕ) → Holds d w n → bytes d ≡ ret w
unfolding bytes
bytes-Holds d w n h =
    let all : d.offset - 0 ≡ d.offset = omega arith in
    rw (slice-ok d.buf 0 d.offset (omega arith) (omega (arith, h.at_end, h.room)), all)
      (ap ret h.written)

pub built :
    (f : Datagram → Go Datagram) (b : Bytes) (size : ℕ) (d : Datagram)
    → Appends f b
    → size ≡ length b
    → (f (reset d size) >>= bytes) ≡ ret b
built f b size d h e =
    let fits : size ≡ length b + 0 = omega arith in
    let (d', r, k) =
      h.at (reset d size) [] 0 (subst (λ k. Holds (reset d size) [] k) fits (reset-Holds d size)) in
    rw r (bytes-Holds d' b 0 k)

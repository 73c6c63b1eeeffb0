-- ===== src/Netascii/Writer.antt =====
-- `netascii.Writer` over a `bufio.Writer`.
pub mod Encodes
pub mod Flush
use trivialt.Prelude.{
  ℕ, ◌+◌, [], ◌∷◌, ◌++◌, Bool, true, false, ltb, leb, ◌==◌, not, ◌&&◌, if◌then◌else◌, length,
}
use trivialt.Prelude.Bytes.{Bytes}
use trivialt.Netascii.{cr, lf, nul}

-- The size of a `bufio.Writer` made by `bufio.NewWriter`.
abbrev pub buffer_size : ℕ
buffer_size = 4096

-- The writer below takes a whole slice or fails.
module _ (Sink : Type 0) (accept : Sink → Bytes → Sink × Bool) where
  -- `bufio.Writer`: the bytes that it holds back, the writer below, and its sticky error.
  pub record Buffered : Type 0 where
    pub pending : Bytes
    pub sink : Sink
    pub failed : Bool

  -- `Flush`; the result is whether there was no error.
  unfoldable pub flush_buffer : Buffered → Buffered × Bool
  flush_buffer b =
      if b.failed
      then (b, false)
      else if length b.pending == 0
      then (b, true)
      else let (s, good) = accept b.sink b.pending in
        if good
        then (record { pending = []; sink = s; failed = false }, true)
        else (record { pending = b.pending; sink = s; failed = true }, false)

  -- `WriteByte`
  unfoldable pub write_byte : Buffered → ℕ → Buffered × Bool
  unfolding flush_buffer
  write_byte b c =
      if b.failed
      then (b, false)
      else if leb buffer_size (length b.pending)
      then (let (b', good) = flush_buffer b in
          if good then (record b' { pending = b'.pending ++ c ∷ [] }, true) else (b', false))
      else (record b { pending = b.pending ++ c ∷ [] }, true)

  -- `Writer`
  pub record Encoder : Type 0 where
    pub w : Buffered
    pub last : ℕ

  pub new_writer : Sink → Encoder
  new_writer s = record { w = record { pending = []; sink = s; failed = false }; last = 0 }

  -- `e.w.WriteByte(c)`, then `e.last = c` if it went well.
  unfoldable pub put_byte : Encoder → ℕ → Encoder × Bool
  unfolding write_byte
  put_byte e c =
      let (w, good) = write_byte e.w c in
      if good then (record { w = w; last = c }, true) else (record e { w = w }, false)

  -- The byte that goes in front of `current`, if one does.
  unfoldable pub put_prefix : Encoder → ℕ → Encoder × ℕ × Bool
  put_prefix e current =
      if current == lf && not (e.last == cr)
      then (let (e', good) = put_byte e cr in (e', if good then 1 else 0, good))
      else if e.last == cr && (not (current == lf) && not (current == nul))
      then (let (e', good) = put_byte e nul in (e', if good then 1 else 0, good))
      else (e, 0, true)

  -- One round of the loop of `Write`.
  unfoldable pub put_encoded : Encoder → ℕ → ℕ → Encoder × ℕ × Bool
  put_encoded e written current =
      let (e', n, good) = put_prefix e current in
      if good
      then (let (e'', good') = put_byte e' current in
          (e'', if good' then written + n + 1 else written + n, good'))
      else (e', written + n, false)

  -- The loop stops at the first error.
  unfoldable pub write_loop : Encoder → ℕ → Bytes → Encoder × ℕ × Bool
  write_loop e written [] = (e, written, true)
  write_loop e written (current ∷ p) =
      let (e', written', good) = put_encoded e written current in
      let rest = write_loop e' written' p in if good then rest else (e', written', false)

  -- `Write`: never more than `len(p)` is reported.
  pub write : Encoder → Bytes → Encoder × ℕ × Bool
  unfolding write_loop
  write e p =
      let (e', written, good) = write_loop e 0 p in
      (e', if ltb (length p) written then length p else written, good)

  pub flush : Encoder → Encoder × Bool
  unfolding flush_buffer
  flush e = let (w, good) = flush_buffer e.w in (record e { w = w }, good)

-- ===== src/Netascii/Reader.antt =====
-- `netascii.Reader` over a `bufio.Reader` over a `bytes.Buffer`, as in conn.go.
pub mod Decodes
use trivialt.Prelude.{
  ℕ, zero, suc, [], ◌∷◌, ◌++◌, Bool, true, false, Option, none, some, ◌==◌, not, ◌&&◌,
  if◌then◌else◌, take, drop,
}
use trivialt.Prelude.Bytes.{Bytes}
use trivialt.Netascii.{cr, lf, nul}
use trivialt.Netascii.Writer.{buffer_size}

-- `ahead` is what `bufio` has taken out of the buffer below and not handed on.
pub record Buffered : Type 0 where
  pub ahead : Bytes
  pub source : Bytes

pop : Bytes → Bytes → Option ℕ × Buffered
pop [] source = (none, record { ahead = []; source = source })
pop (c ∷ ahead) source = (some c, record { ahead = ahead; source = source })

fill : Bytes → Bytes → Option ℕ × Buffered
unfolding pop
fill [] source = pop (take buffer_size source) (drop buffer_size source)
fill (c ∷ ahead) source = pop (c ∷ ahead) source

-- `ReadByte`: an empty `bufio.Reader` first takes up to 4096 bytes from below; `none` is EOF.
unfoldable pub read_byte : Buffered → Option ℕ × Buffered
unfolding fill
read_byte b = fill b.ahead b.source

-- `UnreadByte` right after a byte was read.
unfoldable pub unread_byte : Buffered → ℕ → Buffered
unread_byte b c = record b { ahead = c ∷ b.ahead }

-- The result of a round, in front of that of the rounds behind it.
abbrev pub hand_on : Option ℕ → Buffered → Bytes × Bool × Buffered → Bytes × Bool × Buffered
hand_on none b rest = ([], true, b)
hand_on (some c) b (out, eof, b') = (c ∷ out, eof, b')

module _ (windows : Bool) where
  -- The byte that stands for a CR and the byte behind it; any other byte is put back.
  unfoldable pub after_cr : Buffered → ℕ → ℕ × Buffered
  unfolding unread_byte
  after_cr b c =
      if not windows && c == lf
      then (lf, b)
      else if c == nul
      then (cr, b)
      else (cr, unread_byte b c)

  -- What one round of `Read` hands on; `none` is EOF.
  unfoldable pub read_unit : Buffered → Option ℕ × Buffered
  unfolding after_cr
  read_unit b =
      let (o, b') = read_byte b in
      elim o [
        | none ↦ (none, b')
        | some current ↦
            if current == cr
            then (let (o', b'') = read_byte b' in
                elim o' [
                  | none ↦ (none, b'')
                  | some c ↦ (let (x, b3) = after_cr b'' c in (some x, b3))
                ])
            else (some current, b')
      ]

  -- `Read` into a slice of the given length: the bytes written, whether it ended in EOF, and what
  -- is left.
  unfoldable pub read : ℕ → Buffered → Bytes × Bool × Buffered
  read zero b = ([], false, b)
  read (suc n) b = let (o, b') = read_unit b in let rest = read n b' in hand_on o b' rest

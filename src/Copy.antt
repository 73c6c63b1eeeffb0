-- ===== src/Copy.antt =====
-- `io.Copy` between a connection and what lies outside of the package, as the file server, the client
-- and the command call it, and `ioutil.ReadAll` of a connection. A source is the list of what its
-- reads give, and is at its end behind that; a sink is a state and what a write does to it.
pub mod Into
use trivialt.Prelude.{
  ℕ, zero, suc, ◌-◌, [], ◌∷◌, ◌++◌, List, Go, ret, ◌>>=◌, Option, none, some, Bool, ◌==◌,
  if◌then◌else◌, length, take,
}
use trivialt.Prelude.Bytes.{Bytes}
use trivialt.Datagram.Write.{make}
use trivialt.Errors.{Error, sentinel, short_write, is_eof}
use trivialt.Conn.{Conn}
use trivialt.Conn.Run

-- `io.Copy` moves this many bytes at a time.
abbrev pub copy_size : ℕ
copy_size = 32768

-- What one read of a source gives.
abbrev pub Piece : Type 0
Piece = Bytes × Option Error

-- The end of a source is no error of the copy.
abbrev pub end_error : Option Error → Option Error
end_error e = if is_eof e then none else e

-- The error of a write of `size` bytes: a short one is an error too.
abbrev pub write_failure : ℕ → ℕ → Option Error → Option Error
write_failure size n (some e) = some e
write_failure size n none = if n == size then none else some (sentinel short_write)

-- The verdict on a piece that was moved: the copy goes on (`none`), or ends with an error or none.
abbrev pub verdict : Option Error → Option Error → Option (Option Error)
verdict (some e) read_result = some (some e)
verdict none (some e) = some (end_error (some e))
verdict none none = none

-- What was read is written to the sink, if it is anything at all.
abbrev pub move_in :
    {S : Type 0} → (S → Bytes → S × ℕ × Option Error) → S → Bytes → S × Option Error
move_in accept s [] = (s, none)
move_in accept s (b ∷ rest) =
    let (s', n, e) = accept s (b ∷ rest) in (s', write_failure (length (b ∷ rest)) n e)

module _ (windows : Bool) (fuel : ℕ) where
  -- What was read is written, if it is anything at all.
  unfoldable pub move_out : Conn → Bytes → Go (Option (Conn × Option Error))
  move_out c [] = ret (some (c, none))
  move_out c (b ∷ rest) = do
    o ← Run.write windows fuel c (b ∷ rest)
    ret (elim o [
      | none ↦ none
      | some (c', (n, e)) ↦ some (c', write_failure (length (b ∷ rest)) n e)
    ])

  -- `io.Copy(conn, source)`
  unfoldable pub copy_out : Conn → List Piece → Go (Option (Conn × Option Error))
  unfolding move_out
  copy_out c [] = ret (some (c, none))
  copy_out c ((b, e) ∷ source) = do
    o ← move_out c b
    elim o [
      | none ↦ ret none
      | some (c', failed) ↦ elim (verdict failed e) [
        | some result ↦ ret (some (c', result))
        | none ↦ copy_out c' source
      ]
    ]

  module _ {S : Type 0} (accept : S → Bytes → S × ℕ × Option Error) where
    -- `io.Copy(sink, conn)` in at most `rounds` rounds, with the buffer that the reads fill.
    unfoldable pub copy_in : ℕ → Conn → Bytes → S → Go (Option (Conn × S × Option Error))
    copy_in zero c buf s = ret none
    copy_in (suc rounds) c buf s = do
      o ← Run.read windows fuel c buf
      elim o [
        | none ↦ ret none
        | some (c', (n, e)) ↦
            let (s', failed) = move_in accept s (take n c'.p) in
            elim (verdict failed e) [
              | some result ↦ ret (some (c', s', result))
              | none ↦ copy_in rounds c' c'.p s'
            ]
      ]

    abbrev pub copy_all_in : ℕ → Conn → S → Go (Option (Conn × S × Option Error))
    copy_all_in rounds c s = copy_in rounds c (make copy_size) s

  -- `ioutil.ReadAll(conn)`: `room` is how much space the growing buffer has behind the bytes that it
  -- holds.
  unfoldable pub read_all : (ℕ → ℕ) → ℕ → Conn → Bytes → Go (Option (Conn × Bytes × Option Error))
  read_all room zero c got = ret none
  read_all room (suc rounds) c got = do
    o ← Run.read windows fuel c (make (room (length got)))
    elim o [
      | none ↦ ret none
      | some (c', (n, e)) ↦
          let got' = got ++ take n c'.p in
          elim (verdict none e) [
            | some result ↦ ret (some (c', got', result))
            | none ↦ read_all room rounds c' got'
          ]
    ]

-- ===== src/Examples/Database.antt =====
-- examples/database/database.go: a write handler that stores what it receives in a database. What the
-- database does is left to the user of the definitions.
pub mod Refusal
use trivialt.Prelude.{
  ℕ, ◌*◌, ◌++◌, [], ◌∷◌, List, Go, ret, ◌>>=◌, Option, none, some, Bool, true, false, ◌||◌,
  if◌then◌else◌, ◌⊎◌, inl, inr,
}
use trivialt.Prelude.Bytes.{Bytes, codes}
use trivialt.Prelude.Int.{ℤ, pos, ltb_ℤ}
use trivialt.Datagram.{err_disk_full}
use trivialt.Errors.{Error, sentinel}
use trivialt.Conn.{Conn}
use trivialt.Copy.{read_all}
use trivialt.Handlers.Writing
use trivialt.Handlers.Writing.{WriteRequest}
use trivialt.Server.{Outcome, new_server, configured, rejected}
use trivialt.Server.Life.{Life, Round, listen_and_serve}
use trivialt.Server.{Request}

abbrev pub max_size : ℕ
max_size = 1024 * 1024

abbrev pub refusal_text : Bytes
refusal_text = codes "File too large or no size sent"

-- `err != nil || size > 1024*1024`
abbrev pub is_refused : ℤ × Option Error → Bool
is_refused (n, none) = ltb_ℤ (pos max_size) n
is_refused (n, some e) = true

-- A database of states `D`, and the insertion of an address and a text: the new state and the id, or
-- an error.
module _ {D : Type 0} (insert : D → Bytes → Bytes → (D × ℕ) ⊎ Error) (ip_string : ℕ → Bytes) where
  store : D → WriteRequest → Conn × Bytes × Option Error → Conn × D
  store db w (c, b, some e) = (c, db)
  store db w (c, b, none) = elim (insert db (ip_string (Writing.addr w)) b) [
    | inl r ↦ (c, r.0)
    | inr e ↦ (c, db)
  ]

  -- `ReceiveTFTP`. `room` is how `ioutil.ReadAll` grows its buffer, and `rounds` bounds its reads.
  unfoldable pub receive_tftp : (ℕ → ℕ) → Bool → ℕ → ℕ → D → WriteRequest → Go (Option (Conn × D))
  unfolding store
  receive_tftp room windows fuel rounds db w =
      if is_refused (Writing.size w)
      then (do w' ← Writing.write_error w err_disk_full refusal_text; ret (some (w'.conn, db)))
      else (do
        o ← read_all windows fuel room rounds w.conn []
        ret (elim o [ none ↦ none | some r ↦ some (store db w r) ]))

-- The server of `main`: no read handler, and every address on port 6900. `none` is the exit before
-- it serves.
pub serve_logs :
    (Bytes → Bytes → ℕ ⊎ Error)
    → (Bytes → ℕ → ℕ ⊎ Error)
    → List Round
    → Option (Life × List Request × Option (Option Error))
serve_logs resolve listen rounds = elim (new_server [] false true) [
  | rejected e ↦ none
  | configured s ↦ some (
      listen_and_serve resolve listen s (codes ":6900")
        (record { local_addr = none; is_closed = false }) rounds)
]

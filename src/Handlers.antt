-- ===== src/Handlers.antt =====
-- handlers.go: the requests that a handler is handed, and the file server. What the file system does,
-- and how `%q` quotes a name, is left to the user of the definitions.
pub mod Reading
pub mod Writing
pub mod Missing
pub mod Received
use trivialt.Prelude.{ℕ, ◌++◌, List, Go, ret, ◌>>=◌, Option, none, some, Bool}
use trivialt.Prelude.Bytes.{Bytes, codes}
use trivialt.Prelude.Int.{pos}
use trivialt.Datagram.{err_file_not_found, err_access_violation}
use trivialt.Errors.{Error}
use trivialt.Conn.{Conn}
use trivialt.Copy.{Piece, copy_out, copy_all_in}
use trivialt.Handlers.Reading
use trivialt.Handlers.Reading.{ReadRequest}
use trivialt.Handlers.Writing
use trivialt.Handlers.Writing.{WriteRequest}

-- An open file: its size in `Stat`, and what its reads give.
pub record File : Type 0 where
  pub file_size : ℕ
  pub reads : List Piece

-- `filepath.Clean` and `filepath.Join`, `os.Open` and `os.Create`, and a write to a file that was
-- created. A file that could not be created is nil, and a write to it gives `nil_error`.
pub record FileSystem (S : Type 0) : Type 0 where
  pub clean : Bytes → Bytes
  pub join : Bytes → Bytes → Bytes
  pub open_file : Bytes → Option File
  pub create : Bytes → Option S
  pub accept : S → Bytes → S × ℕ × Option Error
  pub nil_error : Error

-- `fileServer`
pub record FileServer : Type 0 where
  pub path : Bytes

-- What is written to: a file, or the nil that a failed `os.Create` gave.
abbrev pub accept_or_nil :
    {S : Type 0} → FileSystem S → Option S → Bytes → Option S × ℕ × Option Error
accept_or_nil fs none b = (none, 0, some fs.nil_error)
accept_or_nil fs (some s) b = let (s', n, e) = fs.accept s b in (some s', n, e)

module _ (quote : Bytes → Bytes) {S : Type 0} (fs : FileSystem S) (f : FileServer) where
  abbrev pub full_path : Bytes → Bytes
  full_path name = fs.join f.path (fs.clean name)

  abbrev pub missing_text : Bytes → Bytes
  missing_text name = codes "File " ++ (quote name ++ codes " does not exist")

  abbrev pub refused_text : Bytes → Bytes
  refused_text name = codes "Cannot create file " ++ quote (fs.clean name)

  module _ (windows : Bool) (fuel : ℕ) where
    -- `ServeTFTP`; the error of the copy is only logged.
    unfoldable pub serve_tftp : ReadRequest → Go (Option Conn)
    serve_tftp w = elim (fs.open_file (full_path (Reading.request_name w))) [
      | none ↦ do
        w' ← Reading.write_error w err_file_not_found (missing_text (Reading.request_name w))
        ret (some w'.conn)
      | some file ↦ do
        o ← copy_out windows fuel (Reading.write_size w (pos file.file_size)).conn file.reads
        ret (elim o [ none ↦ none | some (c, e) ↦ some c ])
    ]

    -- The ERROR of a file that could not be created; there is no return behind it.
    unfoldable pub refuse_create : Option S → WriteRequest → Go WriteRequest
    refuse_create (some s) r = ret r
    refuse_create none r =
        Writing.write_error r err_access_violation (refused_text (Writing.request_name r))

    -- `ReceiveTFTP`, whose copy takes at most `rounds` rounds: the connection, and the file if there
    -- is one.
    unfoldable pub receive_tftp : ℕ → WriteRequest → Go (Option (Conn × Option S))
    unfolding refuse_create
    receive_tftp rounds r = do
      let created = fs.create (full_path (Writing.request_name r))
      r' ← refuse_create created r
      o ← copy_all_in windows fuel (accept_or_nil fs) rounds r'.conn created
      ret (elim o [ none ↦ none | some (c, s, e) ↦ some (c, s) ])

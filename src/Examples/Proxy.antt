-- ===== src/Examples/Proxy.antt =====
-- examples/httpproxy/httpproxy.go: a read handler that hands on a request to an HTTP server. What that
-- server does is left to the user of the definitions.
use trivialt.Prelude.{
  ℕ, [], ◌++◌, List, ret, ◌>>=◌, Option, none, some, Bool, true, false, ◌⊎◌, inl, inr,
}
use trivialt.Prelude.Bytes.{Bytes, codes}
use trivialt.Datagram.{err_file_not_found}
use trivialt.Errors.{Error}
use trivialt.Copy.{Piece, copy_out}
use trivialt.Handlers.Reading
use trivialt.Handlers.Reading.{ReadRequest, ReadHandlerFunc}
use trivialt.Server.{Request, new_server, configured, rejected}
use trivialt.Server.Life.{Life, Round, listen_and_serve}

abbrev pub base_url : Bytes
base_url = codes "https://api.github.com/"

-- `proxyTFTP`, where `http_get` gives what the reads of the body give, or the text of an error.
pub proxy_tftp : (Bytes → List Piece ⊎ Bytes) → Bool → ℕ → ReadHandlerFunc
proxy_tftp http_get windows fuel w = elim (http_get (base_url ++ Reading.request_name w)) [
  | inr text ↦ do w' ← Reading.write_error w err_file_not_found text; ret (some w'.conn)
  | inl body ↦ do
    o ← copy_out windows fuel w.conn body
    ret (elim o [ none ↦ none | some (c, e) ↦ some c ])
]

-- The server of `main`: no write handler, and every address on port 6900. `none` is the exit before
-- it serves.
pub serve_proxy :
    (Bytes → Bytes → ℕ ⊎ Error)
    → (Bytes → ℕ → ℕ ⊎ Error)
    → List Round
    → Option (Life × List Request × Option (Option Error))
serve_proxy resolve listen rounds = elim (new_server [] true false) [
  | rejected e ↦ none
  | configured s ↦ some (
      listen_and_serve resolve listen s (codes ":6900")
        (record { local_addr = none; is_closed = false }) rounds)
]

-- ===== src/Handlers/Missing.antt =====
-- The file server without the file.
use trivialt.Prelude.{ℕ, Bool, [], ◌∷◌, ◌++◌, ret, none, some, ◌≡◌, refl, ap, take}
use trivialt.Prelude.Bytes.{Bytes}
use trivialt.Datagram.{err_file_not_found}
use trivialt.Datagram.Write.Wire.{error_wire}
use trivialt.Conn.{WritesWork, Conn}
use trivialt.Conn.Net.{msg_room}
use trivialt.Conn.Net.Sends.{send_error-Transmits}
use trivialt.Handlers.{FileSystem, FileServer, missing_text, serve_tftp}
use trivialt.Handlers.Reading.{ReadRequest, write_error, request_name}

-- A request for a file that cannot be opened is answered, where the write succeeds, by one ERROR
-- with the code for a file not found and a text that quotes the name, cut to the room for it, and
-- by nothing else.
pub serve_tftp_missing :
    {S : Type 0} (quote : Bytes → Bytes) (fs : FileSystem S) (f : FileServer) (windows : Bool)
    (fuel : ℕ) (w : ReadRequest)
    → fs.open_file (fs.join f.path (fs.clean w.name)) ≡ none
    → WritesWork w.conn
    → (c : Conn) × (serve_tftp quote fs f windows fuel w ≡ ret (some c))
      × (c.sent
          ≡ w.conn.sent
            ++ (
              w.conn.remote_addr,
              error_wire err_file_not_found
                  (take (msg_room w.conn) (missing_text quote fs f w.name)),
            )
              ∷ [])
      × (c.block ≡ w.conn.block)
      × (c.err ≡ w.conn.err)
unfolding serve_tftp write_error request_name
serve_tftp_missing quote fs f windows fuel w h quiet =
    let (c, e, r, t) =
      send_error-Transmits w.conn err_file_not_found (missing_text quote fs f w.name) in
    (
      c,
      rw (serve_tftp, h, r) refl,
      t.trace (t.sure quiet).0,
      ap (λ (x : Conn). x.block) t.same,
      ap (λ (x : Conn). x.err) t.same,
    )

-- ===== src/Tests/Handled.antt =====
-- A read request for a file that is not there, and a write request.
use trivialt.Prelude.{[], ◌∷◌, ◌++◌, none, some, true, false, ret, ◌≡◌, refl, take, length, arith}
use trivialt.Prelude.Bytes.{Bytes, codes}
use trivialt.Datagram.{mode_octet, err_file_not_found}
use trivialt.Datagram.Write.Wire.{error_wire}
use trivialt.Errors.{network}
use trivialt.Conn.{Conn, new_conn}
use trivialt.Conn.Receive.Transfer.File.{IsWaiting}
use trivialt.Handlers.{FileSystem, FileServer, missing_text, serve_tftp, receive_tftp}
use trivialt.Handlers.Reading.{ReadRequest}
use trivialt.Handlers.Writing.{WriteRequest}
use trivialt.Handlers.Missing.{serve_tftp_missing}
use trivialt.Handlers.Received.{receive_tftp_lem}
use trivialt.Tests.Transfers.{blocks, reader}

-- A file is the list of its bytes, and there are none yet.
abbrev pub empty_disk : FileSystem Bytes
empty_disk = record {
  clean = λ name. name;
  join = λ path name. path ++ (codes "/" ++ name);
  open_file = λ name. none;
  create = λ name. some [];
  accept = λ s b. (s ++ b, length b, none);
  nil_error = network 22;
}

abbrev pub quoted : Bytes → Bytes
quoted name = codes "'" ++ (name ++ codes "'")

abbrev pub files : FileServer
files = record { path = codes "root" }

abbrev request : ReadRequest
request = record { conn = new_conn [] [] mode_octet 7; name = codes "a" }

serve_tftp_missing_example :
    (c : Conn) × (serve_tftp quoted empty_disk files false 9 request ≡ ret (some c))
    × (c.sent
        ≡ (
          7,
          error_wire err_file_not_found
              (take 511 (missing_text quoted empty_disk files (codes "a"))),
        )
          ∷ [])
    × (c.block ≡ 0)
    × (c.err ≡ none)
serve_tftp_missing_example =
    serve_tftp_missing quoted empty_disk files false 9 request refl (refl, refl)

abbrev upload : WriteRequest
upload = record { conn = record reader { options_parsed = true }; name = codes "b" }

upload-IsWaiting : IsWaiting upload.conn
upload-IsWaiting = record {
  receiving = record {
    multi = refl;
    plain = refl;
    works = (refl, refl);
    patient = omega arith;
    numbered = omega arith;
    room = omega arith;
  };
  going = refl;
  no_error = refl;
  settled = refl;
}

receive_tftp_lem_example :
    (d : Conn) × (receive_tftp quoted empty_disk files false 11 1 upload
      ≡ ret (some (d, some (7 ∷ 8 ∷ 9 ∷ []))))
receive_tftp_lem_example =
    receive_tftp_lem quoted empty_disk files false 0 7 blocks upload (7 ∷ 8 ∷ 9 ∷ []) []
      (7 ∷ 8 ∷ 9 ∷ []) upload-IsWaiting refl (omega arith) refl (omega arith) (λ e. cc) refl refl

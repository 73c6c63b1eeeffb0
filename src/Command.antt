-- ===== src/Command.antt =====
-- cmd/trivialt/main.go: the command line over the client and the server. The parsing of flags is the
-- library's; a command is handed its flags and arguments. The logs and the progress bar, which hands on
-- what it reads, are left out. What the system does is left to the user of the definitions.
pub mod Configured
use trivialt.Prelude.{
  ℕ, zero, suc, [], ◌∷◌, ◌++◌, List, Go, ret, ◌>>=◌, Option, none, some, Bool, true, false,
  if◌then◌else◌, ◌⊎◌, inl, inr,
}
use trivialt.Prelude.Bytes.{Bytes, bytes_eq, codes}
use trivialt.Prelude.Int.{ℤ, pos}
use trivialt.Datagram.{mode_netascii, mode_octet}
use trivialt.Errors.{Error, Sentinel, sentinel, error_cause}
use trivialt.Conn.{Conn}
use trivialt.Conn.Dial.{System}
use trivialt.Copy.{Piece, copy_all_in}
use trivialt.Client.{
  Client, ClientOpt, client_mode, client_blocksize, client_timeout, client_windowsize,
  client_transfer_size, client_retransmit,
}
use trivialt.Client
use trivialt.Client.Requests.{Answer, response, no_response, get, put}
use trivialt.Server.{Server, server_single_port, new_server, configured, rejected}
use trivialt.Server
use trivialt.Server.Life.{Life, Round, listen_and_serve}
use trivialt.Server.{Request}
use trivialt.Handlers
use trivialt.Handlers.{FileServer, FileSystem}
use trivialt.Handlers.Reading.{ReadRequest}
use trivialt.Handlers.Writing.{WriteRequest}

-- The flags that the commands read.
pub record Flags : Type 0 where
  pub blksize : ℤ
  pub windowsize : ℤ
  pub timeout : ℤ
  pub retransmit : ℤ
  pub tsize : Bool
  pub netascii : Bool
  pub quiet : Bool
  pub output : Bytes

abbrev pub default_flags : Flags
default_flags = record {
  blksize = pos 512;
  windowsize = pos 1;
  timeout = pos 10;
  retransmit = pos 10;
  tsize = true;
  netascii = false;
  quiet = false;
  output = [];
}

-- `c.Args().Get(i)`: a missing argument is empty.
abbrev pub arg : List Bytes → ℕ → Bytes
arg [] i = []
arg (a ∷ as') zero = a
arg (a ∷ as') (suc i) = arg as' i

abbrev pub client_opts : Flags → List ClientOpt
client_opts f =
    client_blocksize f.blksize
    ∷ client_transfer_size f.tsize
    ∷ client_windowsize f.windowsize
    ∷ client_timeout f.timeout
    ∷ client_retransmit f.retransmit
    ∷ client_mode (if f.netascii then mode_netascii else mode_octet)
    ∷ []

abbrev pub or_fatal : Client × Option Sentinel → Client ⊎ Sentinel
or_fatal (c, none) = inl c
or_fatal (c, some e) = inr e

-- `newClient`: the client, or the error with which the command exits.
unfoldable pub new_client : Flags → Client ⊎ Sentinel
new_client f = or_fatal (Client.new_client (client_opts f))

-- How a command ends: normally, or by `log.Fatalln` with an error.
pub data Exit : Type 0 where
  finished : Exit
  fatal : Error → Exit

abbrev exit_of : Option Error → Exit
exit_of none = finished
exit_of (some e) = fatal (error_cause e)

module _ {S : Type 0} (base : Bytes → Bytes) (stdout : S) (create : Bytes → S ⊎ Error)
    (accept : S → Bytes → S × ℕ × Option Error) where
  -- Where the file goes: the standard output, the named file, or one of the name of the source.
  unfoldable pub open_output : Bytes → Bytes → S ⊎ Error
  open_output output file =
      if bytes_eq output (codes "-")
      then inl stdout
      else create (if bytes_eq output [] then base file else output)

  module _ (windows : Bool) (fuel rounds : ℕ) where
    save : Conn → S ⊎ Error → Go (Option (Option S × Exit))
    save conn (inr e) = ret (some (none, fatal e))
    save conn (inl out) = do
      o ← copy_all_in windows fuel accept rounds conn out
      ret (elim o [ none ↦ none | some (conn', out', e) ↦ some (some out', exit_of e) ])

    -- `cmdGet`: what was written to, and how it ends. The error of `Get` is never nil.
    unfoldable pub cmd_get : Flags → List Bytes → System → Go (Option (Option S × Exit))
    unfolding save
    cmd_get f args sys = elim (new_client f) [
      | inr e ↦ ret (some (none, fatal (sentinel e)))
      | inl client ↦ do
        o ← get windows fuel sys client (arg args 0 ++ (codes "/" ++ arg args 1))
        elim o [
          | none ↦ ret none
          | some (no_response e) ↦ ret (some (none, exit_of e))
          | some (response r) ↦ save r.conn (open_output f.output (arg args 1))
        ]
    ]

-- A file to put: what its reads give, and its size if `Stat` gives one.
pub record Source : Type 0 where
  pub reads : List Piece
  pub stat_size : Option ℤ

-- The size that `Put` is told: 0 where it is unknown or the option is off.
unfoldable pub put_size : Flags → Source → ℤ
put_size f file = elim file.stat_size [ none ↦ pos 0 | some n ↦ if f.tsize then n else pos 0 ]

-- `cmdPut`: the connection if there was one, and how it ends.
unfoldable pub cmd_put :
    (Bytes → Bytes)
    → (Bytes → Source ⊎ Error)
    → Bool
    → ℕ
    → Flags
    → List Bytes
    → System
    → Go (Option (Option Conn × Exit))
unfolding put_size
cmd_put base open_file windows fuel f args sys = elim (new_client f) [
  | inr e ↦ ret (some (none, fatal (sentinel e)))
  | inl client ↦ elim (open_file (arg args 1)) [
    | inr e ↦ ret (some (none, fatal e))
    | inl file ↦ do
      o ←
          put windows fuel sys client (arg args 0 ++ (codes "/" ++ base (arg args 1))) file.reads
            (put_size f file)
      ret (elim o [ none ↦ none | some (c, conn, e) ↦ some (conn, exit_of e) ])
  ]
]

-- The configured server of `cmdServe`; the write handler is registered on demand.
unfoldable pub serve_config : Bool → Bool → Server.Outcome
serve_config writable single_port = new_server (server_single_port single_port ∷ []) true writable

-- `cmdServe`: the file server with its root, and what `ListenAndServe` does.
unfoldable pub cmd_serve :
    (Bytes → Bytes ⊎ Error)
    → (Bytes → Bytes → ℕ ⊎ Error)
    → (Bytes → ℕ → ℕ ⊎ Error)
    → Bool
    → Bool
    → List Bytes
    → List Round
    → (FileServer × Life × List Request × Option (Option Error)) ⊎ Error
unfolding serve_config
cmd_serve abs resolve listen writable single_port args rounds = elim (abs (arg args 1)) [
  | inr e ↦ inr e
  | inl root ↦ elim (serve_config writable single_port) [
    | rejected e ↦ inr (sentinel e)
    | configured s ↦
        let addr = if bytes_eq (arg args 0) [] then codes ":69" else arg args 0 in
        let idle : Life = record { local_addr = none; is_closed = false } in
        let (life, requests, result) = listen_and_serve resolve listen s addr idle rounds in
        inl (record { path = root }, life, requests, result)
  ]
]

-- The methods of `server` log the request and hand it on.
module _ (quote : Bytes → Bytes) {S : Type 0} (fs : FileSystem S) (f : FileServer) (windows : Bool)
    (fuel : ℕ) where
  pub serve_tftp : ReadRequest → Go (Option Conn)
  serve_tftp r = Handlers.serve_tftp quote fs f windows fuel r

  pub receive_tftp : ℕ → WriteRequest → Go (Option (Conn × Option S))
  receive_tftp rounds r = Handlers.receive_tftp quote fs f windows fuel rounds r

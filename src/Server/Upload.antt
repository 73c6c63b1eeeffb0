-- ===== src/Server/Upload.antt =====
-- A write request from its packet to the file.
use trivialt.Prelude.{
  ℕ, suc, ◌*◌, ◌<◌, [], ◌∷◌, List, ret, Option, none, some, Bool, true, false, length, ◌≡◌, ◌≢◌,
  refl, sym, subst, ◌∙◌, arith, inr,
}
use trivialt.Prelude.Bytes.{Bytes}
use trivialt.Prelude.Int.{pos}
use trivialt.Datagram.{Options, op_wrq, mode_octet}
use trivialt.Datagram.Write.{set_bytes}
use trivialt.Datagram.Write.Wire.{req_wire}
use trivialt.Datagram.Message.{IsRequest}
use trivialt.Datagram.Message.RoundTrip.{
  request-wire_valid, fields-name, fields-mode, fields-options,
}
use trivialt.Conn.{Conn, State, new_conn}
use trivialt.Conn.Negotiate.{parsed, apply_options}
use trivialt.Conn.Receive.{read_setup}
use trivialt.Conn.Receive.Setup.{unsettled, IsFresh, answer_wire, read_setup_lem}
use trivialt.Conn.Receive.Transfer.File.{packets, file_of, AreBlocks}
use trivialt.Conn.Receive.Transfer.Whole.{same_file}
use trivialt.Copy.{copy_size}
use trivialt.Handlers.{FileSystem, FileServer, receive_tftp}
use trivialt.Handlers.Received.{receive_tftp_lem}
use trivialt.Server.{Server, Request, Network, handled, accept_conn, dispatch_write_request}

-- The write request of a client, and the connection that the server makes for it.
module _ (from k : ℕ) (name : Bytes) (opts : Options) (addr : ℕ) (xs : List (ℕ × Bytes))
    (order : Options → Options) where
  abbrev pub request : Request
  request = record { addr = from; pkt = req_wire op_wrq name mode_octet opts }

  abbrev pub network : Network
  network = record {
    arrivals = packets addr xs;
    write_results = [];
    order = order;
    listen_error = none;
  }

  abbrev pub accepted_conn : Conn
  accepted_conn = record (new_conn (packets addr xs) [] mode_octet from) {
    rx = set_bytes (req_wire op_wrq name mode_octet opts);
    order = order;
    retransmit = suc k;
  }

  accepted_conn-IsFresh : IsFresh accepted_conn
  accepted_conn-IsFresh = record {
    multi = refl;
    binary = refl;
    works = (refl, ground arith);
    patient = omega arith;
    numbered = omega arith;
    going = refl;
    no_error = refl;
    reads = refl;
    at_default = refl;
  }

  accepted :
      (s : Server)
      → IsRequest name mode_octet opts
      → s.single_port ≡ false
      → s.retransmit ≡ pos (suc k)
      → accept_conn s request network ≡ ret (some accepted_conn)
  unfolding accept_conn
  accepted s h multi limit =
      rw
        (
          request-wire_valid op_wrq (inr refl) name mode_octet opts h,
          fields-mode op_wrq (inr refl) name mode_octet opts h,
          multi,
          limit,
        )
        refl

  dispatched :
      (s : Server) (e : Conn) (next : Option State)
      → IsRequest name mode_octet opts
      → s.write_handler ≡ true
      → accept_conn s request network ≡ ret (some accepted_conn)
      → read_setup accepted_conn ≡ ret (e, next)
      → dispatch_write_request s request network ≡ ret (handled e name)
  unfolding dispatch_write_request
  dispatched s e next h handler made r =
      rw (handler, made, fields-name op_wrq (inr refl) name mode_octet opts h, r) refl

-- A server with a socket for each connection, which it gets, a write handler and a positive
-- retransmit limit gets a valid write request in octet mode for a name under which its file server
-- can create a file, with options that it accepts, in the order in which it iterates over them,
-- and that set a block size below 65532 and a timeout that is not 0; the network takes every
-- write. It dispatches the request, and what it has sent to the client by then is the answer to
-- the options, an OACK with the accepted ones in the order in which it iterates over them or the
-- ACK of block 0. Behind the request only DATA packets arrive, from one address and none with more
-- bytes than a block, but repeated, stale or ahead of their turn as they may be: if they carry a
-- whole file in their turn that is not empty and has less than 32768 bytes, and a write takes it
-- whole, the file server ends, and the created file has got exactly that file.
pub dispatch_write_request_lem :
    {S : Type 0} (quote : Bytes → Bytes) (fs : FileSystem S) (f : FileServer) (windows : Bool)
    (rounds from k : ℕ) (name : Bytes) (opts : Options) (addr : ℕ) (xs : List (ℕ × Bytes))
    (order : Options → Options) (s : Server) (d : Conn) (ack : Options) (file : Bytes) (t t' : S)
    → IsRequest name mode_octet opts
    → s.write_handler ≡ true
    → s.single_port ≡ false
    → s.retransmit ≡ pos (suc k)
    → apply_options unsettled [] (order opts) ≡ parsed d ack
    → 0 < d.timeout
    → d.blksize < 65532
    → AreBlocks d.blksize xs
    → file_of d.blksize 0 [] xs ≡ some file
    → length file < copy_size
    → file ≢ []
    → fs.create (fs.join f.path (fs.clean name)) ≡ some t
    → fs.accept t file ≡ (t', length file, none)
    → (e : Conn) × (dispatch_write_request s
          (request from k name opts addr xs order)
          (network from k name opts addr xs order)
        ≡ ret (handled e name))
      × (e.sent ≡ (from, answer_wire (accepted_conn from k name opts addr xs order) ack) ∷ [])
      × ((z : Conn) × (receive_tftp quote fs f windows
              (suc (suc (3 * length xs)))
              (suc rounds)
              (record { conn = e; name = name })
            ≡ ret (some (z, some t'))))
dispatch_write_request_lem quote fs f windows rounds from k name opts addr xs order s d ack file t
      t' h handler multi limit accepts timed small blocks whole long ne made takes =
    let c = accepted_conn from k name opts addr xs order in
    let (e, r, ready) =
      read_setup_lem c opts d ack (accepted_conn-IsFresh from k name opts addr xs order)
        (fields-options op_wrq (inr refl) name mode_octet opts h) accepts timed small in
    (
      e,
      dispatched from k name opts addr xs order s e (some State.read) h handler
          (accepted from k name opts addr xs order s h multi limit) r,
      ready.trace,
      receive_tftp_lem quote fs f windows rounds addr xs (record { conn = e; name = name }) file t
          t' ready.waiting ready.left (subst (λ n. AreBlocks n xs) (sym ready.size) blocks)
          (same_file xs e.blksize d.blksize e.block 0 e.rx_buf [] ready.size ready.place ready.got
            ∙ whole)
          long ne made takes,
    )

-- ===== src/Client/Download.antt =====
-- `Get` from the URL to the file.
use trivialt.Prelude.{
  ℕ, suc, ◌*◌, ◌≤◌, ◌<◌, [], ◌∷◌, List, ret, Option, none, some, Bool, true, false, length, ◌≡◌,
  ◌≢◌, refl, sym, subst, ap, ◌∙◌, arith, inl,
}
use trivialt.Prelude.Bytes.{Bytes, bytes_eq}
use trivialt.Prelude.Int.{pos}
use trivialt.Errors.{Error}
use trivialt.Datagram.{Datagram, Options, op_rrq, mode_netascii}
use trivialt.Datagram.Write.{empty, write_read_req}
use trivialt.Datagram.Write.Wire.{req_wire, oack_wire, ack_wire, write_req_lem}
use trivialt.Datagram.Message.{option_ack, IsSendable}
use trivialt.Conn.{Conn, packet}
use trivialt.Conn.Dial.{System}
use trivialt.Conn.Negotiate.{parsed, apply_options}
use trivialt.Conn.Net.Sends.{built_datagram}
use trivialt.Conn.Receive.Setup.{unsettled, IsFresh, answer_wire}
use trivialt.Conn.Receive.Transfer.File.{packets, file_of, AreBlocks}
use trivialt.Conn.Receive.Transfer.Whole.{same_file}
use trivialt.Conn.Request.Granted.{asked, granted, request-granted}
use trivialt.Copy.{copy_size, copy_all_in}
use trivialt.Copy.Into.{copy_all_in-whole, move_in-whole}
use trivialt.Client.{Client}
use trivialt.Client.Dialed.{dialed, dial-connected, requested, got}
use trivialt.Client.Url.{ParsedUrl, url_ok, parse_url}
use trivialt.Client.Requests.{Response, response, get}

client-answers :
    (c : Conn) (ack : Options) → c.is_client ≡ true → answer_wire c ack ≡ ack_wire c.block
client-answers c [] h = refl
client-answers c (o ∷ os) h = rw h refl

dialed-IsFresh :
    (sys : System) (c : Client) (server k : ℕ) (tx : Datagram)
    → sys.write_results ≡ []
    → bytes_eq c.mode mode_netascii ≡ false
    → IsFresh (record (dialed sys c server (suc k)) { tx = tx })
dialed-IsFresh sys c server k tx works binary = record {
  multi = refl;
  binary = binary;
  works = (works, ground arith);
  patient = omega arith;
  numbered = omega arith;
  going = refl;
  no_error = refl;
  reads = refl;
  at_default = refl;
}

-- A client that is not in netascii mode and has a positive retransmit limit gets a file from a
-- server that it can reach: the server grants the request from any port, by an OACK that fits the
-- client's first buffer, with options that are accepted, in the order in which the client iterates
-- over them, and set a block size below 65532 and a timeout that is not 0, and the network takes
-- every write. Then `Get` ends with a response, after it has sent its request to the server and
-- the ACK of block 0 to the port of the OACK. Behind it only DATA packets arrive, from that port
-- and none with more bytes than a block, but repeated, stale or ahead of their turn as they may
-- be: if they carry a whole file in their turn that is not empty and has less than 32768 bytes,
-- copying the response to a sink that takes it whole puts exactly that file there.
pub get_lem :
    {S : Type 0} (accept : S → Bytes → S × ℕ × Option Error) (windows : Bool)
    (rounds server peer k : ℕ) (sys : System) (c : Client) (url : Bytes) (u : ParsedUrl)
    (m : Options) (xs : List (ℕ × Bytes)) (d : Conn) (ack : Options) (file : Bytes) (t t' : S)
    → parse_url url ≡ url_ok u
    → sys.resolve c.net u.host ≡ inl server
    → sys.listen c.net ≡ none
    → sys.write_results ≡ []
    → sys.arrivals ≡ packet peer (oack_wire m) ∷ packets peer xs
    → bytes_eq c.mode mode_netascii ≡ false
    → c.retransmit ≡ pos (suc k)
    → IsSendable (option_ack m)
    → length (oack_wire m) ≤ 516
    → apply_options unsettled [] (sys.order m) ≡ parsed d ack
    → 0 < d.timeout
    → d.blksize < 65532
    → AreBlocks d.blksize xs
    → file_of d.blksize 0 [] xs ≡ some file
    → length file < copy_size
    → file ≢ []
    → accept t file ≡ (t', length file, none)
    → (r : Response) × (get windows 4 sys c url ≡ ret (some (response r)))
      × (r.conn.sent ≡ (server, req_wire op_rrq u.file c.mode c.opts) ∷ (peer, ack_wire 0) ∷ [])
      × ((z : Conn) × (copy_all_in windows (suc (suc (3 * length xs))) accept (suc rounds) r.conn t
            ≡ ret (some (z, t', none))))
unfolding write_read_req
get_lem accept windows rounds server peer k sys c url u m xs d ack file t t' parses found free works
      arrives binary limit sendable fits accepts timed small blocks whole long ne takes =
    let wire = req_wire op_rrq u.file c.mode c.opts in
    let (tx, made, built) =
      built_datagram (write_read_req empty u.file c.mode c.opts) wire
        (write_req_lem empty op_rrq u.file c.mode c.opts) in
    let conn = record (dialed sys c server (suc k)) { tx = tx } in
    let (e, r, ready) =
      request-granted windows conn wire peer m (packets peer xs) d ack built
        (dialed-IsFresh sys c server k tx works binary) arrives fits sendable accepts timed small in
    let (z, copied) =
      copy_all_in-whole accept windows rounds peer xs e file t t' ready.waiting ready.left
        (subst (λ n. AreBlocks n xs) (sym ready.size) blocks)
        (same_file xs e.blksize d.blksize e.block 0 e.rx_buf [] ready.size ready.place ready.got
          ∙ whole)
        long (move_in-whole accept t t' file ne takes) in
    (
      record { conn = e },
      got windows 4 sys c url u (dialed sys c server (suc k)) (record { conn = e }) parses
          (dial-connected sys c u server (suc k) found free limit)
          (requested windows 4 c u.file (dialed sys c server (suc k)) e tx made r
            ready.waiting.no_error),
      ready.trace
          ∙ ap (λ b. (server, wire) ∷ (peer, b) ∷ [])
              (client-answers (granted (asked conn wire) peer m (packets peer xs)) ack refl),
      (z, copied),
    )

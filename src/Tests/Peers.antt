-- ===== src/Tests/Peers.antt =====
-- A concrete client, and a server in the single port mode.
use trivialt.Prelude.{
  ℕ, ◌≤◌, ◌<◌, [], ◌∷◌, ◌++◌, List, ret, some, true, false, ◌≡◌, ◌≢◌, refl, arith, length,
}
use trivialt.Prelude.Bytes.{codes, at_index}
use trivialt.Prelude.Int.{pos, ltb_ℤ}
use trivialt.Datagram.{Options, mode_octet}
use trivialt.Datagram.Message.{IsRequest}
use trivialt.Conn.{Conn, new_conn}
use trivialt.Conn.Negotiate.{parsed, apply_options}
use trivialt.Client.{ClientOpt, client_blocksize, client_mode, new_client, put_options}
use trivialt.Client.Url.{
  ParsedUrl, url_ok, parse_url, check_parts, check_host, trim_prefix, strip, split_once, is_numeric,
}
use trivialt.Client.Url.Accepts.{IsAccepted, parse_url-IsAccepted}
use trivialt.Strconv.{parse_int, parse_uint, parse_digits}
use trivialt.Client.Accepted.{new_client_lem}
use trivialt.Server.{Server, Request}
use trivialt.Server.Manager.{
  Manager, running, blocked, dispatch, channel_size, lookup, insert, start_job, queue_of, manage,
}
use trivialt.Server.Manager.Route.{queued}
use trivialt.Server.Manager.Reach.{Reaches, start, next, new_manager, manage_delivers}

abbrev asked : List ClientOpt
asked = client_blocksize (pos 1024) ∷ client_mode (codes "mail") ∷ []

new_client_lem_example :
    let c = (new_client asked).0 in
    let opts = put_options c.opts (pos 5) in
    IsRequest (codes "f") c.mode c.opts
    × IsRequest (codes "f") c.mode opts
    × ((d : Conn) × (ack : Options) × (apply_options (new_conn [] [] mode_octet 7) [] c.opts
          ≡ parsed d ack))
    × ((d : Conn) × (ack : Options) × (apply_options (new_conn [] [] mode_octet 7) [] opts
          ≡ parsed d ack))
    × (ltb_ℤ c.retransmit (pos 0) ≡ false)
new_client_lem_example =
    new_client_lem asked 5 (codes "f") (new_conn [] [] mode_octet 7) (omega arith) (omega arith)
      (λ e. cc)

abbrev shared : Server
shared = record {
  net = codes "udp";
  single_port = true;
  retransmit = pos 10;
  read_handler = true;
  write_handler = true;
}

abbrev request : Request
request = record { addr = 7; pkt = 0 ∷ 1 ∷ 97 ∷ 0 ∷ [] }

abbrev ack : Request
ack = record { addr = 7; pkt = 0 ∷ 4 ∷ 0 ∷ 1 ∷ [] }

abbrev transferring : Manager
transferring = start_job shared new_manager true request

transferring-Reaches : Reaches shared transferring
unfolding manage at_index
transferring-Reaches = next (dispatch request) start (omega arith) refl

transferring-known : lookup transferring.req_map 7 ≡ some 0
unfolding start_job insert lookup
transferring-known = refl

transferring-queue : queue_of transferring 0 ≡ []
unfolding start_job
transferring-queue = refl

manage_delivers_example :
    (length (queue_of transferring 0) < channel_size
      → (manage shared transferring (dispatch ack)
          ≡ ret (running (queued transferring 0 (0 ∷ 4 ∷ 0 ∷ 1 ∷ []))))
        × (queue_of (queued transferring 0 (0 ∷ 4 ∷ 0 ∷ 1 ∷ [])) 0
            ≡ queue_of transferring 0 ++ (0 ∷ 4 ∷ 0 ∷ 1 ∷ []) ∷ [])
        × ((b other : ℕ)
            → b ≢ 7
            → lookup transferring.req_map b ≡ some other
            → queue_of (queued transferring 0 (0 ∷ 4 ∷ 0 ∷ 1 ∷ [])) other
              ≡ queue_of transferring other))
    × (channel_size ≤ length (queue_of transferring 0)
        → manage shared transferring (dispatch ack) ≡ ret (blocked transferring))
manage_delivers_example =
    manage_delivers shared transferring ack 4 0 transferring-Reaches refl (unfold at_index in refl)
      (omega arith) (omega arith) transferring-known

abbrev home : ParsedUrl
home = record { host = codes "h:69"; file = codes "f" }

parse_url-home : parse_url (codes "tftp://h/f") ≡ url_ok home
unfolding parse_url check_parts check_host trim_prefix strip split_once is_numeric parse_int
    parse_uint parse_digits
parse_url-home = refl

parse_url-IsAccepted_example : IsAccepted (trim_prefix (codes "tftp://h/f") (codes "tftp://")) home
parse_url-IsAccepted_example = parse_url-IsAccepted (codes "tftp://h/f") home parse_url-home

-- ===== src/Tests/Whole.antt =====
-- A file in two blocks, got by a client and put to a server.
use trivialt.Prelude.{
  ℕ, [], ◌∷◌, ◌++◌, List, Option, none, some, true, false, ret, ◌≡◌, refl, arith, length, inl, inr,
}
use trivialt.Prelude.Bytes.{Bytes, codes}
use trivialt.Prelude.Int.{pos}
use trivialt.Strconv.{parse_int, parse_uint, parse_digits}
use trivialt.Datagram.{Options, opt_blocksize, op_rrq, mode_octet}
use trivialt.Datagram.Write.Wire.{req_wire, oack_wire, ack_wire}
use trivialt.Datagram.Read.{put}
use trivialt.Errors.{Error, tftp_error, timeout}
use trivialt.Conn.{Conn, packet}
use trivialt.Conn.Dial.{System}
use trivialt.Conn.Negotiate.{parsed, apply_option, apply_options}
use trivialt.Conn.Receive.Setup.{unsettled}
use trivialt.Conn.Receive.Transfer.File.{packets}
use trivialt.Copy.{copy_all_in}
use trivialt.Client.{Client, default_client}
use trivialt.Client.Url.{
  ParsedUrl, url_ok, parse_url, trim_prefix, strip, split_once, check_parts, check_host, is_numeric,
}
use trivialt.Client.Requests.{Response, response, no_response, get}
use trivialt.Client.Dialed.{dialed}
use trivialt.Client.Unheard.{get_unheard, get_untried}
use trivialt.Conn.Run.{send_read_request}
use trivialt.Client.Download.{get_lem}
use trivialt.Handlers.{receive_tftp}
use trivialt.Server.{Server, handled, dispatch_write_request}
use trivialt.Server.Upload.{request, network, dispatch_write_request_lem}
use trivialt.Tests.Handled.{empty_disk, quoted, files}

abbrev eight : Options
eight = (opt_blocksize, codes "8") ∷ []

abbrev agreed : Conn
agreed = record unsettled { blksize = 8; options_parsed = true }

accepts_eight : apply_options unsettled [] eight ≡ parsed agreed eight
unfolding apply_options apply_option parse_uint parse_digits put
accepts_eight = refl

-- The first block comes twice.
abbrev blocks : List (ℕ × Bytes)
blocks = (1, codes "abcdefgh") ∷ (1, codes "abcdefgh") ∷ (2, codes "i") ∷ []

abbrev system : System
system = record {
  resolve = λ net host. inl 5;
  listen = λ net. none;
  arrivals = packet 9 (oack_wire eight) ∷ packets 9 blocks;
  write_results = [];
  order = λ m. m;
  close_result = none;
}

abbrev url : ParsedUrl
url = record { host = codes "h:69"; file = codes "f" }

parses : parse_url (codes "tftp://h/f") ≡ url_ok url
unfolding parse_url trim_prefix strip split_once check_parts check_host is_numeric parse_int
    parse_uint parse_digits
parses = refl

abbrev append : Bytes → Bytes → Bytes × ℕ × Option Error
append s b = (s ++ b, length b, none)

get_lem_example :
    (r : Response) × (get false 4 system default_client (codes "tftp://h/f")
      ≡ ret (some (response r)))
    × (r.conn.sent
        ≡ (5, req_wire op_rrq (codes "f") mode_octet default_client.opts) ∷ (9, ack_wire 0) ∷ [])
    × ((z : Conn) × (copy_all_in false 11 append 1 r.conn []
          ≡ ret (some (z, codes "abcdefghi", none))))
get_lem_example =
    get_lem append false 0 5 9 9 system default_client (codes "tftp://h/f") url eight blocks agreed
      eight (codes "abcdefghi") [] (codes "abcdefghi") parses refl refl refl refl refl refl
      ((λ e. cc), omega arith, (tt, tt)) (omega arith) accepts_eight (omega arith) (omega arith)
      (omega arith) refl (omega arith) (λ e. cc) refl

abbrev server : Server
server = record {
  net = codes "udp";
  single_port = false;
  retransmit = pos 10;
  read_handler = false;
  write_handler = true;
}

dispatch_write_request_lem_example :
    (e : Conn) × (dispatch_write_request server
        (request 4 9 (codes "f") eight 4 blocks (λ m. m))
        (network 4 9 (codes "f") eight 4 blocks (λ m. m))
      ≡ ret (handled e (codes "f")))
    × (e.sent ≡ (4, oack_wire eight) ∷ [])
    × ((z : Conn) × (receive_tftp quoted empty_disk files false 11 1
            (record { conn = e; name = codes "f" })
          ≡ ret (some (z, some (codes "abcdefghi")))))
dispatch_write_request_lem_example =
    dispatch_write_request_lem quoted empty_disk files false 0 4 9 (codes "f") eight 4 blocks
      (λ m. m) server agreed eight (codes "abcdefghi") [] (codes "abcdefghi")
      ((omega arith), (λ e. cc), inr refl, (omega arith), (tt, tt)) refl refl refl accepts_eight
      (omega arith) (omega arith) (omega arith) refl (omega arith) (λ e. cc) refl refl

-- The same server says nothing.
abbrev silent_system : System
silent_system = record system { arrivals = [] }

get_unheard_example :
    (e : Error) × (get false 12 silent_system default_client (codes "tftp://h/f")
      ≡ ret (some (no_response (some (tftp_error e "receiving request response")))))
    × ((d : Conn) × (send_read_request false 12
            (dialed silent_system default_client 5 10)
            (codes "f")
            default_client.opts
          ≡ ret (some (d, some (tftp_error e "receiving request response"))))
        × (d.sent ≡ (5, req_wire op_rrq (codes "f") mode_octet default_client.opts) ∷ []))
get_unheard_example =
    get_unheard false 5 9 silent_system default_client (codes "tftp://h/f") url parses refl refl
      refl refl refl

abbrev hasty_client : Client
hasty_client = record default_client { retransmit = pos 0 }

abbrev late : Error
late = tftp_error timeout "writing request to network"

get_untried_example :
    (get false 2 system hasty_client (codes "tftp://h/f") ≡ ret (some (no_response (some late))))
    × ((d : Conn) × (send_read_request false 2
            (dialed system hasty_client 5 0)
            (codes "f")
            hasty_client.opts
          ≡ ret (some (d, some late)))
        × (d.sent ≡ [])
        × (d.arrivals ≡ system.arrivals))
get_untried_example =
    get_untried false 1 5 system hasty_client (codes "tftp://h/f") url parses refl refl refl

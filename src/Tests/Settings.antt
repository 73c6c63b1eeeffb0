-- ===== src/Tests/Settings.antt =====
-- Options and flags: two orders of a map, the flags of a client, a request that is too large, and what
-- arrives at a server.
use trivialt.Prelude.{
  ℕ, [], ◌∷◌, List, none, some, true, false, ret, ◌≡◌, ◌↔◌, ◌⊎◌, inl, refl, take, arith,
}
use trivialt.Prelude.Bytes.{Bytes, codes}
use trivialt.Prelude.Int.{pos}
use trivialt.Datagram.{
  Options, opt_blocksize, opt_window_size, opt_transfer_size, mode_octet, err_disk_full,
}
use trivialt.Datagram.Write.Wire.{error_wire}
use trivialt.Errors.{Error}
use trivialt.Conn.{Conn, new_conn}
use trivialt.Strconv.{parse_uint, parse_int, parse_digits, format_int, format_uint, digits}
use trivialt.Datagram.Read.{put}
use trivialt.Conn.Negotiate.{parsed, apply_options, apply_option, answer_size}
use trivialt.Conn.Negotiate.Follow.{Agrees}
use trivialt.Conn.Negotiate.Agree.{apply_options-Agrees}
use trivialt.Conn.Negotiate.Maps.{swapped}
use trivialt.Conn.Negotiate.Order.{Alike, apply_options-Reorders}
use trivialt.Command.{default_flags, new_client}
use trivialt.Command.Configured.{AreAllowed, configured, new_client_iff}
use trivialt.Examples.Database.{refusal_text, receive_tftp}
use trivialt.Examples.Database.Refusal.{receive_tftp_refuses}
use trivialt.Handlers.Writing.{WriteRequest}
use trivialt.Server.{Server}
use trivialt.Server.Life.{Life, Round, arrived, read_timeout, stopped, serve, serve_rounds}
use trivialt.Server.{receive, can_serve}
use trivialt.Server.Manager.{Event, Managed, dispatch, request_done, conn_manager}
use trivialt.Server.Manager.Reach.{new_manager}
use trivialt.Server.Manager.Route.{IsRouting, manager_of}
use trivialt.Server.Loops.{serve-conn_manager}

abbrev one_order : Options
one_order = (opt_blocksize, codes "9") ∷ (opt_window_size, codes "2") ∷ []

abbrev other_order : Options
other_order = (opt_window_size, codes "2") ∷ (opt_blocksize, codes "9") ∷ []

abbrev start : Conn
start = new_conn [] [] mode_octet 7

apply_options-Reorders_example :
    Alike (apply_options start [] one_order) (apply_options start [] other_order)
apply_options-Reorders_example =
    apply_options-Reorders one_order other_order start [] [] (swapped refl) (λ k. refl)

-- The server of a negotiation that sends a file of 3 bytes.
abbrev answering : Conn
answering = record start { is_sender = true; tsize = some (pos 3) }

abbrev wanted : Options
wanted =
    (opt_blocksize, codes "9") ∷ (opt_transfer_size, codes "0") ∷ (opt_window_size, codes "2") ∷ []

abbrev acknowledged : Options
acknowledged =
    (opt_blocksize, codes "9") ∷ (opt_transfer_size, codes "3") ∷ (opt_window_size, codes "2") ∷ []

abbrev settled_server : Conn
settled_server = record answering { blksize = 9; windowsize = 2; options_parsed = true }

accepts : apply_options answering [] wanted ≡ parsed settled_server acknowledged
unfolding apply_options apply_option answer_size parse_uint parse_int parse_digits format_int
    format_uint digits put
accepts = refl

apply_options-Agrees_example :
    (e : Conn) × (b : Options) × (apply_options start [] acknowledged ≡ parsed e b)
    × Agrees settled_server e
apply_options-Agrees_example =
    apply_options-Agrees wanted answering start settled_server acknowledged
      ((refl, (refl, tt)), ((refl, tt), (tt, tt))) (3, refl, omega arith) (refl, refl, refl) accepts

new_client_iff_example :
    (new_client default_flags ≡ inl (configured default_flags))
    ↔ (AreAllowed default_flags × (configured default_flags ≡ configured default_flags))
new_client_iff_example = new_client_iff default_flags (configured default_flags)

-- A database is the list of what was inserted.
abbrev insert : List Bytes → Bytes → Bytes → (List Bytes × ℕ) ⊎ Error
insert db ip text = inl (text ∷ db, 1)

abbrev large : WriteRequest
large = record { conn = record start { tsize = some (pos 1048577) }; name = codes "log" }

receive_tftp_refuses_example :
    (c : Conn) × (receive_tftp insert (λ a. []) (λ n. 512) false 9 9 [] large ≡ ret (some (c, [])))
    × (c.sent ≡ (7, error_wire err_disk_full (take 511 refusal_text)) ∷ [])
    × (c.arrivals ≡ [])
receive_tftp_refuses_example =
    receive_tftp_refuses insert (λ a. []) (λ n. 512) false 9 9 [] large (omega arith) (refl, refl)

abbrev shared : Server
shared = record {
  net = codes "udp";
  single_port = true;
  retransmit = pos 10;
  read_handler = true;
  write_handler = false;
}

abbrev idle : Life
idle = record { local_addr = none; is_closed = false }

-- A packet of one byte, which is dropped, and a request.
abbrev rounds : List Round
rounds = arrived 4 (7 ∷ []) ∷ read_timeout ∷ arrived 4 (0 ∷ 1 ∷ 97 ∷ 0 ∷ []) ∷ stopped ∷ []

abbrev events : List Event
events = dispatch (record { addr = 4; pkt = 0 ∷ 1 ∷ 97 ∷ 0 ∷ [] }) ∷ request_done 4 ∷ []

serve-conn_manager_example :
    (d : Managed) × (conn_manager shared new_manager events ≡ ret d) × IsRouting (manager_of d)
serve-conn_manager_example =
    serve-conn_manager shared idle 1 rounds events
      (unfold serve serve_rounds can_serve receive in refl)

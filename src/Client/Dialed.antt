-- ===== src/Client/Dialed.antt =====
-- The steps of `Get` up to the run of its request.
use trivialt.Prelude.{ℕ, ret, Option, none, some, Bool, ◌≡◌, refl, inl}
use trivialt.Prelude.Bytes.{Bytes}
use trivialt.Prelude.Int.{pos}
use trivialt.Errors.{Error}
use trivialt.Datagram.{Datagram, Options}
use trivialt.Datagram.Write.{write_read_req}
use trivialt.Conn.{Conn, State, new_conn}
use trivialt.Conn.Dial.{System, connected, open_socket, new_conn_from_host}
use trivialt.Conn.Run.{run, send_read_request}
use trivialt.Client.{Client}
use trivialt.Client.Url.{ParsedUrl, url_ok, parse_url}
use trivialt.Client.Requests.{Response, response, no_response, dial, request_file, get}

-- The connection that `Get` makes, before its request.
abbrev pub dialed : System → Client → ℕ → ℕ → Conn
dialed sys c server k = record (new_conn sys.arrivals sys.write_results c.mode server) {
  order = sys.order;
  retransmit = k;
}

pub dial-connected :
    (sys : System) (c : Client) (u : ParsedUrl) (server k : ℕ)
    → sys.resolve c.net u.host ≡ inl server
    → sys.listen c.net ≡ none
    → c.retransmit ≡ pos k
    → dial sys c u ≡ connected (dialed sys c server k)
unfolding dial new_conn_from_host open_socket
dial-connected sys c u server k found free limit =
    rw (dial, new_conn_from_host, open_socket, found, free, limit) refl

pub requested :
    (windows : Bool) (fuel : ℕ) (c : Client) (file : Bytes) (conn e : Conn) (tx : Datagram)
    → write_read_req conn.tx file conn.mode c.opts ≡ ret tx
    → run windows fuel (record conn { tx = tx }) (some State.send_request) ≡ ret (some e)
    → e.err ≡ none
    → request_file windows fuel c file conn ≡ ret (some (response (record { conn = e })))
unfolding request_file send_read_request
requested windows fuel c file conn e tx made r fine = rw (made, r) (simp fine refl)

pub got :
    (windows : Bool) (fuel : ℕ) (sys : System) (c : Client) (url : Bytes) (u : ParsedUrl)
    (conn : Conn) (r : Response)
    → parse_url url ≡ url_ok u
    → dial sys c u ≡ connected conn
    → request_file windows fuel c u.file conn ≡ ret (some (response r))
    → get windows fuel sys c url ≡ ret (some (response r))
unfolding get
got windows fuel sys c url u conn r p q s = rw (get, p, q) s

-- A request that fails.
pub not_granted :
    (windows : Bool) (fuel : ℕ) (c : Client) (file : Bytes) (conn d : Conn) (e : Error)
    → send_read_request windows fuel conn file c.opts ≡ ret (some (d, some e))
    → request_file windows fuel c file conn ≡ ret (some (no_response (some e)))
unfolding request_file
not_granted windows fuel c file conn d e h = rw (request_file, h) refl

pub not_got :
    (windows : Bool) (fuel : ℕ) (sys : System) (c : Client) (url : Bytes) (u : ParsedUrl)
    (conn : Conn) (e : Option Error)
    → parse_url url ≡ url_ok u
    → dial sys c u ≡ connected conn
    → request_file windows fuel c u.file conn ≡ ret (some (no_response e))
    → get windows fuel sys c url ≡ ret (some (no_response e))
unfolding get
not_got windows fuel sys c url u conn e p q s = rw (get, p, q) s

-- The run of a request, as the result of `sendReadRequest`.
pub sent_request :
    (windows : Bool) (fuel : ℕ) (file : Bytes) (opts : Options) (conn d : Conn) (tx : Datagram)
    (e : Option Error)
    → write_read_req conn.tx file conn.mode opts ≡ ret tx
    → run windows fuel (record conn { tx = tx }) (some State.send_request) ≡ ret (some d)
    → d.err ≡ e
    → send_read_request windows fuel conn file opts ≡ ret (some (d, e))
unfolding send_read_request
sent_request windows fuel file opts conn d tx e made r h =
    rw (send_read_request, made, r) (simp h refl)

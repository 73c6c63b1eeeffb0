-- ===== src/Client/Unheard.antt =====
-- `Get` where nobody answers, and without any tries.
use trivialt.Prelude.{
  ℕ, suc, [], ◌∷◌, ret, none, some, Bool, true, false, ◌≡◌, refl, ◌∙◌, arith, inl,
}
use trivialt.Prelude.Bytes.{Bytes}
use trivialt.Prelude.Int.{pos}
use trivialt.Errors.{Error, tftp_error, wrap_error}
use trivialt.Errors
use trivialt.Datagram.{op_rrq}
use trivialt.Datagram.Write.{bytes, empty, write_read_req}
use trivialt.Datagram.Write.Wire.{req_wire, write_req_lem}
use trivialt.Conn.{WritesWork, has_time, Conn, State}
use trivialt.Conn.Dial.{System}
use trivialt.Conn.Net.Sends.{built_datagram, write_to_net-late}
use trivialt.Conn.Request.{send_request}
use trivialt.Conn.Request.Granted.{asked, send_request-quiet, run-step, run-end}
use trivialt.Conn.Send.{stop_with}
use trivialt.Conn.Request.Unheard.{receive_response_unheard}
use trivialt.Conn.Run.{step, run, send_read_request}
use trivialt.Client.{Client}
use trivialt.Client.Dialed.{dialed, dial-connected, not_granted, not_got, sent_request}
use trivialt.Client.Url.{ParsedUrl, url_ok, parse_url}
use trivialt.Client.Requests.{no_response, get}

-- The request is built and sent.
first_step :
    (windows : Bool) (f : ℕ) (conn : Conn) (b : Bytes)
    → bytes conn.tx ≡ ret b
    → WritesWork conn
    → run windows (suc f) conn (some State.send_request)
      ≡ run windows f (asked conn b) (some State.receive_response)
unfolding step
first_step windows f conn b wire works =
    run-step windows f State.send_request conn (asked conn b) (some State.receive_response)
      (send_request-quiet conn b wire works)

-- A client with a retransmit limit of `k + 1` whose server never answers, though the writes
-- succeed: after `k + 3` state functions `Get` fails with the error of its last try. What it has
-- sent by then is its request, once.
pub get_unheard :
    (windows : Bool) (server k : ℕ) (sys : System) (c : Client) (url : Bytes) (u : ParsedUrl)
    → parse_url url ≡ url_ok u
    → sys.resolve c.net u.host ≡ inl server
    → sys.listen c.net ≡ none
    → sys.write_results ≡ []
    → sys.arrivals ≡ []
    → c.retransmit ≡ pos (suc k)
    → (e : Error) × (get windows (suc (suc (suc k))) sys c url
        ≡ ret (some (no_response (some (tftp_error e "receiving request response")))))
      × ((d : Conn) × (send_read_request windows
              (suc (suc (suc k)))
              (dialed sys c server (suc k))
              u.file
              c.opts
            ≡ ret (some (d, some (tftp_error e "receiving request response"))))
          × (d.sent ≡ (server, req_wire op_rrq u.file c.mode c.opts) ∷ []))
unfolding write_read_req
get_unheard windows server k sys c url u parses found free works silent limit =
    let wire = req_wire op_rrq u.file c.mode c.opts in
    let (tx, made, built) =
      built_datagram (write_read_req empty u.file c.mode c.opts) wire
        (write_req_lem empty op_rrq u.file c.mode c.opts) in
    let conn = record (dialed sys c server (suc k)) { tx = tx } in
    let (d, r, (e, failed), trace) =
      receive_response_unheard windows k (asked conn wire)
        (record { none_left = silent; all_written = (works, ground arith) }) (omega arith) in
    let sent =
      sent_request windows (suc (suc (suc k))) u.file c.opts (dialed sys c server (suc k)) d tx
        (some (tftp_error e "receiving request response")) made
        (first_step windows (suc (suc k)) conn wire built (works, ground arith) ∙ r) failed in
    (
      e,
      not_got windows (suc (suc (suc k))) sys c url u (dialed sys c server (suc k))
          (some (tftp_error e "receiving request response")) parses
          (dial-connected sys c u server (suc k) found free limit)
          (not_granted windows (suc (suc (suc k))) c u.file (dialed sys c server (suc k)) d
            (tftp_error e "receiving request response") sent),
      (d, sent, trace),
    )

send_request-late :
    (c : Conn) (b : Bytes)
    → bytes c.tx ≡ ret b
    → has_time c ≡ false
    → send_request c
      ≡ ret (
          stop_with
            (record c { is_client = true })
            (wrap_error (some Errors.timeout) "writing request to network"))
unfolding send_request
send_request-late c b h late = rw (write_to_net-late (record c { is_client = true }) b h late) refl

-- A client with the retransmit limit 0, which `ClientRetransmit` allows: the write of its request
-- has no time, so that `Get` fails after one state function with the timeout of that write,
-- whatever the network would do; it has sent nothing and read nothing.
pub get_untried :
    (windows : Bool) (f server : ℕ) (sys : System) (c : Client) (url : Bytes) (u : ParsedUrl)
    → parse_url url ≡ url_ok u
    → sys.resolve c.net u.host ≡ inl server
    → sys.listen c.net ≡ none
    → c.retransmit ≡ pos 0
    → let failure = tftp_error Errors.timeout "writing request to network" in
      (get windows (suc f) sys c url ≡ ret (some (no_response (some failure))))
      × ((d : Conn) × (send_read_request windows (suc f) (dialed sys c server 0) u.file c.opts
            ≡ ret (some (d, some failure)))
          × (d.sent ≡ [])
          × (d.arrivals ≡ sys.arrivals))
unfolding write_read_req wrap_error step
get_untried windows f server sys c url u parses found free limit =
    let (tx, made, built) =
      built_datagram (write_read_req empty u.file c.mode c.opts) _
        (write_req_lem empty op_rrq u.file c.mode c.opts) in
    let conn = record (dialed sys c server 0) { tx = tx } in
    let failure = tftp_error Errors.timeout "writing request to network" in
    let d = record conn { is_client = true; err = some failure } in
    let sent =
      sent_request windows (suc f) u.file c.opts (dialed sys c server 0) d tx (some failure) made
        (run-step windows f State.send_request conn d none (send_request-late conn _ built refl)
          ∙ run-end windows f d)
        refl in
    (
      not_got windows (suc f) sys c url u (dialed sys c server 0) (some failure) parses
          (dial-connected sys c u server 0 found free limit)
          (not_granted windows (suc f) c u.file (dialed sys c server 0) d failure sent),
      (d, sent, refl, refl),
    )

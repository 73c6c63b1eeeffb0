-- ===== src/Client/Requests.antt =====
-- `Get`, `Put` and `Response` of client.go, on a given system. The loops run on fuel.
use trivialt.Prelude.{ℕ, List, Go, ret, ◌>>=◌, Option, none, some, Bool}
use trivialt.Prelude.Bytes.{Bytes}
use trivialt.Prelude.Int.{ℤ, pos, pos_part}
use trivialt.Datagram.{Options}
use trivialt.Errors.{Error, sentinel, size_not_received}
use trivialt.Conn.{Conn}
use trivialt.Conn.Dial.{System, Dialed, connected, failed, new_conn_from_host}
use trivialt.Conn.Run
use trivialt.Copy.{Piece, copy_out}
use trivialt.Client.{Client, put_options}
use trivialt.Client.Url.{ParsedUrl, url_ok, url_err, parse_url}

-- `Response`
pub record Response : Type 0 where
  pub conn : Conn

unfoldable pub response_size : Response → ℤ × Option Error
response_size r = elim r.conn.tsize [
  | none ↦ (pos 0, some (sentinel size_not_received))
  | some n ↦ (n, none)
]

-- What `Get` returns. A connection is left open where the request fails.
pub data Answer : Type 0 where
  response : Response → Answer
  no_response : Option Error → Answer

-- A connection to the host of a URL, with the retransmit limit of the client, which is not negative.
unfoldable pub dial : System → Client → ParsedUrl → Dialed
dial sys c u = elim (new_conn_from_host sys c.net c.mode u.host) [
  | failed e ↦ failed e
  | connected conn ↦ connected (record conn { retransmit = pos_part c.retransmit })
]

module _ (windows : Bool) (fuel : ℕ) where
  unfoldable pub read_response : Response → Bytes → Go (Option (Conn × (ℕ × Option Error)))
  read_response r p = Run.read windows fuel r.conn p

  unfoldable pub request_file : Client → Bytes → Conn → Go (Option Answer)
  request_file c file conn = do
    o ← Run.send_read_request windows fuel conn file c.opts
    ret (elim o [
      | none ↦ none
      | some (conn', some e) ↦ some (no_response (some e))
      | some (conn', none) ↦ some (response (record { conn = conn' }))
    ])

  -- `Get`
  unfoldable pub get : System → Client → Bytes → Go (Option Answer)
  unfolding request_file
  get sys c url = elim (parse_url url) [
    | url_err e ↦ ret (some (no_response (some (sentinel e))))
    | url_ok u ↦ elim (dial sys c u) [
      | failed e ↦ ret (some (no_response e))
      | connected conn ↦ request_file c u.file conn
    ]
  ]

  -- The request and, if it is granted, the copy of the data.
  unfoldable pub upload : Options → Bytes → List Piece → Conn → Go (Option (Conn × Option Error))
  upload opts file source conn = do
    o ← Run.send_write_request windows fuel conn file opts
    elim o [
      | none ↦ ret none
      | some (conn', some e) ↦ ret (some (conn', some e))
      | some (conn', none) ↦ copy_out windows fuel conn' source
    ]

  -- The deferred close, whose error is the result if there is no other.
  unfoldable pub close_after :
      Option Error → Go (Option (Conn × Option Error)) → Go (Option (Conn × Option Error))
  close_after net_error run = do
    o ← run
    elim o [
      | none ↦ ret none
      | some (conn, e) ↦ do
        closed ← Run.close windows fuel conn net_error
        ret (elim closed [
          | none ↦ none
          | some (conn', close_error) ↦
              some (conn', elim e [ none ↦ close_error | some first ↦ some first ])
        ])
    ]

  -- `Put`: the client, whose options are changed in place, the connection if there is one, and the
  -- error.
  unfoldable pub put :
      System → Client → Bytes → List Piece → ℤ → Go (Option (Client × Option Conn × Option Error))
  unfolding upload close_after
  put sys c url source size = elim (parse_url url) [
    | url_err e ↦ ret (some (c, none, some (sentinel e)))
    | url_ok u ↦ elim (dial sys c u) [
      | failed e ↦ ret (some (c, none, e))
      | connected conn ↦ do
        let c' = record c { opts = put_options c.opts size }
        o ← close_after sys.close_result (upload c'.opts u.file source conn)
        ret (elim o [ none ↦ none | some (conn', e) ↦ some (c', some conn', e) ])
    ]
  ]

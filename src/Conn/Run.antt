-- ===== src/Conn/Run.antt =====
-- The loops over the state functions, and the methods that start them: `sendWriteRequest`,
-- `sendReadRequest`, `Write`, `Read` and `Close`. Fuel bounds the number of state functions run.
use trivialt.Prelude.{
  ℕ, zero, suc, [], Go, ret, ◌>>=◌, Option, none, some, Bool, true, false, not, ◌&&◌, if◌then◌else◌,
}
use trivialt.Prelude.Bytes.{Bytes}
use trivialt.Datagram.{Options}
use trivialt.Datagram.Write.{write_read_req, write_write_req}
use trivialt.Netascii.Writer
use trivialt.Errors.{Error, is_eof, wrap_error}
use trivialt.Ring.{Ring}
use trivialt.Conn.{Conn, State, Next, Target, encoding}
use trivialt.Conn.Send
use trivialt.Conn.Send.{take_all, encoder}
use trivialt.Conn.Receive
use trivialt.Conn.Request

module _ (windows : Bool) where
  -- One call of a state function.
  unfoldable pub step : State → Conn → Go Next
  step State.send_request c = Request.send_request c
  step State.receive_response c = Request.receive_response c
  step State.handle_wrq_response c = Request.handle_wrq_response c
  step State.handle_rrq_response c = Request.handle_rrq_response c
  step State.start_write c = Send.start_write c
  step State.write_setup c = Send.write_setup c
  step State.write c = Send.write c
  step State.write_data c = Send.write_data c
  step State.get_ack c = Send.get_ack c
  step State.start_read c = Receive.start_read c
  step State.read_setup c = Receive.read_setup c
  step State.read c = Receive.read windows c
  step State.read_data c = Receive.read_data c
  step State.ack_data c = Receive.ack_data c
  step (State.send_oack o) c = Send.send_oack c o
  step (State.fail e desc) c = ret (record c { err = wrap_error (some e) desc }, none)

  -- `for state := first; state != nil; { state = state() }`; `none` means that the fuel ran out.
  unfoldable pub run : ℕ → Conn → Option State → Go (Option Conn)
  run fuel c none = ret (some c)
  run zero c (some s) = ret none
  run (suc fuel) c (some s) = do (c', next) ← step s c; run fuel c' next

  abbrev pub is_nil : Option Error → Bool
  is_nil none = true
  is_nil (some e) = false

  -- The result of a loop, if it ended.
  abbrev finish {ℓ} : {A : Type ℓ} → Go (Option Conn) → (Conn → A) → Go (Option (Conn × A))
  finish r f = do o ← r; ret (elim o [ none ↦ none | some c ↦ some (c, f c) ])

  module _ (fuel : ℕ) where
    -- `sendWriteRequest`; the result is its error.
    unfoldable pub send_write_request : Conn → Bytes → Options → Go (Option (Conn × Option Error))
    send_write_request c filename opts = do
      tx ← write_write_req c.tx filename c.mode opts
      finish (run fuel (record c { is_sender = true; tx = tx }) (some State.send_request))
          (λ c'. c'.err)

    -- `sendReadRequest`
    unfoldable pub send_read_request : Conn → Bytes → Options → Go (Option (Conn × Option Error))
    send_read_request c filename opts = do
      tx ← write_read_req c.tx filename c.mode opts
      finish (run fuel (record c { tx = tx }) (some State.send_request)) (λ c'. c'.err)

    -- `Write`: the count and the error.
    unfoldable pub write : Conn → Bytes → Go (Option (Conn × (ℕ × Option Error)))
    write c p = elim c.err [
      | some e ↦ ret (some (c, (0, wrap_error (some e) "checking conn err before Write")))
      | none ↦
          finish (run fuel (record c { p = p }) (some State.start_write))
            (λ c'. (c'.n, wrap_error c'.err "writing"))
    ]

    -- `Read`: what it put into `p` is the first `n` bytes of the connection's `p`.
    unfoldable pub read : Conn → Bytes → Go (Option (Conn × (ℕ × Option Error)))
    read c0 p =
        let c = record c0 { n = 0 } in
        elim c.err [
          | some e ↦ ret (some (c, (0, wrap_error (some e) "checking conn error before Read")))
          | none ↦
              finish (run fuel (record c { p = p }) (some State.start_read)) (λ c'. (c'.n, c'.err))
        ]

    -- The deferred close of the network, which never changes the result of `Close`.
    unfoldable pub close_net : Conn → Option Error → Conn
    close_net c e =
        if c.single_port
        then c
        else record c { net_closed = true; err = elim c.err [ none ↦ e | some e' ↦ some e' ] }

    -- Flushing a netascii writer puts its pending bytes into the ring.
    unfoldable pub flush_writer : Conn → Target → Option Ring → Conn
    flush_writer c (encoding pending last) (some r) =
        let (e, good) = Writer.flush Ring take_all (encoder r pending last) in
        record c { writer = encoding e.w.pending e.last; tx_buf = some e.w.sink }
    flush_writer c _ _ = c

    -- The rest is written, or an empty last block, if a ring was ever set up.
    unfoldable pub write_rest : Conn → Option Ring → Go (Option Conn)
    write_rest c none = ret (some c)
    write_rest c (some r) = do
      o ← write (record c { closing = true }) []
      ret (elim o [ none ↦ none | some (c', result) ↦ some c' ])

    -- `Close`, given the result of closing the network.
    unfoldable pub close : Conn → Option Error → Go (Option (Conn × Option Error))
    unfolding close_net flush_writer write_rest
    close c net_error =
        if not (is_nil c.err) && not (is_eof c.err)
        then ret (some (close_net c net_error, wrap_error c.err "checking conn err before Close"))
        else (do
          let c' = flush_writer c c.writer c.tx_buf
          o ← write_rest c' c'.tx_buf
          ret (elim o [
            | none ↦ none
            | some c'' ↦ some (close_net c'' net_error, if is_eof c''.err then none else c''.err)
          ]))

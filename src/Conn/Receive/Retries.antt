-- ===== src/Conn/Receive/Retries.antt =====
-- A receiver that hears nothing gives up after `retransmit` tries.
use trivialt.Prelude.{
  ℕ, zero, suc, ◌+◌, [], ◌∷◌, ◌++◌, ret, Option, none, some, Bool, true, false, leb, subst, sym,
  ◌≡◌, refl, ap, ◌∙◌, arith, append_assoc, replicate,
}
use trivialt.Prelude.Bytes.{codes}
use trivialt.Datagram.{err_not_defined}
use trivialt.Datagram.Write.Wire.{ack_wire}
use trivialt.Errors.{Error, sentinel, max_retries, wrap_error, tftp_error}
use trivialt.Conn.{WritesWork, Conn, State}
use trivialt.Conn.Net.{read_from_net, send_ack}
use trivialt.Conn.Net.Sends.{send_ack-SendsBy, send_error-Transmits}
use trivialt.Conn.Net.Silence.{IsSilent, farewell, silent_read}
use trivialt.Conn.Receive.{read_data}
use trivialt.Conn.Run.{step, run}

retry :
    (c d d' : Conn) (addr : Option ℕ) (e : Error) (e' : Option Error)
    → leb c.retransmit c.tries ≡ false
    → read_from_net (record c { tries = c.tries + 1 }) ≡ (d, addr, some e)
    → send_ack d d.block ≡ ret (d', e')
    → read_data c ≡ ret (record d' { window = 0 }, some State.read_data)
unfolding read_data
retry c d d' addr e e' more r s =
    let got : (read_from_net (record c { tries = c.tries + 1 })).0 ≡ d = ap (λ x. x.0) r in
    let failed : (read_from_net (record c { tries = c.tries + 1 })).2 ≡ some e = ap (λ x. x.2) r in
    rw (more, failed, got, s) refl

-- One try: the last block is acknowledged again.
try_again :
    (c : Conn)
    → IsSilent c
    → leb c.retransmit c.tries ≡ false
    → (d : Conn) × (read_data c ≡ ret (d, some State.read_data))
      × IsSilent d
      × (d.tries ≡ c.tries + 1)
      × (d.retransmit ≡ c.retransmit)
      × (d.block ≡ c.block)
      × (d.blksize ≡ c.blksize)
      × (d.remote_addr ≡ c.remote_addr)
      × (d.rx_buf ≡ c.rx_buf)
      × (d.sent ≡ c.sent ++ (c.remote_addr, ack_wire c.block) ∷ [])
unfolding read_data
try_again c h more =
    let c1 = record c { tries = c.tries + 1 } in
    let (d, addr, e, r, same) = silent_read c1 h.none_left in
    let (d', e', s, t) = send_ack-SendsBy d d.block in
    let whole : d'
        ≡ record c1 { rx = d.rx; tx = d'.tx; sent = d'.sent; write_results = d'.write_results } =
      t.same
      ∙ ap (λ (x : Conn). record x { tx = d'.tx; sent = d'.sent; write_results = d'.write_results })
          same in
    let written = subst WritesWork (sym same) h.all_written in
    let (good, left) = t.sure written in
    (
      record d' { window = 0 },
      retry c d d' addr e e' more r s,
      record { none_left = ap (λ (x : Conn). x.arrivals) whole ∙ h.none_left; all_written = left },
      ap (λ (x : Conn). x.tries) whole,
      ap (λ (x : Conn). x.retransmit) whole,
      ap (λ (x : Conn). x.block) whole,
      ap (λ (x : Conn). x.blksize) whole,
      ap (λ (x : Conn). x.remote_addr) whole,
      ap (λ (x : Conn). x.rx_buf) whole,
      t.trace good ∙ ap (λ (x : Conn). x.sent ++ (x.remote_addr, ack_wire x.block) ∷ []) same,
    )

give_up :
    (c : Conn)
    → IsSilent c
    → leb c.retransmit c.tries ≡ true
    → (d : Conn) × (read_data c ≡ ret (d, none))
      × (d.err ≡ some (tftp_error (sentinel max_retries) "reading data"))
      × (d.rx_buf ≡ c.rx_buf)
      × (d.sent ≡ c.sent ++ farewell c ∷ [])
unfolding read_data wrap_error
give_up c h full =
    let (d, e, r, t) = send_error-Transmits c err_not_defined (codes "max retries reached") in
    let (good, left) = t.sure h.all_written in
    (
      record d { err = some (tftp_error (sentinel max_retries) "reading data") },
      rw (full, r) refl,
      refl,
      ap (λ (x : Conn). x.rx_buf) t.same,
      t.trace good,
    )

-- A receiver in `readData` that has `k` tries left and hears nothing, but whose writes succeed,
-- sends the ACK of its last block `k` times and then one ERROR; it ends, after `k + 1` state
-- functions, with `ErrMaxRetries`, and keeps the data it had.
pub read_data_gives_up :
    (windows : Bool) (k : ℕ) (c : Conn)
    → IsSilent c
    → c.tries + k ≡ c.retransmit
    → (d : Conn) × (run windows (suc k) c (some State.read_data) ≡ ret (some d))
      × (d.err ≡ some (tftp_error (sentinel max_retries) "reading data"))
      × (d.rx_buf ≡ c.rx_buf)
      × (d.sent ≡ c.sent ++ (replicate k (c.remote_addr, ack_wire c.block) ++ farewell c ∷ []))
unfolding run step
read_data_gives_up windows zero c h left =
    let full : leb c.retransmit c.tries ≡ true = ground arith in
    let (d, r, failed, kept, trace) = give_up c h full in (d, rw r refl, failed, kept, trace)
read_data_gives_up windows (suc k) c h left =
    let more : leb c.retransmit c.tries ≡ false = ground arith in
    let (d, r, h', tries, limit, at, size, addr, kept, trace) = try_again c h more in
    let (d', r', failed, kept', trace') = read_data_gives_up windows k d h' (omega arith) in
    (
      d',
      rw r r',
      failed,
      kept' ∙ kept,
      trace'
          ∙ rw (trace, at, size, addr)
              (append_assoc c.sent ((c.remote_addr, ack_wire c.block) ∷ []) _),
    )

-- ===== src/Conn/Send/Waits.antt =====
-- A sender that hears nothing waits, and sends nothing again.
use trivialt.Prelude.{
  ℕ, zero, suc, ◌+◌, [], ◌∷◌, ◌++◌, ret, Option, none, some, Bool, true, false, ltb, subst, sym,
  ◌≡◌, refl, ap, ◌∙◌, arith,
}
use trivialt.Prelude.Bytes.{codes}
use trivialt.Datagram.{err_not_defined}
use trivialt.Errors.{Error, sentinel, max_retries, wrap_error, tftp_error}
use trivialt.Conn.{WritesWork, Conn, State}
use trivialt.Conn.Net.{read_from_net}
use trivialt.Conn.Net.Sends.{send_error-Transmits}
use trivialt.Conn.Net.Silence.{IsSilent, farewell, silent_read}
use trivialt.Conn.Send.{get_ack}
use trivialt.Conn.Run.{step, run}

-- The next try, whose number is under the limit.
waited :
    (c d : Conn) (addr : Option ℕ) (e : Error)
    → ltb c.retransmit (c.tries + 1) ≡ false
    → read_from_net (record c { tries = c.tries + 1 }) ≡ (d, addr, some e)
    → get_ack c ≡ ret (record d { err = wrap_error (some e) "waiting for ACK" }, some State.get_ack)
unfolding get_ack
waited c d addr e more r =
    let got : (read_from_net (record c { tries = c.tries + 1 })).0 ≡ d = ap (λ x. x.0) r in
    let failed : (read_from_net (record c { tries = c.tries + 1 })).2 ≡ some e = ap (λ x. x.2) r in
    rw (more, failed, got) refl

wait :
    (c : Conn)
    → IsSilent c
    → ltb c.retransmit (c.tries + 1) ≡ false
    → (d : Conn) × (get_ack c ≡ ret (d, some State.get_ack))
      × IsSilent d
      × (d ≡ record c { tries = c.tries + 1; rx = d.rx; err = d.err })
wait c h more =
    let (d, addr, e, r, same) = silent_read (record c { tries = c.tries + 1 }) h.none_left in
    (
      record d { err = wrap_error (some e) "waiting for ACK" },
      waited c d addr e more r,
      record {
        none_left = ap (λ (x : Conn). x.arrivals) same ∙ h.none_left;
        all_written = subst WritesWork (sym same) h.all_written;
      },
      ap (λ (x : Conn). record x { err = wrap_error (some e) "waiting for ACK" }) same,
    )

-- Beyond the limit.
give_up :
    (c : Conn)
    → IsSilent c
    → ltb c.retransmit (c.tries + 1) ≡ true
    → (d : Conn) × (get_ack c ≡ ret (d, none))
      × (d.err ≡ some (tftp_error (sentinel max_retries) "reading ack"))
      × (d.block ≡ c.block)
      × (d.sent ≡ c.sent ++ farewell c ∷ [])
unfolding get_ack wrap_error
give_up c h full =
    let c1 = record c { tries = c.tries + 1 } in
    let (d, e, r, t) = send_error-Transmits c1 err_not_defined (codes "max retries reached") in
    let (good, left) = t.sure h.all_written in
    (
      record d { err = some (tftp_error (sentinel max_retries) "reading ack") },
      rw (full, r) refl,
      refl,
      ap (λ (x : Conn). x.block) t.same,
      t.trace good,
    )

-- A sender in `getAck` that has `k` tries left and hears nothing, but whose writes succeed, sends
-- no packet but one ERROR: the block that may be lost is never sent again. After `k + 1` state
-- functions it ends with `ErrMaxRetries`, at the block where it was.
pub get_ack_gives_up :
    (windows : Bool) (k : ℕ) (c : Conn)
    → IsSilent c
    → c.tries + k ≡ c.retransmit
    → (d : Conn) × (run windows (suc k) c (some State.get_ack) ≡ ret (some d))
      × (d.err ≡ some (tftp_error (sentinel max_retries) "reading ack"))
      × (d.block ≡ c.block)
      × (d.sent ≡ c.sent ++ farewell c ∷ [])
unfolding run step
get_ack_gives_up windows zero c h left =
    let full : ltb c.retransmit (c.tries + 1) ≡ true = ground arith in
    let (d, r, failed, at, trace) = give_up c h full in (d, rw r refl, failed, at, trace)
get_ack_gives_up windows (suc k) c h left =
    let more : ltb c.retransmit (c.tries + 1) ≡ false = ground arith in
    let (d, r, h', same) = wait c h more in
    let tries = ap (λ (x : Conn). x.tries) same in
    let limit = ap (λ (x : Conn). x.retransmit) same in
    let (d', r', failed, at, trace) = get_ack_gives_up windows k d h' (omega arith) in
    (
      d',
      rw r r',
      failed,
      at ∙ ap (λ (x : Conn). x.block) same,
      trace ∙ ap (λ (x : Conn). x.sent ++ farewell x ∷ []) same,
    )

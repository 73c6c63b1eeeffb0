-- ===== src/Conn/Request/Unheard.antt =====
-- A request that nobody answers.
use trivialt.Prelude.{
  ℕ, zero, suc, ◌+◌, ret, Option, none, some, Bool, true, false, leb, subst, sym, ◌≡◌, refl, ap,
  ◌∙◌, arith,
}
use trivialt.Errors.{Error, wrap_error, tftp_error}
use trivialt.Conn.{WritesWork, Conn, State}
use trivialt.Conn.Net.{read_from_net}
use trivialt.Conn.Net.Silence.{IsSilent, silent_read}
use trivialt.Conn.Request.{receive_response}
use trivialt.Conn.Run.{step, run}

abbrev HasFailed : Conn → Type 0
HasFailed c = (e : Error) × (c.err ≡ some e)

-- The next try, whose number is under the limit.
waited :
    (c d : Conn) (addr : Option ℕ) (e : Error)
    → leb c.retransmit c.tries ≡ false
    → read_from_net (record c { tries = c.tries + 1 }) ≡ (d, addr, some e)
    → receive_response c ≡ ret (record d { err = some e }, some State.receive_response)
unfolding receive_response
waited c d addr e more r =
    let got : (read_from_net (record c { tries = c.tries + 1 })).0 ≡ d = ap (λ x. x.0) r in
    let failed : (read_from_net (record c { tries = c.tries + 1 })).2 ≡ some e = ap (λ x. x.2) r in
    rw (more, failed, got) refl

wait :
    (c : Conn)
    → IsSilent c
    → leb c.retransmit c.tries ≡ false
    → (d : Conn) × (receive_response c ≡ ret (d, some State.receive_response))
      × IsSilent d
      × HasFailed d
      × (d ≡ record c { tries = c.tries + 1; rx = d.rx; err = d.err })
wait c h more =
    let (d, addr, e, r, same) = silent_read (record c { tries = c.tries + 1 }) h.none_left in
    (
      record d { err = some e },
      waited c d addr e more r,
      record {
        none_left = ap (λ (x : Conn). x.arrivals) same ∙ h.none_left;
        all_written = subst WritesWork (sym same) h.all_written;
      },
      (e, refl),
      ap (λ (x : Conn). record x { err = some e }) same,
    )

-- Out of tries.
ended :
    (windows : Bool) (f : ℕ) (c : Conn)
    → leb c.retransmit c.tries ≡ true
    → run windows (suc f) c (some State.receive_response)
      ≡ ret (some (record c { err = wrap_error c.err "receiving request response" }))
unfolding run step receive_response
ended windows f c full = rw full refl

-- What is left of a client in `receiveResponse` that hears nothing more: it reads, and sends nothing.
unheard :
    (windows : Bool) (k : ℕ) (c : Conn)
    → IsSilent c
    → c.tries + k ≡ c.retransmit
    → HasFailed c
    → (d : Conn) × (run windows (suc k) c (some State.receive_response) ≡ ret (some d))
      × ((e : Error) × (d.err ≡ some (tftp_error e "receiving request response")))
      × (d.sent ≡ c.sent)
unfolding run step wrap_error
unheard windows zero c h left (e, failed) =
    let full : leb c.retransmit c.tries ≡ true = ground arith in
    (
      record c { err = wrap_error c.err "receiving request response" },
      ended windows 0 c full,
      (e, ap (λ x. wrap_error x "receiving request response") failed),
      refl,
    )
unheard windows (suc k) c h left failed =
    let more : leb c.retransmit c.tries ≡ false = ground arith in
    let (d, r, h', failed', same) = wait c h more in
    let tries = ap (λ (x : Conn). x.tries) same in
    let limit = ap (λ (x : Conn). x.retransmit) same in
    let (d', r', err, trace) = unheard windows k d h' (omega arith) failed' in
    (d', rw r r', err, trace ∙ ap (λ (x : Conn). x.sent) same)

-- The first try has no failure behind it.
pub receive_response_unheard :
    (windows : Bool) (k : ℕ) (c : Conn)
    → IsSilent c
    → c.tries + suc k ≡ c.retransmit
    → (d : Conn) × (run windows (suc (suc k)) c (some State.receive_response) ≡ ret (some d))
      × ((e : Error) × (d.err ≡ some (tftp_error e "receiving request response")))
      × (d.sent ≡ c.sent)
unfolding run step
receive_response_unheard windows k c h left =
    let more : leb c.retransmit c.tries ≡ false = ground arith in
    let (d, r, h', failed, same) = wait c h more in
    let tries = ap (λ (x : Conn). x.tries) same in
    let limit = ap (λ (x : Conn). x.retransmit) same in
    let (d', r', err, trace) = unheard windows k d h' (omega arith) failed in
    (d', rw r r', err, trace ∙ ap (λ (x : Conn). x.sent) same)

-- No tries at all: the request counts as answered.
pub receive_response_untried :
    (windows : Bool) (f : ℕ) (c : Conn)
    → c.retransmit ≡ 0
    → c.err ≡ none
    → run windows (suc f) c (some State.receive_response) ≡ ret (some (record c { err = none }))
unfolding wrap_error
receive_response_untried windows f c limit fine =
    let full : leb c.retransmit c.tries ≡ true = ground arith in
    ended windows f c full
    ∙ ap (λ e. ret (some (record c { err = wrap_error e "receiving request response" }))) fine

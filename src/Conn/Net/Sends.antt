-- ===== src/Conn/Net/Sends.antt =====
-- What the network has after an ACK, an ERROR or a DATA went out. Nothing here panics.
use Prim.Native.String.{String}
use trivialt.Prelude.{
  ℕ, [], ◌∷◌, ◌++◌, List, Go, ret, panic, ◌>>=◌, Option, none, some, true, false, ◌≡◌, refl, sym,
  ap, arith, take, length, take-all, ltb, if◌then◌else◌, Bool-cases, inl, inr,
}
use trivialt.Prelude.Bytes.{Bytes}
use trivialt.Datagram.{Datagram}
use trivialt.Datagram.Write.{bytes, write_ack, write_error}
use trivialt.Datagram.Write.Wire.{ack_wire, error_wire, write_ack_lem, write_error_lem}
use trivialt.Errors.{Error, wrap_error}
use trivialt.Errors
use trivialt.Conn.{Conn, WritesWork, has_time}
use trivialt.Conn.Net.{write_to_net, send_ack, send_error, msg_room}

-- `c'` is `c` after it tried to send `b` to its peer with the result `e`.
pub record Transmits (c : Conn) (b : Bytes) (c' : Conn) (e : Option Error) : Type 0 where
  pub same : c' ≡ record c { tx = c'.tx; sent = c'.sent; write_results = c'.write_results }
  pub trace : e ≡ none → c'.sent ≡ c.sent ++ (c.remote_addr, b) ∷ []
  pub sure : WritesWork c → (e ≡ none) × WritesWork c'

abbrev pub SendsBy : Go (Conn × Option Error) → Conn → Bytes → Type 0
SendsBy m c b = (c' : Conn) × (e : Option Error) × (m ≡ ret (c', e)) × Transmits c b c' e

by_results :
    (c : Conn) (b : Bytes) (rs : List (Option Error))
    → c.write_results ≡ rs
    → has_time c ≡ true
    → bytes c.tx ≡ ret b
    → SendsBy (write_to_net c) c b
unfolding write_to_net
by_results c b [] w t h = (
  record c { sent = c.sent ++ (c.remote_addr, b) ∷ [] },
  none,
  rw (h, t, w)
      (ap
        (λ rs.
          ret (record c { sent = c.sent ++ (c.remote_addr, b) ∷ []; write_results = rs }, none))
        w),
  record { same = refl; trace = λ _. refl; sure = λ e. (refl, e) },
)
by_results c b (none ∷ rs) w t h = (
  record c { sent = c.sent ++ (c.remote_addr, b) ∷ []; write_results = rs },
  none,
  rw (h, t, w),
  record { same = refl; trace = λ _. refl; sure = λ e. let k = e.0 in cc },
)
by_results c b (some e ∷ rs) w t h = (
  record c { write_results = rs },
  some e,
  rw (h, t, w),
  record { same = refl; trace = λ k. cc; sure = λ e. let k = e.0 in cc },
)

-- Without time the write fails.
pub write_to_net-late :
    (c : Conn) (b : Bytes)
    → bytes c.tx ≡ ret b
    → has_time c ≡ false
    → write_to_net c ≡ ret (c, some Errors.timeout)
unfolding write_to_net
write_to_net-late c b h late = rw (h, late) refl

pub write_to_net-SendsBy :
    (c : Conn) (b : Bytes) → bytes c.tx ≡ ret b → SendsBy (write_to_net c) c b
write_to_net-SendsBy c b h = elim (Bool-cases (has_time c)) [
  | inl t ↦ by_results c b c.write_results refl t h
  | inr f ↦ (
    c,
    some Errors.timeout,
    write_to_net-late c b h f,
    record { same = refl; trace = λ k. cc; sure = λ e. let k = e.1 in cc },
  )
]

-- A constructor whose bytes are known leaves a datagram that has them.
pub built_datagram :
    (m : Go Datagram) (b : Bytes)
    → (m >>= bytes) ≡ ret b
    → (tx : Datagram) × (m ≡ ret tx) × (bytes tx ≡ ret b)
built_datagram (ret tx) b h = (tx, refl, h)
built_datagram panic b h = cc

unwrapped : (e : Option Error) (msg : String) → wrap_error e msg ≡ none → e ≡ none
unfolding wrap_error
unwrapped none msg k = refl
unwrapped (some e) msg k = cc

-- What the caller changed besides `tx` is what counts as the connection that sends.
pub send_ack-SendsBy : (c : Conn) (n : ℕ) → SendsBy (send_ack c n) c (ack_wire n)
unfolding send_ack
send_ack-SendsBy c n =
    let (tx, made, wire) = built_datagram (write_ack c.tx n) (ack_wire n) (write_ack_lem c.tx n) in
    let (c', e, r, t) = write_to_net-SendsBy (record c { tx = tx }) (ack_wire n) wire in
    (
      c',
      wrap_error e "sending ACK",
      rw (made, r),
      record {
        same = t.same;
        trace = λ k. t.trace (unwrapped e "sending ACK" k);
        sure = λ k. let (good, left) = t.sure k in (rw good (unfold wrap_error in refl), left);
      },
    )

-- An ERROR carries its message, cut to the room for it.
pub send_error-Transmits :
    (c : Conn) (code : ℕ) (msg : Bytes)
    → (c' : Conn) × (e : Option Error) × (send_error c code msg ≡ ret c')
      × Transmits c (error_wire code (take (msg_room c) msg)) c' e
unfolding send_error
send_error-Transmits c code msg =
    let text = take (msg_room c) msg in
    let cut : (if ltb (msg_room c) (length msg) then take (msg_room c) msg else msg) ≡ text =
      elim (Bool-cases (ltb (msg_room c) (length msg))) [
        | inl t ↦ rw t
        | inr f ↦ rw f (sym (take-all (msg_room c) msg (ground arith)))
      ] in
    let (tx, made, wire) =
      built_datagram (write_error c.tx code text) (error_wire code text)
        (write_error_lem c.tx code text) in
    let (c', e, r, t) = write_to_net-SendsBy (record c { tx = tx }) (error_wire code text) wire in
    (c', e, rw (cut, made, r), record { same = t.same; trace = t.trace; sure = t.sure })

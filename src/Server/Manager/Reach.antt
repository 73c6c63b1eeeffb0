-- ===== src/Server/Manager/Reach.antt =====
-- What holds of the manager after any events, and what one more packet does then.
use trivialt.Prelude.{
  ℕ, ◌≤◌, ◌<◌, [], ◌∷◌, ◌++◌, Go, ret, Option, none, some, true, false, ltb, ◌==◌, length, ◌≡◌, ◌≢◌,
  refl, subst, sym, ap, ◌∙◌, arith, Bool-cases, inl, inr,
}
use trivialt.Prelude.Bytes.{Bytes, at_index, at_index-lt, codes}
use trivialt.Datagram.{err_unknown_transfer_id}
use trivialt.Datagram.Write.Wire.{error_wire}
use trivialt.Server.{Server, Request}
use trivialt.Server.Manager.{
  Manager, Event, Managed, running, blocked, returned, dispatch, request_done, taken, take_from,
  closed, channel_size, or_empty, lookup, delete, start_job, queue_of, send_to, refuse, forward,
  manage,
}
use trivialt.Server.Manager.Channels.{lookup-delete, queue-set_self, queue-set_ne}
use trivialt.Server.Manager.Route.{
  IsRouting, manager_of, queued, start_job-IsRouting, queued-IsRouting, take_from-IsRouting,
  refuse-returns,
}

-- `Serve` passes on packets of two bytes or more only.
abbrev pub IsReceived : Event → Type 0
IsReceived (dispatch req) = 2 ≤ length req.pkt
IsReceived (request_done addr) = Unit
IsReceived (taken ch) = Unit
IsReceived closed = Unit

abbrev pub Routes : Go Managed → Type 0
Routes r = (d : Managed) × (r ≡ ret d) × IsRouting (manager_of d)

refuse-Routes : (m : Manager) (a : ℕ) → IsRouting m → Routes (refuse m a)
refuse-Routes m a h = (
  running (record m {
    replies = m.replies ++ (a, error_wire err_unknown_transfer_id (codes "Unexpected TID")) ∷ [];
  }),
  refuse-returns m a,
  record { known = h.known; apart = h.apart; room = h.room },
)

send_to-IsRouting :
    (m : Manager) (ch : ℕ) (pkt : Bytes)
    → IsRouting m
    → ch < length m.channels
    → IsRouting (manager_of (send_to m ch pkt))
unfolding send_to
send_to-IsRouting m ch pkt h lt = elim (Bool-cases (ltb (length (queue_of m ch)) channel_size)) [
  | inl t ↦ rw t (queued-IsRouting m ch pkt h lt (ground arith))
  | inr f ↦ rw f h
]

forward_found :
    (s : Server) (m : Manager) (req : Request) (o : Option ℕ)
    → s.single_port ≡ true
    → lookup m.req_map req.addr ≡ o
    → IsRouting m
    → Routes (forward s m req)
unfolding forward
forward_found s m req none p e h = rw (p, e) (refuse-Routes m req.addr h)
forward_found s m req (some ch) p e h =
    rw (p, e) (send_to m ch req.pkt, refl, send_to-IsRouting m ch req.pkt h (h.known req.addr ch e))

forward-Routes : (s : Server) (m : Manager) (req : Request) → IsRouting m → Routes (forward s m req)
unfolding forward
forward-Routes s m req h = elim (Bool-cases s.single_port) [
  | inl t ↦ forward_found s m req (lookup m.req_map req.addr) t refl h
  | inr f ↦ rw f (refuse-Routes m req.addr h)
]

dispatch-Routes :
    (s : Server) (m : Manager) (req : Request) (op : ℕ)
    → at_index req.pkt 1 ≡ ret op
    → IsRouting m
    → Routes (manage s m (dispatch req))
unfolding manage
dispatch-Routes s m req op e h = elim (Bool-cases (op == 1)) [
  | inl t ↦ rw (e, t) (running (start_job s m true req), refl, start_job-IsRouting s m true req h)
  | inr f ↦ elim (Bool-cases (op == 2)) [
    | inl t ↦
        rw (e, f, t) (running (start_job s m false req), refl, start_job-IsRouting s m false req h)
    | inr f' ↦ rw (e, f, f') (forward-Routes s m req h)
  ]
]

pub manage-Routes :
    (s : Server) (m : Manager) (ev : Event) → IsReceived ev → IsRouting m → Routes (manage s m ev)
unfolding manage
manage-Routes s m (dispatch req) long h =
    let (op, e) = at_index-lt req.pkt 1 (omega arith) in dispatch-Routes s m req op e h
manage-Routes s m (request_done a) long h = (
  running (record m { req_map = delete m.req_map a }),
  refl,
  record {
    known = λ b ch e. h.known b ch (lookup-delete m.req_map a b ch e);
    apart = λ b c ch e e'.
        h.apart b c ch (lookup-delete m.req_map a b ch e) (lookup-delete m.req_map a c ch e');
    room = h.room;
  },
)
manage-Routes s m (taken ch) long h = (running (take_from m ch), refl, take_from-IsRouting m ch h)
manage-Routes s m closed long h = (returned m, refl, h)

-- The manager that `connManager` starts with, and every one that its events lead to.
abbrev pub new_manager : Manager
new_manager = record { req_map = []; channels = []; req_chan = none; jobs = []; replies = [] }

pub data Reaches (s : Server) : Manager → Type 0 where
  start : Reaches s new_manager
  next :
      {m m' : Manager} (ev : Event)
      → Reaches s m
      → IsReceived ev
      → manage s m ev ≡ ret (running m')
      → Reaches s m'

nothing_known : (a ch : ℕ) → lookup [] a ≢ some ch
unfolding lookup
nothing_known a ch e = cc

-- After any events whose packets `Serve` passes on, every known address has a channel of its own,
-- two addresses never share one, and no channel holds more packets than its size.
pub Reaches-IsRouting : (s : Server) (m : Manager) → Reaches s m → IsRouting m
Reaches-IsRouting s _ start = record {
  known = λ a ch e. absurd (nothing_known a ch e);
  apart = λ a b ch e e'. absurd (nothing_known a ch e);
  room = λ ch. omega arith;
}
Reaches-IsRouting s m' (next {m} ev before long e) =
    let (d, r, h) = manage-Routes s m ev long (Reaches-IsRouting s m before) in
    let same : running m' ≡ d = cc in subst (λ x. IsRouting (manager_of x)) (sym same) h

sent_on :
    (s : Server) (m : Manager) (req : Request) (op ch : ℕ)
    → s.single_port ≡ true
    → at_index req.pkt 1 ≡ ret op
    → op ≢ 1
    → op ≢ 2
    → lookup m.req_map req.addr ≡ some ch
    → manage s m (dispatch req) ≡ ret (send_to m ch req.pkt)
unfolding manage forward
sent_on s m req op ch single e read write known =
    let no_read : (op == 1) ≡ false = ground arith in
    let no_write : (op == 2) ≡ false = ground arith in rw (e, no_read, no_write, single, known) refl

-- In the single port mode, after any events, a packet that is no request and whose sender has the
-- channel `ch` is put at the end of that channel, and the packets that wait for every other
-- address stay as they are; if the channel is full, the manager blocks, with everything behind it.
pub manage_delivers :
    (s : Server) (m : Manager) (req : Request) (op ch : ℕ)
    → Reaches s m
    → s.single_port ≡ true
    → at_index req.pkt 1 ≡ ret op
    → op ≢ 1
    → op ≢ 2
    → lookup m.req_map req.addr ≡ some ch
    → (length (queue_of m ch) < channel_size
        → (manage s m (dispatch req) ≡ ret (running (queued m ch req.pkt)))
          × (queue_of (queued m ch req.pkt) ch ≡ queue_of m ch ++ req.pkt ∷ [])
          × ((b other : ℕ)
              → b ≢ req.addr
              → lookup m.req_map b ≡ some other
              → queue_of (queued m ch req.pkt) other ≡ queue_of m other))
      × (channel_size ≤ length (queue_of m ch) → manage s m (dispatch req) ≡ ret (blocked m))
unfolding send_to
manage_delivers s m req op ch reached single e read write known =
    let h = Reaches-IsRouting s m reached in
    let sent = sent_on s m req op ch single e read write known in
    (
      λ small.
          let free : ltb (length (queue_of m ch)) channel_size ≡ true = ground arith in
          (
            sent ∙ rw free refl,
            ap or_empty (
                queue-set_self m.channels ch (queue_of m ch ++ req.pkt ∷ [])
                  (h.known req.addr ch known)),
            λ b other ne k. ap or_empty (
                queue-set_ne m.channels ch other (queue_of m ch ++ req.pkt ∷ [])
                  (λ same. ne (h.apart b req.addr other k (known ∙ ap some same)))),
          ),
      λ full.
          let none_free : ltb (length (queue_of m ch)) channel_size ≡ false = ground arith in
          sent ∙ rw none_free refl,
    )

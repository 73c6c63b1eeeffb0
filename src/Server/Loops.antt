-- ===== src/Server/Loops.antt =====
-- The receiving loop and the manager together.
use trivialt.Prelude.{
  ℕ, ◌≤◌, [], ◌∷◌, List, ret, Option, none, some, ltb, All, length, ◌≡◌, refl, sym, subst, arith,
  Bool-cases, inl, inr,
}
use trivialt.Prelude.Bytes.{Bytes}
use trivialt.Errors.{Sentinel}
use trivialt.Server.{Server, Request, can_serve, receive}
use trivialt.Server.Life.{
  Life, Round, stopped, read_timeout, read_failed, arrived, passed_on, serve_rounds, serve,
}
use trivialt.Server.Manager.{
  Manager, Event, Managed, running, blocked, returned, dispatch, request_done, taken, closed,
  manage, conn_manager,
}
use trivialt.Server.Manager.Route.{IsRouting, manager_of}
use trivialt.Server.Manager.Reach.{
  IsReceived, Routes, manage-Routes, new_manager, start, Reaches-IsRouting,
}

-- The requests among the events of the manager, which the others stand between.
abbrev pub dispatched : List Event → List Request
dispatched [] = []
dispatched (dispatch req ∷ events) = req ∷ dispatched events
dispatched (request_done addr ∷ events) = dispatched events
dispatched (taken ch ∷ events) = dispatched events
dispatched (closed ∷ events) = dispatched events

abbrev HasOpcode : Request → Type 0
HasOpcode r = 2 ≤ length r.pkt

received :
    (from : ℕ) (b : Bytes) (rs : List Request)
    → All HasOpcode rs
    → All HasOpcode (passed_on (receive from b) rs)
unfolding receive
received from b rs h = elim (Bool-cases (ltb (length b) 2)) [
  | inl t ↦ rw t h
  | inr f ↦ rw f (ground arith, h)
]

serve_rounds-All : (rounds : List Round) → All HasOpcode (serve_rounds rounds).0
unfolding serve_rounds
serve_rounds-All [] = tt
serve_rounds-All (stopped ∷ rounds) = tt
serve_rounds-All (read_timeout ∷ rounds) = serve_rounds-All rounds
serve_rounds-All (read_failed e ∷ rounds) = tt
serve_rounds-All (arrived from b ∷ rounds) =
    received from b (serve_rounds rounds).0 (serve_rounds-All rounds)

serve-All :
    (s : Server) (l : Life) (socket : ℕ) (rounds : List Round)
    → All HasOpcode (serve s l socket rounds).1
unfolding serve
serve-All s l socket rounds = by_check (can_serve s) refl
  where
    by_check : (o : Option Sentinel) → can_serve s ≡ o → All HasOpcode (serve s l socket rounds).1
    by_check none e = rw (serve, e) (serve_rounds-All rounds)
    by_check (some x) e = rw (serve, e) tt

dispatched-IsReceived :
    (events : List Event) → All HasOpcode (dispatched events) → All IsReceived events
dispatched-IsReceived [] h = tt
dispatched-IsReceived (dispatch req ∷ events) h = (h.0, dispatched-IsReceived events h.1)
dispatched-IsReceived (request_done addr ∷ events) h = (tt, dispatched-IsReceived events h)
dispatched-IsReceived (taken ch ∷ events) h = (tt, dispatched-IsReceived events h)
dispatched-IsReceived (closed ∷ events) h = (tt, dispatched-IsReceived events h)

conn_manager-Routes :
    (s : Server) (events : List Event) (m : Manager)
    → All IsReceived events
    → IsRouting m
    → Routes (conn_manager s m events)
unfolding conn_manager
conn_manager-Routes s [] m h r = (running m, refl, r)
conn_manager-Routes s (ev ∷ events) m h r =
    let (d, e, routes) = manage-Routes s m ev h.0 r in
    by_result d e routes (λ m' r'. conn_manager-Routes s events m' h.1 r')
  where
    by_result :
        (d : Managed)
        → manage s m ev ≡ ret d
        → IsRouting (manager_of d)
        → ((m' : Manager) → IsRouting m' → Routes (conn_manager s m' events))
        → Routes (conn_manager s m (ev ∷ events))
    by_result (running m') e routes go_on = rw (conn_manager, e) (go_on m' routes)
    by_result (blocked m') e routes go_on = rw (conn_manager, e) (blocked m', refl, routes)
    by_result (returned m') e routes go_on = rw (conn_manager, e) (returned m', refl, routes)

-- Whatever arrives at the socket, the receiving loop and the manager do not panic: on the requests
-- that `Serve` passes on, in their order and with ends of transfers, transfers that take a packet
-- from their channel, and a closed server anywhere between them, the manager's loop comes to a
-- manager in which every known address has a channel of its own, two addresses never share one,
-- and no channel holds more packets than its size.
pub serve-conn_manager :
    (s : Server) (l : Life) (socket : ℕ) (rounds : List Round) (events : List Event)
    → dispatched events ≡ (serve s l socket rounds).1
    → (d : Managed) × (conn_manager s new_manager events ≡ ret d) × IsRouting (manager_of d)
serve-conn_manager s l socket rounds events h =
    conn_manager-Routes s events new_manager
      (dispatched-IsReceived events (subst (All HasOpcode) (sym h) (serve-All s l socket rounds)))
      (Reaches-IsRouting s new_manager start)

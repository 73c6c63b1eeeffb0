-- ===== src/Server/Manager.antt =====
-- `connManager` of server.go: where each packet goes.
pub mod Channels
pub mod Route
pub mod Reach
use trivialt.Prelude.{
  ℕ, zero, suc, ◌+◌, [], ◌∷◌, ◌++◌, List, Go, ret, ◌>>=◌, Option, none, some, Bool, true, false,
  ltb, leb, ◌==◌, if◌then◌else◌, length, drop, set, get_elem?,
}
use trivialt.Prelude.Bytes.{Bytes, at_index, codes}
use trivialt.Datagram.{err_unknown_transfer_id}
use trivialt.Datagram.Write.{bytes, empty, write_error}
use trivialt.Server.{Server, Request}

-- A goroutine that was started: whether it reads, its request and its channel.
pub record Job : Type 0 where
  pub reads : Bool
  pub request : Request
  pub channel : Option ℕ

-- `reqMap` maps addresses to channels; a channel is its place in the list of all channels ever made,
-- with the packets that nobody has taken. `reqChan` is declared outside the loop.
pub record Manager : Type 0 where
  pub req_map : List (ℕ × ℕ)
  pub channels : List (List Bytes)
  pub req_chan : Option ℕ
  pub jobs : List Job
  pub replies : List (ℕ × Bytes)

-- What happens, in its order: the manager's own cases, and a transfer that takes a packet.
pub data Event : Type 0 where
  dispatch : Request → Event
  request_done : ℕ → Event
  taken : ℕ → Event
  closed : Event

-- `blocked` waits for room in a channel, and with it everything behind it, until a transfer takes a
-- packet: a send has its place among the events behind the taking that makes room for it.
pub data Managed : Type 0 where
  running blocked returned : Manager → Managed

abbrev pub channel_size : ℕ
channel_size = 64

unfoldable pub lookup : List (ℕ × ℕ) → ℕ → Option ℕ
lookup [] a = none
lookup ((b, ch) ∷ m) a = if b == a then some ch else lookup m a

unfoldable pub insert : List (ℕ × ℕ) → ℕ → ℕ → List (ℕ × ℕ)
insert [] a ch = (a, ch) ∷ []
insert ((b, old) ∷ m) a ch = if b == a then (a, ch) ∷ m else (b, old) ∷ insert m a ch

pub delete : List (ℕ × ℕ) → ℕ → List (ℕ × ℕ)
delete [] a = []
delete ((b, ch) ∷ m) a = let rest = delete m a in if b == a then rest else (b, ch) ∷ rest

-- The cases 1 and 2: a channel is made in the single port mode, and a goroutine started.
unfoldable pub start_job : Server → Manager → Bool → Request → Manager
unfolding insert
start_job s m reads req =
    let fresh = length m.channels in
    let m' =
      if s.single_port
      then record m {
        channels = m.channels ++ [] ∷ [];
        req_chan = some fresh;
        req_map = insert m.req_map req.addr fresh;
      }
      else m in
    record m' {
      jobs = m'.jobs ++ record { reads = reads; request = req; channel = m'.req_chan } ∷ [];
    }

abbrev pub or_empty : Option (List Bytes) → List Bytes
or_empty none = []
or_empty (some q) = q

abbrev pub queue_of : Manager → ℕ → List Bytes
queue_of m ch = or_empty (get_elem? m.channels ch)

-- `reqChan <- req.pkt`
unfoldable pub send_to : Manager → ℕ → Bytes → Managed
send_to m ch pkt =
    if ltb (length (queue_of m ch)) channel_size
    then running (record m { channels = set m.channels ch (queue_of m ch ++ pkt ∷ []) })
    else blocked m

-- `<-c.reqChan` of a transfer, which runs beside the manager: the first packet leaves the channel.
unfoldable pub take_from : Manager → ℕ → Manager
take_from m ch = record m { channels = set m.channels ch (drop 1 (queue_of m ch)) }

-- The ERROR to a sender that is not known.
unfoldable pub refuse : Manager → ℕ → Go Managed
refuse m addr = do
  d ← write_error empty err_unknown_transfer_id (codes "Unexpected TID")
  b ← bytes d
  ret (running (record m { replies = m.replies ++ (addr, b) ∷ [] }))

-- The default case.
unfoldable pub forward : Server → Manager → Request → Go Managed
unfolding lookup send_to refuse
forward s m req =
    if s.single_port
    then elim (lookup m.req_map req.addr) [
      | none ↦ refuse m req.addr
      | some ch ↦ ret (send_to m ch req.pkt)
    ]
    else refuse m req.addr

-- One round of the loop.
unfoldable pub manage : Server → Manager → Event → Go Managed
unfolding forward start_job delete take_from
manage s m (dispatch req) = do
  op ← at_index req.pkt 1
  if op == 1
      then ret (running (start_job s m true req))
      else if op == 2
      then ret (running (start_job s m false req))
      else forward s m req
manage s m (request_done addr) = ret (running (record m { req_map = delete m.req_map addr }))
manage s m (taken ch) = ret (running (take_from m ch))
manage s m closed = ret (returned m)

-- The loop on the events that come, until it blocks or returns.
unfoldable pub conn_manager : Server → Manager → List Event → Go Managed
unfolding manage
conn_manager s m [] = ret (running m)
conn_manager s m (ev ∷ events) = do
  r ← manage s m ev
  elim r [
    | running m' ↦ conn_manager s m' events
    | blocked m' ↦ ret (blocked m')
    | returned m' ↦ ret (returned m')
  ]

-- ===== src/Server/Manager/Route.antt =====
-- Packets of a transfer in the single port mode reach the channel of their sender, and no other.
use native.Mathlib.Decide.{ℕ_discrete, dec_lt}
use trivialt.Prelude.{
  ℕ, ◌≤◌, ◌<◌, [], ◌∷◌, ◌++◌, ret, some, Bool, length, length-set, length-append, length-drop, drop,
  set, ◌≡◌, ◌≢◌, ◌⊎◌, refl, sym, ◌∙◌, arith, Bool-cases, inl, inr,
}
use trivialt.Prelude.Bytes.{Bytes, codes}
use trivialt.Datagram.{err_unknown_transfer_id}
use trivialt.Datagram.Write.{empty, write_error}
use trivialt.Datagram.Write.Wire.{error_wire, write_error_lem}
use trivialt.Conn.Net.Sends.{built_datagram}
use trivialt.Server.{Server, Request}
use trivialt.Server.Manager.{
  Manager, Managed, running, blocked, returned, channel_size, lookup, insert, start_job, queue_of,
  refuse, take_from,
}
use trivialt.Server.Manager.Channels.{
  lookup-insert_self, lookup-insert_ne, queue-set_self, queue-set_ne, set-beyond,
  get_elem?-append_lt, get_elem?-append_beyond,
}

-- Every address has a channel of its own, and no channel is over its size.
pub record IsRouting (m : Manager) : Type 0 where
  pub known : (a ch : ℕ) → lookup m.req_map a ≡ some ch → ch < length m.channels
  pub apart : (a b ch : ℕ) → lookup m.req_map a ≡ some ch → lookup m.req_map b ≡ some ch → a ≡ b
  pub room : (ch : ℕ) → length (queue_of m ch) ≤ channel_size

abbrev pub manager_of : Managed → Manager
manager_of (running m) = m
manager_of (blocked m) = m
manager_of (returned m) = m

-- A request opens a channel for its address, or none outside the single port mode.
opened : Manager → ℕ → Manager
opened m a = record m {
  channels = m.channels ++ [] ∷ [];
  req_chan = some (length m.channels);
  req_map = insert m.req_map a (length m.channels);
}

opened-known :
    (m : Manager) (a b ch : ℕ)
    → IsRouting m
    → lookup (insert m.req_map a (length m.channels)) b ≡ some ch
    → ((a ≡ b) × (ch ≡ length m.channels))
      ⊎ ((a ≢ b) × (lookup m.req_map b ≡ some ch) × (ch < length m.channels))
opened-known m a b ch h e = elim (ℕ_discrete a b) [
  | yes p ↦ let own = rw p at (lookup-insert_self m.req_map a (length m.channels)) in inl (p, cc)
  | no np ↦
      let old = sym (lookup-insert_ne m.req_map a b (length m.channels) np) ∙ e in
      inr (np, old, h.known b ch old)
]

opened-IsRouting : (m : Manager) (a : ℕ) → IsRouting m → IsRouting (opened m a)
unfolding opened
opened-IsRouting m a h = record {
  known = λ b ch e. elim (opened-known m a b ch h e) [
    | inl p ↦ omega (arith, p.1, length-append m.channels ([] ∷ []))
    | inr p ↦ omega (arith, p.2, length-append m.channels ([] ∷ []))
  ];
  apart = λ b c ch e e'. elim (opened-known m a b ch h e) [
    | inl p ↦ elim (opened-known m a c ch h e') [
      | inl q ↦ sym p.0 ∙ q.0
      | inr q ↦ absurd (omega (arith, p.1, q.2))
    ]
    | inr p ↦ elim (opened-known m a c ch h e') [
      | inl q ↦ absurd (omega (arith, q.1, p.2))
      | inr q ↦ h.apart b c ch p.1 q.1
    ]
  ];
  room = λ ch. elim (dec_lt ch (length m.channels)) [
    | yes p ↦ rw (get_elem?-append_lt m.channels ch [] p) (h.room ch)
    | no q ↦ rw (get_elem?-append_beyond m.channels ch (omega arith)) (omega arith)
  ];
}

pub start_job-IsRouting :
    (s : Server) (m : Manager) (reads : Bool) (req : Request)
    → IsRouting m
    → IsRouting (start_job s m reads req)
unfolding start_job opened
start_job-IsRouting s m reads req h = elim (Bool-cases s.single_port) [
  | inl t ↦
      let o = opened-IsRouting m req.addr h in
      rw t (record { known = o.known; apart = o.apart; room = o.room })
  | inr f ↦ rw f (record { known = h.known; apart = h.apart; room = h.room })
]

-- The manager with one more packet in a channel.
abbrev pub queued : Manager → ℕ → Bytes → Manager
queued m ch pkt = record m { channels = set m.channels ch (queue_of m ch ++ pkt ∷ []) }

pub queued-IsRouting :
    (m : Manager) (ch : ℕ) (pkt : Bytes)
    → IsRouting m
    → ch < length m.channels
    → length (queue_of m ch) < channel_size
    → IsRouting (queued m ch pkt)
queued-IsRouting m ch pkt h lt small = record {
  known =
      λ b c e. omega (arith, h.known b c e, length-set m.channels ch (queue_of m ch ++ pkt ∷ []));
  apart = h.apart;
  room = λ c. elim (ℕ_discrete ch c) [
    | yes p ↦
        rw (← p, queue-set_self m.channels ch (queue_of m ch ++ pkt ∷ []) lt)
          (omega (arith, length-append (queue_of m ch) (pkt ∷ [])))
    | no np ↦ rw (queue-set_ne m.channels ch c (queue_of m ch ++ pkt ∷ []) np) (h.room c)
  ];
}

-- The manager with one packet less in a channel.
pub take_from-IsRouting : (m : Manager) (ch : ℕ) → IsRouting m → IsRouting (take_from m ch)
unfolding take_from
take_from-IsRouting m ch h = record {
  known = λ b c e. omega (arith, h.known b c e, length-set m.channels ch (drop 1 (queue_of m ch)));
  apart = h.apart;
  room = λ c. elim (ℕ_discrete ch c) [
    | yes p ↦ elim (dec_lt ch (length m.channels)) [
      | yes lt ↦
          rw (← p, queue-set_self m.channels ch (drop 1 (queue_of m ch)) lt)
            (omega (arith, length-drop 1 (queue_of m ch), h.room ch))
      | no beyond ↦ rw (set-beyond m.channels ch (drop 1 (queue_of m ch)) (omega arith)) (h.room c)
    ]
    | no np ↦ rw (queue-set_ne m.channels ch c (drop 1 (queue_of m ch)) np) (h.room c)
  ];
}

pub refuse-returns :
    (m : Manager) (a : ℕ)
    → refuse m a
      ≡ ret (
          running (record m {
            replies =
                m.replies ++ (a, error_wire err_unknown_transfer_id (codes "Unexpected TID")) ∷ [];
          }))
unfolding refuse
refuse-returns m a =
    let (d, made, wire) =
      built_datagram (write_error empty err_unknown_transfer_id (codes "Unexpected TID")) _
        (write_error_lem empty err_unknown_transfer_id (codes "Unexpected TID")) in
    rw (made, wire) refl

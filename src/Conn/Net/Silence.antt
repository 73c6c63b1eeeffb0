-- ===== src/Conn/Net/Silence.antt =====
-- A network from which nothing comes and to which everything goes.
use trivialt.Prelude.{ℕ, [], Option, none, some, ◌≡◌, refl, take, Bool-cases, inl, inr}
use trivialt.Prelude.Bytes.{Bytes, codes}
use trivialt.Datagram.{err_not_defined}
use trivialt.Datagram.Write.Wire.{error_wire}
use trivialt.Errors.{Error}
use trivialt.Errors
use trivialt.Conn.{WritesWork, Conn}
use trivialt.Conn.Net.{read_from_net, msg_room}

-- No packet is to come, and every write succeeds.
pub record IsSilent (c : Conn) : Type 0 where
  pub none_left : c.arrivals ≡ []
  pub all_written : WritesWork c

-- The text of the last ERROR, which fits any block size that is not tiny.
abbrev pub farewell : Conn → ℕ × Bytes
farewell c =
    (c.remote_addr, error_wire err_not_defined (take (msg_room c) (codes "max retries reached")))

-- On silence a read of the network only changes what was received, into nothing.
pub silent_read :
    (c : Conn)
    → c.arrivals ≡ []
    → (d : Conn) × (addr : Option ℕ) × (e : Error) × (read_from_net c ≡ (d, addr, some e))
      × (d ≡ record c { rx = d.rx })
unfolding read_from_net
silent_read c h = elim (Bool-cases c.single_port) [
  | inl t ↦ (c, none, Errors.timeout, rw (h, t) refl, refl)
  | inr f ↦ (
    record c { rx = record { buf = c.rx.buf; offset = 0 } },
    none,
    Errors.timeout,
    rw (h, f) refl,
    refl,
  )
]

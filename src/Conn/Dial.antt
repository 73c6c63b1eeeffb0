-- ===== src/Conn/Dial.antt =====
-- `newConnFromHost` of conn.go. What the system answers is left to the user of the definitions.
use trivialt.Prelude.{ℕ, List, Option, none, some, ◌⊎◌, inl, inr}
use trivialt.Prelude.Bytes.{Bytes}
use trivialt.Datagram.{Options}
use trivialt.Errors.{Error, wrap_error}
use trivialt.Conn.{Conn, Arrival, new_conn}

-- The system: `net.ResolveUDPAddr` and `net.ListenUDP` on a network, what will arrive at the new
-- socket, how writes to it will go, the order in which maps are
-- iterated, and how its `Close` will go.
pub record System : Type 0 where
  pub resolve : Bytes → Bytes → ℕ ⊎ Error
  pub listen : Bytes → Option Error
  pub arrivals : List Arrival
  pub write_results : List (Option Error)
  pub order : Options → Options
  pub close_result : Option Error

-- The connection, or the error.
pub data Dialed : Type 0 where
  connected : Conn → Dialed
  failed : Option Error → Dialed

unfoldable pub open_socket : System → Bytes → Bytes → ℕ → Dialed
open_socket sys udp_net mode addr = elim (sys.listen udp_net) [
  | some e ↦ failed (wrap_error (some e) "network listen failed")
  | none ↦
      connected (record (new_conn sys.arrivals sys.write_results mode addr) { order = sys.order })
]

-- `newConnFromHost`
unfoldable pub new_conn_from_host : System → Bytes → Bytes → Bytes → Dialed
unfolding open_socket
new_conn_from_host sys udp_net mode host = elim (sys.resolve udp_net host) [
  | inr e ↦ failed (wrap_error (some e) "address resolve failed")
  | inl addr ↦ open_socket sys udp_net mode addr
]

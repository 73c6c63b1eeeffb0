-- ===== src/Server/Crash.antt =====
-- A request that stops the server.
use trivialt.Prelude.{ℕ, ◌+◌, ◌*◌, ◌∷◌, panic, none, ◌≡◌, true}
use trivialt.Prelude.Bytes.{Bytes, index_byte}
use trivialt.Datagram.Read.{is_request}
use trivialt.Datagram.Safety.{validate-panic_iff}
use trivialt.Server.{Server, Network, dispatch_read_request}

-- A registered read handler's dispatch panics on every request packet without a NUL behind its
-- opcode, whatever the mode of the server and the network: a packet of two bytes is enough.
pub dispatch_panics :
    (s : Server) (addr a b : ℕ) (rest : Bytes) (net : Network)
    → s.read_handler ≡ true
    → is_request (a * 256 + b) ≡ true
    → index_byte rest 0 ≡ none
    → dispatch_read_request s (record { addr = addr; pkt = a ∷ b ∷ rest }) net ≡ panic
unfolding dispatch_read_request
dispatch_panics s addr a b rest net h r z = rw (h, (validate-panic_iff a b rest).1 (r, z))

-- ===== src/Conn.antt =====
-- `conn` of conn.go: the state of one transfer, and what it sees of the network. The network is the
-- list of results that its next reads and writes will have.
pub mod Net
pub mod Negotiate
pub mod Send
pub mod Receive
pub mod Request
pub mod Run
pub mod Dial
pub mod Together
use trivialt.Prelude.{ℕ, ◌+◌, ◌*◌, ltb, ◌≡◌, [], List, Bool, true, false, Option, none, some}
use trivialt.Prelude.Bytes.{Bytes}
use trivialt.Prelude.Int.{ℤ}
use trivialt.Datagram.{Datagram, Options}
use trivialt.Datagram.Write.{empty, make}
use trivialt.Errors.{Error}
use trivialt.Ring.{Ring}
use Prim.Native.String.{String}

abbrev pub default_blksize : ℕ
default_blksize = 512

abbrev pub default_timeout : ℕ
default_timeout = 1

abbrev pub default_windowsize : ℕ
default_windowsize = 1

abbrev pub default_retransmit : ℕ
default_retransmit = 10

-- What the next read of the network gives: a packet and its sender, an error of the read, or an
-- error of setting the deadline before it. The end of the list is a timeout.
pub data Arrival : Type 0 where
  packet : ℕ → Bytes → Arrival
  read_error : Error → Arrival
  deadline_error : Error → Arrival

-- `c.reader`: the buffer `rxBuf`, or a netascii reader on it with the bytes it has taken ahead.
pub data Source : Type 0 where
  no_source plain_source : Source
  decoding : Bytes → Source

-- `c.writer`: the ring `txBuf`, or a netascii writer on it with its pending bytes and last byte.
pub data Target : Type 0 where
  no_target plain_target : Target
  encoding : Bytes → ℕ → Target

-- The fields that no state function reads (the logger, the timer) are left out. A timeout counts
-- seconds. A packet sent is the address and the bytes. `order` is how the runtime rearranges a map
-- that it iterates over.
pub record Conn : Type 0 where
  pub arrivals : List Arrival
  pub write_results : List (Option Error)
  pub sent : List (ℕ × Bytes)
  pub order : Options → Options
  pub net_closed : Bool
  pub remote_addr : ℕ
  pub single_port : Bool
  pub is_client : Bool
  pub is_sender : Bool
  pub blksize : ℕ
  pub timeout : ℕ
  pub windowsize : ℕ
  pub mode : Bytes
  pub tsize : Option ℤ
  pub retransmit : ℕ
  pub options_parsed : Bool
  pub window : ℕ
  pub block : ℕ
  pub catchup : Bool
  pub p : Bytes
  pub n : ℕ
  pub tries : ℕ
  pub err : Option Error
  pub closing : Bool
  pub done : Bool
  pub buf : Bytes
  pub tx_buf : Option Ring
  pub rx_buf : Bytes
  pub tx : Datagram
  pub rx : Datagram
  pub reader : Source
  pub writer : Target

-- `newConn`, on a network with these results to come.
abbrev pub new_conn : List Arrival → List (Option Error) → Bytes → ℕ → Conn
new_conn arrivals results mode addr = record {
  arrivals = arrivals;
  write_results = results;
  sent = [];
  order = λ m. m;
  net_closed = false;
  remote_addr = addr;
  single_port = false;
  is_client = false;
  is_sender = false;
  blksize = default_blksize;
  timeout = default_timeout;
  windowsize = default_windowsize;
  mode = mode;
  tsize = none;
  retransmit = default_retransmit;
  options_parsed = false;
  window = 0;
  block = 0;
  catchup = false;
  p = [];
  n = 0;
  tries = 0;
  err = none;
  closing = false;
  done = false;
  buf = [];
  tx_buf = none;
  rx_buf = [];
  tx = empty;
  rx = record { buf = make (4 + default_blksize); offset = 0 };
  reader = no_source;
  writer = no_target;
}

-- `newSinglePortConn`: the packets of the server's channel are the arrivals.
abbrev pub new_single_port_conn : List Arrival → List (Option Error) → Bytes → ℕ → Conn
new_single_port_conn arrivals results mode addr = record (new_conn arrivals results mode addr) {
  single_port = true;
  buf = make (4 + default_blksize);
  rx = empty;
}

-- `writeToNet` gives a write `timeout` for every try: without any time its deadline has passed.
abbrev pub has_time : Conn → Bool
has_time c = ltb 0 (c.timeout * c.retransmit)

-- The writes of a connection succeed.
abbrev pub WritesWork : Conn → Type 0
WritesWork c = (c.write_results ≡ []) × (has_time c ≡ true)

-- The state functions, as values of `stateType`.
pub data State : Type 0 where
  send_request receive_response handle_wrq_response handle_rrq_response : State
  start_write write_setup write write_data get_ack : State
  start_read read_setup read read_data ack_data : State
  send_oack : Options → State
  fail : Error → String → State

-- A state function returns the changed connection and the next state; `none` is nil.
abbrev pub Next : Type 0
Next = Conn × Option State

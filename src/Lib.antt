-- ===== src/Lib.antt =====
-- trivialt: a TFTP client and server (RFC 1350, 2347, 2348, 2349, 7440) in Go.
--
-- The parts of the program, and the files that model them:
--  - Datagram (datagram.go): the packets. Write has the methods that fill a datagram (`writeAck`,
--    `writeReq`, ...), Read the accessors and `validate`, Text the `String` methods, which print a packet
--    to the log and inside an error. A datagram is its buffer and its offset; an index or a slice out of range is the result `panic`, so that a theorem about a result `ret`
--    also says that the code does not panic. Message is the specification of both: a packet as data.
--    Safety says which packets make the accessors panic.
--  - Errors (errors.go): the error values. The texts of errors are not modelled; an error that quotes
--    a datagram holds the datagram.
--  - Netascii (netascii/netascii.go): Writer encodes, Reader decodes; `encode_from` and `decode` are
--    the specification. `bufio` is modelled by its documented buffer of 4096 bytes. The reader takes
--    whether the system is Windows as a parameter.
--  - Ring (conn.go, `ringBuffer`): outgoing data with the last blocks kept.
--  - Conn (conn.go): one transfer. A state function is a function from the connection to the
--    connection and the next state; Run has the loop over them, and the methods that start it. Net is
--    the network, Negotiate the options, Request the client's request and its answer, Send and
--    Receive the two directions, Dial `newConnFromHost`.
--  - Client (client.go): the configuration of a client, the URL and the options of a request;
--    Requests has `Get`, `Put` and the response.
--  - Server (server.go): the receiving loop, the dispatch of requests and, in Manager, the routing of
--    packets to transfers in the single port mode; Life has `Serve`, `ListenAndServe`, `Close` and the
--    closer.
--  - Handlers (handlers.go): the requests that a handler gets, in Reading and Writing, and the two sides of
--    the file server on a file system that is a parameter.
--  - Copy: `io.Copy` and `ioutil.ReadAll` of Go's library, which the handlers and the command call, over any
--    reader and writer; `conn` and a response are readers of that kind.
--  - Command (cmd/trivialt/main.go): the flags as a record, the client made of them, and the actions.
--  - Examples: Database (examples/database/database.go) and Proxy (examples/httpproxy/httpproxy.go),
--    handlers over a database and an HTTP server that are parameters.
--  - Logging (logging.go): which of the calls write a line.
--  - Strconv has the decimal numbers of Go's `strconv`, Prelude the shared lists, integers and bytes,
--    and `Go`, the result of a call that may panic. Tests has the theorems on concrete values.
--
-- Parts meet as in the source: Server makes a Conn from a validated request, Client from its options;
-- Conn reads and writes datagrams, sends from a Ring (through a netascii Writer in that mode) and
-- receives through a netascii Reader.
--
-- The network is a parameter of a connection: the list of what its next reads will give (a packet
-- and its sender, or an error; an empty list times out for ever) and of how its next writes will go (an
-- empty list succeeds for ever). What was sent is recorded. Addresses are numbers that are equal where
-- their texts are. A Go map is a list of entries. In what order
-- the runtime iterates over the maps that a connection reads off packets and answers with is a parameter
-- (`order`, any rearrangement of the list); the options of a client are iterated over in the order of
-- their list, which is arbitrary in Go: the theorems hold for every list. Numbers of 16 bits wrap as in the source. The capacity of a slice
-- is its length. The loop over the state functions (Conn.Run) runs on fuel, one unit for each state
-- function; a theorem about a run says with how much fuel it ends.
--
-- The system (resolving and listening), the file system, the database and the HTTP server are
-- parameters of the functions that use them.
--
-- Not modelled: timers and deadlines (a timeout is one of the results of a read; a write whose deadline
-- has passed at once, with no timeout or no tries, fails), the texts of errors,
-- locks, goroutines that run at the same time (each is its own sequence of steps), the parsing of
-- flags, the help and the progress bar of the command line (vendored packages), and the opening of
-- the example's database. The vendored packages are other projects' code.
pub mod Prelude
pub mod Strconv
pub mod Datagram
pub mod Errors
pub mod Ring
pub mod Netascii
pub mod Conn
pub mod Copy
pub mod Client
pub mod Server
pub mod Handlers
pub mod Command
pub mod Examples
pub mod Logging
pub mod Tests

-- ===== src/Handlers/Received.antt =====
-- The file server that receives a file.
use trivialt.Prelude.{ℕ, suc, ◌*◌, ◌<◌, [], List, ret, none, some, Bool, length, ◌≡◌, ◌≢◌, refl}
use trivialt.Prelude.Bytes.{Bytes}
use trivialt.Conn.{Conn}
use trivialt.Conn.Receive.Transfer.File.{IsWaiting, packets, file_of, AreBlocks}
use trivialt.Copy.{copy_size}
use trivialt.Copy.Into.{copy_all_in-whole, move_in-whole}
use trivialt.Handlers.{FileSystem, FileServer, accept_or_nil, refuse_create, receive_tftp}
use trivialt.Handlers.Writing.{WriteRequest, request_name}

accepted_whole :
    {S : Type 0} (fs : FileSystem S) (s s' : S) (file : Bytes)
    → fs.accept s file ≡ (s', length file, none)
    → accept_or_nil fs (some s) file ≡ (some s', length file, none)
accepted_whole fs s s' file h = rw h refl

-- A write request of a client that has settled its options, for a name under which a file can be
-- created; its connection reads plain bytes, so it is not in netascii mode, from a socket of its
-- own, with a buffer that holds a block and a try left, and its writes succeed. Only DATA packets
-- arrive, from one address and none with more bytes than a block, but repeated, stale or ahead of
-- their turn as they may be: if they carry a whole file in their turn that is not empty and has
-- less than 32768 bytes, and a write takes it whole, the file server ends, and the created file
-- has got exactly that file, in one write.
pub receive_tftp_lem :
    {S : Type 0} (quote : Bytes → Bytes) (fs : FileSystem S) (f : FileServer) (windows : Bool)
    (rounds addr : ℕ) (xs : List (ℕ × Bytes)) (r : WriteRequest) (file : Bytes) (s s' : S)
    → IsWaiting r.conn
    → r.conn.arrivals ≡ packets addr xs
    → AreBlocks r.conn.blksize xs
    → file_of r.conn.blksize r.conn.block r.conn.rx_buf xs ≡ some file
    → length file < copy_size
    → file ≢ []
    → fs.create (fs.join f.path (fs.clean r.name)) ≡ some s
    → fs.accept s file ≡ (s', length file, none)
    → (d : Conn) × (receive_tftp quote fs f windows (suc (suc (3 * length xs))) (suc rounds) r
        ≡ ret (some (d, some s')))
unfolding receive_tftp refuse_create request_name
receive_tftp_lem quote fs f windows rounds addr xs r file s s' h arrives blocks whole long ne made
      takes =
    let (d, copied) =
      copy_all_in-whole (accept_or_nil fs) windows rounds addr xs r.conn file (some s) (some s') h
        arrives blocks whole long
        (move_in-whole (accept_or_nil fs) (some s) (some s') file ne
          (accepted_whole fs s s' file takes)) in
    (d, rw (made, copied) refl)

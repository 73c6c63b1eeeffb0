-- ===== src/Examples/Database/Refusal.antt =====
-- What the example with the database refuses.
use trivialt.Prelude.{
  ℕ, ◌<◌, [], ◌∷◌, ◌++◌, ret, Option, none, some, Bool, true, take, ◌⊎◌, ◌≡◌, refl, ap, arith,
}
use trivialt.Prelude.Bytes.{Bytes}
use trivialt.Prelude.Int.{ℤ, pos, negsuc}
use trivialt.Datagram.{err_disk_full}
use trivialt.Datagram.Write.Wire.{error_wire}
use trivialt.Errors.{Error}
use trivialt.Conn.{WritesWork, Conn}
use trivialt.Conn.Net.{msg_room}
use trivialt.Conn.Net.Sends.{send_error-Transmits}
use trivialt.Handlers.Writing.{WriteRequest, size, write_error}
use trivialt.Examples.Database.{max_size, refusal_text, is_refused, receive_tftp}

-- No size, or one above the limit.
abbrev pub IsTooLarge : Option ℤ → Type 0
IsTooLarge none = Unit
IsTooLarge (some (pos n)) = max_size < n
IsTooLarge (some _) = ⊥

refused :
    (w : WriteRequest) (s : Option ℤ) → w.conn.tsize ≡ s → IsTooLarge s → is_refused (size w) ≡ true
unfolding size
refused w none e h = rw (size, e) refl
refused w (some (pos n)) e h = rw (size, e) (ground arith)
refused w (some (negsuc n)) e h = absurd h

-- The example with the database answers a request without a size, or with one above 1048576, where
-- the write succeeds, by one ERROR with the code for a full disk and nothing else, reads nothing,
-- and stores nothing.
pub receive_tftp_refuses :
    {D : Type 0} (insert : D → Bytes → Bytes → (D × ℕ) ⊎ Error) (ip_string : ℕ → Bytes)
    (room : ℕ → ℕ) (windows : Bool) (fuel rounds : ℕ) (db : D) (w : WriteRequest)
    → IsTooLarge w.conn.tsize
    → WritesWork w.conn
    → (c : Conn) × (receive_tftp insert ip_string room windows fuel rounds db w
        ≡ ret (some (c, db)))
      × (c.sent
          ≡ w.conn.sent
            ++ (w.conn.remote_addr, error_wire err_disk_full (take (msg_room w.conn) refusal_text))
              ∷ [])
      × (c.arrivals ≡ w.conn.arrivals)
unfolding receive_tftp write_error
receive_tftp_refuses insert ip_string room windows fuel rounds db w large quiet =
    let (c, e, r, t) = send_error-Transmits w.conn err_disk_full refusal_text in
    (
      c,
      rw (receive_tftp, refused w w.conn.tsize refl large, r) refl,
      t.trace (t.sure quiet).0,
      ap (λ (x : Conn). x.arrivals) t.same,
    )

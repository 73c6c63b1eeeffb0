-- ===== src/Ring.antt =====
-- `ringBuffer` of conn.go: a buffer of outgoing data that can hand out its last slots again.
pub mod Refine
pub mod Replay
use trivialt.Prelude.{
  ℕ, zero, suc, ◌+◌, ◌-◌, ◌*◌, ◌%◌, [], ◌∷◌, ◌++◌, List, Go, ret, panic, check, ◌>>=◌, ◌>>◌, Bool,
  true, false, ltb, leb, ◌==◌, ◌&&◌, if◌then◌else◌, length, take, drop, set, replicate, min,
}
use trivialt.Prelude.Bytes.{Bytes, slice, at_index}
use trivialt.Prelude.Int.{ℤ, pos, negsuc, sub_ℤ, scale, add_ℕ, eq_ℤ}
use trivialt.Datagram.Write.{copy_at}

-- The embedded `bytes.Buffer` is the list of its unread bytes.
pub record Ring : Type 0 where
  pub unread : Bytes
  pub slots : ℕ
  pub size : ℕ
  pub buf : Bytes
  pub slots_len : List ℕ
  pub current : ℤ
  pub head : ℤ

pub new_ring : ℕ → ℕ → Ring
new_ring slots size = record {
  unread = [];
  slots = slots;
  size = size;
  buf = replicate (size * slots) 0;
  slots_len = replicate (size * slots) 0;
  current = pos 0;
  head = pos 0;
}

-- `Len`
unfoldable pub len : Ring → ℤ
len r = add_ℕ (scale (sub_ℤ r.head r.current) r.size) (length r.unread)

-- The promoted `Write` of `bytes.Buffer`, which takes everything.
unfoldable pub write : Ring → Bytes → Ring
write r p = record r { unread = r.unread ++ p }

-- `r.current % r.slots`. Go's remainder has the sign of the dividend: a negative slot is an index
-- out of range where it is used.
unfoldable pub slot_of : ℤ → ℕ → Go ℕ
slot_of (pos c) slots = if slots == 0 then panic else ret (c % slots)
slot_of (negsuc c) slots = if slots == 0 then panic else if suc c % slots == 0 then ret 0 else panic

-- `copy(buf[offset:offset+n], p)` of `n` bytes.
unfoldable pub store : Bytes → ℕ → Bytes → Go Bytes
store buf offset p = do check (leb (offset + length p) (length buf)); ret (copy_at buf offset p)

unfoldable pub read_again : Ring → ℕ → ℕ → Go (Ring × Bytes × Bool)
read_again r slot n = do
  used ← at_index r.slots_len slot
  kept ← slice r.buf (slot * r.size) (slot * r.size + used)
  ret (record r { current = add_ℕ r.current 1 }, take n kept, false)

-- `bytes.Buffer.Read` reports EOF if it is empty, unless the slice is.
unfoldable pub read_fresh : Ring → ℕ → ℕ → Go (Ring × Bytes × Bool)
unfolding store
read_fresh r slot n = do
  let got = take n r.unread
  buf ← store r.buf (slot * r.size) got
  check (ltb slot (length r.slots_len))
  ret (
    record r {
      unread = drop n r.unread;
      buf = buf;
      slots_len = set r.slots_len slot (length got);
      current = add_ℕ r.current 1;
      head = add_ℕ r.current 1;
    },
    got,
    length r.unread == 0 && ltb 0 n,
  )

-- `Read` into a slice of `n` bytes: the bytes read, and whether it reports EOF.
pub read : Ring → ℕ → Go (Ring × Bytes × Bool)
unfolding slot_of read_again read_fresh
read r n = do
  slot ← slot_of r.current r.slots
  if eq_ℤ r.current r.head then read_fresh r slot n else read_again r slot n

-- `UnreadSlots`
unfoldable pub unread_slots : Ring → ℕ → Ring
unread_slots r n = record r { current = sub_ℤ r.current (pos n) }

-- ===== src/Datagram/Read/Fields.antt =====
-- The accessors on a datagram whose first bytes are known.
use trivialt.Prelude.{ℕ, ◌-◌, ◌<◌, [], ◌++◌, ret, ◌≡◌, ap, arith, length, take-all}
use trivialt.Prelude.Bytes.{Bytes, put_uint16, uint16-put_uint16, slice-ok}
use trivialt.Datagram.{Datagram}
use trivialt.Datagram.Read.{opcode, block, error_code, content}

module _ (d : Datagram) (op n : ℕ) (rest : Bytes) where
  pub opcode-wire : d.buf ≡ put_uint16 op ++ rest → op < 65536 → opcode d ≡ ret op
  unfolding opcode
  opcode-wire e h =
      rw (e, slice-ok (put_uint16 op ++ rest) 0 2 (omega arith) (omega arith))
        (uint16-put_uint16 op [] h)

  pub block-wire : d.buf ≡ put_uint16 op ++ (put_uint16 n ++ rest) → n < 65536 → block d ≡ ret n
  unfolding block
  block-wire e h =
      rw (e, slice-ok (put_uint16 op ++ (put_uint16 n ++ rest)) 2 4 (omega arith) (omega arith))
        (uint16-put_uint16 n [] h)

  pub error_code-wire :
      d.buf ≡ put_uint16 op ++ (put_uint16 n ++ rest) → n < 65536 → error_code d ≡ ret n
  unfolding error_code
  error_code-wire e h =
      rw (e, slice-ok (put_uint16 op ++ (put_uint16 n ++ rest)) 2 4 (omega arith) (omega arith))
        (uint16-put_uint16 n [] h)

  pub content-wire :
      d.buf ≡ put_uint16 op ++ (put_uint16 n ++ rest)
      → d.offset ≡ length d.buf
      → content d ≡ ret rest
  unfolding content
  content-wire e o =
      rw (o, e, slice-ok w 4 (length w) (omega arith) (omega arith))
        (ap ret (take-all (length w - 4) rest (omega arith)))
    where
      w : Bytes
      w = put_uint16 op ++ (put_uint16 n ++ rest)

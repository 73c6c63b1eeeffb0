-- ===== src/Client/Valid.antt =====
-- Whatever options `NewClient` is given, the request that the client then sends is one that a server
-- accepts.
use trivialt.Prelude.{
  ℕ, ◌≤◌, ◌<◌, [], ◌∷◌, Option, none, some, false, All, ◌≡◌, ◌⊎◌, inl, inr, refl, subst, arith,
  Bool-cases,
}
use trivialt.Prelude.Bytes.{Bytes, IsText, bytes_eq, codes, bytes_eq→eq}
use trivialt.Prelude.Int.{ℤ, pos, negsuc, ltb_ℤ}
use trivialt.Strconv.{format_int, format_uint, digits, max_uint16, max_uint8}
use trivialt.Strconv.Laws.{
  AreDigits, format_uint-AreDigits, parse_uint-format_uint, parse_int-format_uint,
}
use trivialt.Datagram.{
  Options, mode_netascii, mode_octet, opt_blocksize, opt_timeout, opt_transfer_size,
  opt_window_size,
}
use trivialt.Datagram.Read.{put}
use trivialt.Datagram.Read.Pairs.{AreDistinct}
use trivialt.Conn.{Conn}
use trivialt.Conn.Negotiate.{parsed, answer_size, apply_option}
use trivialt.Client.{Client, outside, remove}

-- No connection refuses the option, and its texts have no NUL.
pub record IsGood (e : Bytes × Bytes) : Type 0 where
  pub texts : IsText e.0 × IsText e.1
  pub accepts :
      (c : Conn) (ack : Options)
      → (c' : Conn) × (ack' : Options) × (apply_option c ack e.0 e.1 ≡ parsed c' ack')

pub record IsValid (c : Client) : Type 0 where
  pub known_mode : (c.mode ≡ mode_netascii) ⊎ (c.mode ≡ mode_octet)
  pub limit : ltb_ℤ c.retransmit (pos 0) ≡ false
  pub good : All IsGood c.opts
  pub distinct : AreDistinct c.opts

-- The map keeps what holds of each entry, and its keys stay distinct.
put-All :
    (P : Bytes × Bytes → Type 0) (m : Options) (k v : Bytes)
    → All P m
    → P (k, v)
    → All P (put m k v)
unfolding put
put-All P [] k v h p = (p, tt)
put-All P ((j, w) ∷ m) k v h p = elim (Bool-cases (bytes_eq j k)) [
  | inl t ↦ rw t (p, h.1)
  | inr f ↦ rw f (h.0, put-All P m k v h.1 p)
]

remove-All : (P : Bytes × Bytes → Type 0) (m : Options) (k : Bytes) → All P m → All P (remove m k)
unfolding remove
remove-All P [] k h = tt
remove-All P ((j, w) ∷ m) k h = elim (Bool-cases (bytes_eq j k)) [
  | inl t ↦ rw t (remove-All P m k h.1)
  | inr f ↦ rw f (h.0, remove-All P m k h.1)
]

put-AreDistinct : (m : Options) (k v : Bytes) → AreDistinct m → AreDistinct (put m k v)
unfolding put
put-AreDistinct [] k v h = (tt, tt)
put-AreDistinct ((j, w) ∷ m) k v h = elim (Bool-cases (bytes_eq j k)) [
  | inl t ↦ rw t (subst (λ i. All (λ e. bytes_eq i e.0 ≡ false) m) (bytes_eq→eq j k t) h.0, h.1)
  | inr f ↦ rw f (put-All _ m k v h.0 f, put-AreDistinct m k v h.1)
]

remove-AreDistinct : (m : Options) (k : Bytes) → AreDistinct m → AreDistinct (remove m k)
unfolding remove
remove-AreDistinct [] k h = tt
remove-AreDistinct ((j, w) ∷ m) k h = elim (Bool-cases (bytes_eq j k)) [
  | inl t ↦ rw t (remove-AreDistinct m k h.1)
  | inr f ↦ rw f (remove-All _ m k h.0, remove-AreDistinct m k h.1)
]

digits-IsText : (s : Bytes) → AreDigits s → IsText s
digits-IsText [] h = tt
digits-IsText (c ∷ s) h = (λ e. omega (arith, h.0), digits-IsText s h.1)

pub blocksize-IsGood : (n : ℕ) → n ≤ 65535 → IsGood (opt_blocksize, format_uint n)
unfolding apply_option
blocksize-IsGood n h = record {
  texts = (omega arith, digits-IsText (format_uint n) (format_uint-AreDigits n));
  accepts = λ c ack. (
    record c { blksize = n },
    put ack opt_blocksize (format_uint n),
    rw (parse_uint-format_uint max_uint16 n h) refl,
  );
}

pub timeout-IsGood : (n : ℕ) → n ≤ 255 → IsGood (opt_timeout, format_uint n)
unfolding apply_option
timeout-IsGood n h = record {
  texts = (omega arith, digits-IsText (format_uint n) (format_uint-AreDigits n));
  accepts = λ c ack. (
    record c { timeout = n },
    put ack opt_timeout (format_uint n),
    rw (parse_uint-format_uint max_uint8 n h) refl,
  );
}

pub windowsize-IsGood : (n : ℕ) → n ≤ 65535 → IsGood (opt_window_size, format_uint n)
unfolding apply_option
windowsize-IsGood n h = record {
  texts = (omega arith, digits-IsText (format_uint n) (format_uint-AreDigits n));
  accepts = λ c ack. (
    record c { windowsize = n },
    put ack opt_window_size (format_uint n),
    rw (parse_uint-format_uint max_uint16 n h) refl,
  );
}

answer_size-accepts :
    (c : Conn) (own : Option ℤ) (n : ℤ) (ack : Options) (opt val : Bytes)
    → c.tsize ≡ own
    → (c' : Conn) × (ack' : Options) × (answer_size (some n) c ack opt val ≡ parsed c' ack')
unfolding answer_size
answer_size-accepts c none n ack opt val h = (record c { tsize = some n }, ack, rw h refl)
answer_size-accepts c (some own) n ack opt val h = elim (Bool-cases c.is_sender) [
  | inl t ↦ (c, put ack opt (format_int own), rw (h, t) refl)
  | inr f ↦ (record c { tsize = some n }, ack, rw (h, f) refl)
]

pub tsize-IsGood : (n : ℕ) → n < 9223372036854775808 → IsGood (opt_transfer_size, format_uint n)
unfolding apply_option
tsize-IsGood n h = record {
  texts = (omega arith, digits-IsText (format_uint n) (format_uint-AreDigits n));
  accepts = λ c ack.
      rw (parse_int-format_uint n h)
        (answer_size-accepts c c.tsize (pos n) ack opt_transfer_size (format_uint n) refl);
}

pub zero-IsGood : IsGood (opt_transfer_size, codes "0")
zero-IsGood = unfold format_uint digits in tsize-IsGood 0 (omega arith)

-- An option's number in its range, whose lower end is not negative.
pub in_range :
    (lo hi : ℕ) (i : ℤ) → outside (pos lo) (pos hi) i ≡ false → (n : ℕ) × (i ≡ pos n) × (n ≤ hi)
in_range lo hi (pos n) h = (n, refl, ground arith)
in_range lo hi (negsuc n) h = absurd (ground arith)

pub put-IsValid :
    (c : Client) (k v : Bytes)
    → IsValid c
    → IsGood (k, v)
    → IsValid (record c { opts = put c.opts k v })
put-IsValid c k v h g = record {
  known_mode = h.known_mode;
  limit = h.limit;
  good = put-All IsGood c.opts k v h.good g;
  distinct = put-AreDistinct c.opts k v h.distinct;
}

pub remove-IsValid :
    (c : Client) (k : Bytes) → IsValid c → IsValid (record c { opts = remove c.opts k })
remove-IsValid c k h = record {
  known_mode = h.known_mode;
  limit = h.limit;
  good = remove-All IsGood c.opts k h.good;
  distinct = remove-AreDistinct c.opts k h.distinct;
}

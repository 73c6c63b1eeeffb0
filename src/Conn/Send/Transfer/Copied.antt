-- ===== src/Conn/Send/Transfer/Copied.antt =====
-- `io.Copy` into a sender, and `Close` behind it: the whole source goes out.
use trivialt.Prelude.{
  ℕ, zero, suc, ◌+◌, ◌-◌, ◌*◌, ◌≤◌, ◌<◌, [], ◌∷◌, ◌++◌, append-nil, List, ret, ◌>>=◌, none, some,
  Option, Bool, true, length, length-append, append_assoc, ==_refl, ◌≡◌, refl, subst, sym, ap, ◌∙◌,
  arith,
}
use trivialt.Prelude.Bytes.{Bytes}
use trivialt.Errors.{Error}
use trivialt.Ring.{Ring}
use trivialt.Conn.{Conn}
use trivialt.Conn.Send.Transfer.Round.{blocks_of, acks, datas}
use trivialt.Conn.Send.Transfer.Whole.{less, bounded}
use trivialt.Conn.Send.Transfer.Filling.{IsOpen, Awaits, total}
use trivialt.Conn.Send.Transfer.Written.{quotient, write-Wrote, Wrote}
use trivialt.Conn.Send.Transfer.Closing.{close-more}
use trivialt.Conn.Run.{close}
use trivialt.Copy.{Piece, move_out, copy_out, write_failure}

-- The pieces of a source, and its text.
abbrev pub pieces : List Bytes → List Piece
pieces [] = []
pieces (b ∷ bs) = (b, none) ∷ pieces bs

abbrev pub text_of : List Bytes → Bytes
text_of [] = []
text_of (b ∷ bs) = b ++ text_of bs

-- What the copy leaves to `Close`: less than a block.
abbrev Left : Conn → Ring → List (ℕ × Bytes) → Conn → Type 0
Left c r all d =
    (r' : Ring) × (h' : List Bytes) × IsOpen d r' h'
    × (r'.size ≡ r.size)
    × (length r'.unread < r.size)
    × Awaits d r' [] 0
    × (total d r' [] 0 ≡ all)

moved :
    (windows : Bool) (f n : ℕ) (c d : Conn) (b : Bytes) (bs : List Bytes)
    → n ≡ length b
    → move_out windows f c b ≡ ret (some (d, write_failure (length b) n none))
    → copy_out windows f c (pieces (b ∷ bs)) ≡ copy_out windows f d (pieces bs)
unfolding copy_out
moved windows f n c d b bs same m =
    let full : write_failure (length b) n none ≡ none = rw (same, ==_refl (length b)) refl in
    rw (m, full) refl

no_block : (t size n : ℕ) → t * size ≤ n → n < size → t ≡ 0
no_block zero size n h l = refl
no_block (suc t) size n h l = absurd (grind arith)

share_least : (k j s n m v : ℕ) → (k + j) * s ≤ m + v → n + k * s ≡ m → j * s ≤ n + v
share_least k j s n m v h e = grind arith

share_most : (k j s n m v : ℕ) → m + v < (k + j) * s + s → n + k * s ≡ m → n + v < j * s + s
share_most k j s n m v h e = grind arith

fewer : (k t size n : ℕ) → k * size ≤ n → n < t * size + size → k ≤ t
fewer zero t size n h l = omega arith
fewer (suc k) zero size n h l = absurd (grind arith)
fewer (suc k) (suc t) size n h l =
    let enough : size ≤ n = grind arith in
    let le = fewer k t size (n - size) (less k size n h) (bounded t size n l enough) in
    omega (arith, le)

-- What the copy of the rest of a source gives, from `d` on.
abbrev Rest : Bool → List Bytes → ℕ → ℕ → Conn → Type 0
Rest windows bs j f d =
    (r' : Ring) (h' : List Bytes)
    → IsOpen d r' h'
    → length r'.unread < r'.size
    → j * r'.size ≤ length (r'.unread ++ text_of bs)
    → length (r'.unread ++ text_of bs) < j * r'.size + r'.size
    → Awaits d r' (text_of bs) j
    → (d' : Conn) × (copy_out windows f d (pieces bs) ≡ ret (some (d', none)))
      × Left d r' (total d r' (text_of bs) j) d'

after_piece :
    (windows : Bool) (bs : List Bytes) (t k j f : ℕ) (c d : Conn) (r : Ring) (p : Bytes)
    → move_out windows f c p ≡ ret (some (d, write_failure (length p) (length p) none))
    → (k + j) * r.size ≤ length (r.unread ++ p) + length (text_of bs)
    → length (r.unread ++ p) + length (text_of bs) < (k + j) * r.size + r.size
    → Wrote c r p (text_of bs) k j t d
    → Rest windows bs j f d
    → (d' : Conn) × (copy_out windows f c (pieces (p ∷ bs)) ≡ ret (some (d', none)))
      × Left c r (total c r (text_of (p ∷ bs)) t) d'
after_piece windows bs t k j f c d r p moves least most
      (r', h', o', size', len', short', awaits, sum) rest =
    let v = text_of bs in
    let long : length (r'.unread ++ v) ≡ length r'.unread + length v = length-append r'.unread v in
    let least' : j * r'.size ≤ length (r'.unread ++ v) =
      rw (size', long) (share_least k j r.size (length r'.unread) _ (length v) least len') in
    let most' : length (r'.unread ++ v) < j * r'.size + r'.size =
      rw (size', long) (share_most k j r.size (length r'.unread) _ (length v) most len') in
    let (d', copied, left) = rest r' h' o' (omega (arith, short', size')) least' most' awaits in
    let (r'', h'', o'', size'', short'', awaits', sum') = left in
    (
      d',
      moved windows f (length p) c d p bs refl moves ∙ copied,
      (
        r'',
        h'',
        o'',
        size'' ∙ size',
        omega (arith, short'', size'),
        awaits',
        sum'
            ∙ sum
            ∙ ap (λ u. c.sent ++ datas c.remote_addr (blocks_of r.size t c.block u))
                (append_assoc r.unread p v),
      ),
    )

copy_out-Left :
    (windows : Bool) (bs : List Bytes) (t f : ℕ) (c : Conn) (r : Ring) (h : List Bytes)
    → IsOpen c r h
    → length r.unread < r.size
    → t * r.size ≤ length (r.unread ++ text_of bs)
    → length (r.unread ++ text_of bs) < t * r.size + r.size
    → 2 * t + 3 ≤ f
    → Awaits c r (text_of bs) t
    → (d : Conn) × (copy_out windows f c (pieces bs) ≡ ret (some (d, none)))
      × Left c r (total c r (text_of bs) t) d
unfolding copy_out move_out
copy_out-Left windows [] t f c r h o short least most enough arrives =
    let none_full : t ≡ 0 =
      no_block t r.size (length r.unread) (omega (arith, least, ap length (append-nil r.unread)))
        short in
    (
      c,
      refl,
      (
        r,
        h,
        o,
        refl,
        short,
        subst (Awaits c r []) none_full arrives,
        ap (total c r []) (sym none_full),
      ),
    )
copy_out-Left windows ([] ∷ bs) t f c r h o short least most enough arrives =
    copy_out-Left windows bs t f c r h o short least most enough arrives
copy_out-Left windows ((x ∷ b) ∷ bs) t f c r h o short least most enough arrives =
    let p = x ∷ b in
    let v = text_of bs in
    let (k, fits, over) = quotient r.size (length (r.unread ++ p)) o.sending.holds.sized in
    let whole : length (r.unread ++ text_of (p ∷ bs)) ≡ length (r.unread ++ p) + length v =
      ap length (sym (append_assoc r.unread p v)) ∙ length-append (r.unread ++ p) v in
    let k_le : k ≤ t = fewer k t r.size _ fits (omega (arith, most, whole)) in
    let j = t - k in
    let e : t ≡ k + j = omega (arith, k_le) in
    let g = f - (3 + 2 * k) in
    let fuel : f ≡ suc (suc (suc (2 * k))) + g = omega (arith, k_le, enough) in
    let (d, written, filled) = write-Wrote windows k j t g c r h p v e o fits over (
      arrives
      ∙ ap (λ u. acks c.remote_addr (blocks_of r.size t c.block u))
          (sym (append_assoc r.unread p v))) in
    let moves : move_out windows f c p ≡ ret (some (d, write_failure (length p) (length p) none)) =
      ap (λ n. move_out windows n c p) fuel
      ∙ ap
          (λ m. m >>= λ (y : Option (Conn × (ℕ × Option Error))).
            ret (elim y [
              | none ↦ none
              | some (c', (n, e)) ↦ some (c', write_failure (length p) n e)
            ]))
          written in
    let sized : length (r.unread ++ p) + length v ≡ length (r.unread ++ text_of (p ∷ bs)) =
      sym whole in
    after_piece windows bs t k j f c d r p moves (rw (← e, sized) least) (rw (← e, sized) most)
      filled
      (λ r' h' o' s' l' m' a'.
        copy_out-Left windows bs j f d r' h' o' s' l' m' (omega (arith, e, enough)) a')

-- A source is copied, in whatever pieces its reads give, into a sender that has settled its
-- options, does not encode, has a window of one block and a socket of its own, and holds less than
-- a block; then the sender is closed. Given the ACK of each block, and with writes that succeed,
-- the copy and the close end, where each single `Write` of the copy, and the close, may run two
-- state functions for each full block of the whole and five more. Neither has an error, whatever
-- closing the socket returns. What was sent then is exactly the data that the sender held and the
-- whole source behind it, in blocks that are numbered on 16 bits, all full but the last, which is
-- shorter and may be empty; and the socket is closed.
pub copy_out-close :
    (windows : Bool) (bs : List Bytes) (t : ℕ) (c : Conn) (r : Ring) (h : List Bytes)
    (net_error : Option Error)
    → IsOpen c r h
    → length r.unread < r.size
    → t * r.size ≤ length (r.unread ++ text_of bs)
    → length (r.unread ++ text_of bs) < t * r.size + r.size
    → c.arrivals ≡ acks c.remote_addr (blocks_of r.size t c.block (r.unread ++ text_of bs))
    → let fuel = 2 * t + 5 in
      (d : Conn) × (e : Conn) × (copy_out windows fuel c (pieces bs) ≡ ret (some (d, none)))
      × (close windows fuel d net_error ≡ ret (some (e, none)))
      × (e.sent
          ≡ c.sent ++ datas c.remote_addr (blocks_of r.size t c.block (r.unread ++ text_of bs)))
      × (e.net_closed ≡ true)
copy_out-close windows bs t c r h net_error o short least most arrives =
    let (d, copied, left) =
      copy_out-Left windows bs t (2 * t + 5) c r h o short least most (omega arith) arrives in
    let (r', h', o', size', short', awaits, sum) = left in
    let none_left : r'.unread ++ [] ≡ r'.unread = append-nil r'.unread in
    let (e, closed, sent, shut) =
      close-more windows 0 (2 * t) d r' h' net_error o'.sending o'.going o'.good o'.settled o'.plain
        (omega arith) (omega (arith, short', size'))
        (awaits ∙ ap (λ u. acks d.remote_addr (blocks_of r'.size 0 d.block u)) none_left) in
    let fuel : 2 * t + 5 ≡ suc (suc (suc (suc (suc (2 * 0))))) + 2 * t = omega arith in
    (
      d,
      e,
      copied,
      ap (λ n. close windows n d net_error) fuel ∙ closed,
      sent
          ∙ ap (λ u. d.sent ++ datas d.remote_addr (blocks_of r'.size 0 d.block u)) (sym none_left)
          ∙ sum,
      shut,
    )

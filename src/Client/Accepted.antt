-- ===== src/Client/Accepted.antt =====
-- `NewClient` and `Put` keep a client valid, and a connection accepts every option of a valid client.
use trivialt.Prelude.{
  ℕ, ◌<◌, [], ◌∷◌, List, true, false, All, ◌≡◌, ◌≢◌, inl, inr, refl, subst, arith, Bool-cases,
}
use trivialt.Prelude.Bytes.{Bytes, IsText, bytes_eq, codes, bytes_eq→eq}
use trivialt.Prelude.Int.{pos, ltb_ℤ}
use trivialt.Strconv.{format_int}
use trivialt.Datagram.{
  Options, mode_netascii, mode_octet, opt_blocksize, opt_timeout, opt_transfer_size,
  opt_window_size,
}
use trivialt.Datagram.Read.Pairs.{AreTexts}
use trivialt.Datagram.Message.{IsRequest}
use trivialt.Conn.{Conn}
use trivialt.Conn.Negotiate.{parsed, apply_options}
use trivialt.Client.{
  Client, ClientOpt, Outcome, outside, has_key, apply_opt, apply_opts, new_client, default_client,
  put_options, client_mode, client_blocksize, client_timeout, client_windowsize,
  client_transfer_size, client_retransmit, configured, rejected,
}
use trivialt.Client.Valid.{
  IsGood, IsValid, put-IsValid, remove-IsValid, in_range, zero-IsGood, tsize-IsGood,
  blocksize-IsGood, timeout-IsGood, windowsize-IsGood,
}

-- An option changes a valid client into a valid one, or is rejected.
abbrev OutcomeIsValid : Outcome → Type 0
OutcomeIsValid (configured c) = IsValid c
OutcomeIsValid (rejected e) = Unit

apply_opt-IsValid : (o : ClientOpt) (c : Client) → IsValid c → OutcomeIsValid (apply_opt o c)
unfolding apply_opt format_int
apply_opt-IsValid (client_mode m) c h = elim (Bool-cases (bytes_eq m mode_netascii)) [
  | inl t ↦ rw t (record {
    known_mode = inl (bytes_eq→eq m mode_netascii t);
    limit = h.limit;
    good = h.good;
    distinct = h.distinct;
  })
  | inr f ↦ elim (Bool-cases (bytes_eq m mode_octet)) [
    | inl t ↦
        rw (f, t)
          (record {
            known_mode = inr (bytes_eq→eq m mode_octet t);
            limit = h.limit;
            good = h.good;
            distinct = h.distinct;
          })
    | inr f' ↦ rw (f, f') tt
  ]
]
apply_opt-IsValid (client_blocksize i) c h = elim (Bool-cases (outside (pos 8) (pos 65464) i)) [
  | inl t ↦ rw t tt
  | inr f ↦
      let (n, e, le) = in_range 8 65464 i f in
      rw (f, e)
        (put-IsValid c opt_blocksize (format_int (pos n)) h (blocksize-IsGood n (omega arith)))
]
apply_opt-IsValid (client_timeout i) c h = elim (Bool-cases (outside (pos 1) (pos 255) i)) [
  | inl t ↦ rw t tt
  | inr f ↦
      let (n, e, le) = in_range 1 255 i f in
      rw (f, e) (put-IsValid c opt_timeout (format_int (pos n)) h (timeout-IsGood n le))
]
apply_opt-IsValid (client_windowsize i) c h = elim (Bool-cases (outside (pos 1) (pos 65535) i)) [
  | inl t ↦ rw t tt
  | inr f ↦
      let (n, e, le) = in_range 1 65535 i f in
      rw (f, e) (put-IsValid c opt_window_size (format_int (pos n)) h (windowsize-IsGood n le))
]
apply_opt-IsValid (client_transfer_size true) c h =
    put-IsValid c opt_transfer_size (codes "0") h zero-IsGood
apply_opt-IsValid (client_transfer_size false) c h = remove-IsValid c opt_transfer_size h
apply_opt-IsValid (client_retransmit i) c h = elim (Bool-cases (ltb_ℤ i (pos 0))) [
  | inl t ↦ rw t tt
  | inr f ↦
      rw f (record { known_mode = h.known_mode; limit = f; good = h.good; distinct = h.distinct })
]

apply_opts-IsValid : (os : List ClientOpt) (c : Client) → IsValid c → IsValid (apply_opts c os).0
unfolding apply_opts
apply_opts-IsValid [] c h = h
apply_opts-IsValid (o ∷ os) c h = apply_next (apply_opt o c) refl (apply_opts-IsValid os)
  where
    apply_next :
        (r : Outcome)
        → apply_opt o c ≡ r
        → ((c' : Client) → IsValid c' → IsValid (apply_opts c' os).0)
        → IsValid (apply_opts c (o ∷ os)).0
    apply_next (configured c') e rest =
        rw (apply_opts, e) (rest c' (subst OutcomeIsValid e (apply_opt-IsValid o c h)))
    apply_next (rejected s) e rest = rw (apply_opts, e) h

new_client-IsValid : (os : List ClientOpt) → IsValid (new_client os).0
unfolding new_client
new_client-IsValid os =
    apply_opts-IsValid os default_client (record {
      known_mode = inr refl;
      limit = refl;
      good = (zero-IsGood, tt);
      distinct = (tt, tt);
    })

-- `Put` with a size that `int64` holds.
put_options-IsValid :
    (c : Client) (n : ℕ)
    → n < 9223372036854775808
    → IsValid c
    → IsValid (record c { opts = put_options c.opts (pos n) })
unfolding put_options format_int
put_options-IsValid c n small h = elim (Bool-cases (has_key c.opts opt_transfer_size)) [
  | inr f ↦ rw f h
  | inl t ↦ elim (Bool-cases (ltb_ℤ (pos n) (pos 1))) [
    | inl z ↦ rw (t, z) (remove-IsValid c opt_transfer_size h)
    | inr p ↦
        rw (t, p) (put-IsValid c opt_transfer_size (format_int (pos n)) h (tsize-IsGood n small))
  ]
]

good-AreTexts : (m : Options) → All IsGood m → AreTexts m
good-AreTexts [] h = tt
good-AreTexts ((k, v) ∷ m) h = (h.0.texts, good-AreTexts m h.1)

-- The loop of `parseOptions` refuses no good option.
apply_options-good :
    (m : Options) (c : Conn) (ack : Options)
    → All IsGood m
    → (c' : Conn) × (ack' : Options) × (apply_options c ack m ≡ parsed c' ack')
unfolding apply_options
apply_options-good [] c ack h = (record c { options_parsed = true }, ack, refl)
apply_options-good ((k, v) ∷ m) c ack h =
    let (c', ack', e) = h.0.accepts c ack in
    let (d, left, r) = apply_options-good m c' ack' h.1 in (d, left, rw (apply_options, e) r)

-- Whatever options `NewClient` is given, and with the size that `Put` fills in, the client's mode
-- and options make a request that the wire can carry with any file name that is not empty and has
-- no NUL, `parseOptions` on any connection accepts all of its options, and the retransmit limit is
-- not negative.
pub new_client_lem :
    (os : List ClientOpt) (n : ℕ) (name : Bytes) (conn : Conn)
    → n < 9223372036854775808
    → IsText name
    → name ≢ []
    → let c = (new_client os).0 in
      let opts = put_options c.opts (pos n) in
      IsRequest name c.mode c.opts
      × IsRequest name c.mode opts
      × ((d : Conn) × (ack : Options) × (apply_options conn [] c.opts ≡ parsed d ack))
      × ((d : Conn) × (ack : Options) × (apply_options conn [] opts ≡ parsed d ack))
      × (ltb_ℤ c.retransmit (pos 0) ≡ false)
new_client_lem os n name conn small text ne =
    let v = new_client-IsValid os in
    let v' = put_options-IsValid (new_client os).0 n small v in
    (
      (text, ne, v.known_mode, good-AreTexts _ v.good, v.distinct),
      (text, ne, v'.known_mode, good-AreTexts _ v'.good, v'.distinct),
      apply_options-good _ conn [] v.good,
      apply_options-good _ conn [] v'.good,
      v.limit,
    )

-- ===== src/Command/Configured.antt =====
-- Which flags make a client, and which client they make.
use trivialt.Prelude.{
  ℕ, ◌≤◌, [], ◌∷◌, Option, none, some, Bool, true, false, if◌then◌else◌, ◌⊎◌, inl, inr, ◌≡◌, ◌↔◌,
  refl, sym, ap, ◌∙◌, arith, Bool-cases,
}
use trivialt.Prelude.Bytes.{codes}
use trivialt.Prelude.Int.{ℤ, pos, negsuc, ltb_ℤ}
use trivialt.Strconv.{format_int}
use trivialt.Datagram.{
  Options, mode_netascii, mode_octet, opt_blocksize, opt_timeout, opt_transfer_size,
  opt_window_size,
}
use trivialt.Datagram.Read.{put}
use trivialt.Errors.{
  Sentinel, invalid_blocksize, invalid_windowsize, invalid_timeout, invalid_retransmit,
}
use trivialt.Client.{Client, outside, remove, apply_opt, apply_opts, new_client as make_client}
use trivialt.Command.{Flags, client_opts, or_fatal, new_client}

-- An integer between two numbers.
abbrev pub Between : ℕ → ℕ → ℤ → Type 0
Between lo hi i = (n : ℕ) × (i ≡ pos n) × (lo ≤ n) × (n ≤ hi)

abbrev pub AreAllowed : Flags → Type 0
AreAllowed f =
    Between 8 65464 f.blksize
    × Between 1 65535 f.windowsize
    × Between 1 255 f.timeout
    × (ltb_ℤ f.retransmit (pos 0) ≡ false)

-- The options of the request, in the order of a map that they are put into.
abbrev pub flag_options : Flags → Options
flag_options f =
    let rest =
      (opt_blocksize, format_int f.blksize)
      ∷ (opt_window_size, format_int f.windowsize)
      ∷ (opt_timeout, format_int f.timeout)
      ∷ [] in
    if f.tsize then (opt_transfer_size, codes "0") ∷ rest else rest

abbrev pub configured : Flags → Client
configured f = record {
  net = codes "udp";
  mode = if f.netascii then mode_netascii else mode_octet;
  opts = flag_options f;
  retransmit = f.retransmit;
}

between : (lo hi : ℕ) (i : ℤ) → outside (pos lo) (pos hi) i ≡ false → Between lo hi i
between lo hi (pos n) h = (n, refl, ground arith, ground arith)
between lo hi (negsuc n) h = absurd (ground arith)

not_outside : (lo hi : ℕ) (i : ℤ) → Between lo hi i → outside (pos lo) (pos hi) i ≡ false
not_outside lo hi i (n, e, low, high) = rw e (ground arith)

or_fatal-some : (r : Client × Option Sentinel) (e : Sentinel) → r.1 ≡ some e → or_fatal r ≡ inr e
or_fatal-some (c, none) e h = cc
or_fatal-some (c, some x) e h = ground (arith, h)

module _ (f : Flags) where
  abbrev blksize_bad : Bool
  blksize_bad = outside (pos 8) (pos 65464) f.blksize

  abbrev windowsize_bad : Bool
  windowsize_bad = outside (pos 1) (pos 65535) f.windowsize

  abbrev timeout_bad : Bool
  timeout_bad = outside (pos 1) (pos 255) f.timeout

  abbrev retransmit_bad : Bool
  retransmit_bad = ltb_ℤ f.retransmit (pos 0)

  accepted :
      blksize_bad ≡ false
      → windowsize_bad ≡ false
      → timeout_bad ≡ false
      → retransmit_bad ≡ false
      → make_client (client_opts f) ≡ (configured f, none)
  unfolding make_client apply_opts apply_opt put remove
  accepted a b c d = elim (Bool-cases f.tsize) [
    | inl t ↦ elim (Bool-cases f.netascii) [
      | inl n ↦ rw (make_client, apply_opts, apply_opt, a, b, c, d, t, n) refl
      | inr n ↦ rw (make_client, apply_opts, apply_opt, a, b, c, d, t, n) refl
    ]
    | inr t ↦ elim (Bool-cases f.netascii) [
      | inl n ↦ rw (make_client, apply_opts, apply_opt, a, b, c, d, t, n) refl
      | inr n ↦ rw (make_client, apply_opts, apply_opt, a, b, c, d, t, n) refl
    ]
  ]

  given : make_client (client_opts f) ≡ (configured f, none) → new_client f ≡ inl (configured f)
  unfolding new_client
  given e = ap or_fatal e

  not_given : (e : Sentinel) → (make_client (client_opts f)).1 ≡ some e → new_client f ≡ inr e
  unfolding new_client
  not_given e h = or_fatal-some (make_client (client_opts f)) e h

  abbrev Rejects : Type 0
  Rejects = (e : Sentinel) × ((make_client (client_opts f)).1 ≡ some e)

  -- The flags are checked in this order.
  bad_blksize : blksize_bad ≡ true → Rejects
  unfolding make_client apply_opts apply_opt
  bad_blksize a = (invalid_blocksize, rw (make_client, apply_opts, apply_opt, a) refl)

  bad_windowsize : blksize_bad ≡ false → windowsize_bad ≡ true → Rejects
  unfolding make_client apply_opts apply_opt
  bad_windowsize a b = (invalid_windowsize, rw (make_client, apply_opts, apply_opt, a, b) refl)

  bad_timeout : blksize_bad ≡ false → windowsize_bad ≡ false → timeout_bad ≡ true → Rejects
  unfolding make_client apply_opts apply_opt
  bad_timeout a b c = (invalid_timeout, rw (make_client, apply_opts, apply_opt, a, b, c) refl)

  bad_retransmit :
      blksize_bad ≡ false
      → windowsize_bad ≡ false
      → timeout_bad ≡ false
      → retransmit_bad ≡ true
      → Rejects
  unfolding make_client apply_opts apply_opt
  bad_retransmit a b c d =
      (invalid_retransmit, rw (make_client, apply_opts, apply_opt, a, b, c, d) refl)

  decided : (AreAllowed f × (new_client f ≡ inl (configured f))) ⊎ Rejects
  decided = elim (Bool-cases blksize_bad) [
    | inl a ↦ inr (bad_blksize a)
    | inr a ↦ elim (Bool-cases windowsize_bad) [
      | inl b ↦ inr (bad_windowsize a b)
      | inr b ↦ elim (Bool-cases timeout_bad) [
        | inl c ↦ inr (bad_timeout a b c)
        | inr c ↦ elim (Bool-cases retransmit_bad) [
          | inl d ↦ inr (bad_retransmit a b c d)
          | inr d ↦ inl (
            (
              between 8 65464 f.blksize a,
              between 1 65535 f.windowsize b,
              between 1 255 f.timeout c,
              d,
            ),
            given (accepted a b c d),
          )
        ]
      ]
    ]
  ]

-- The client of the command line is made exactly if the block size is between 8 and 65464, the
-- window size between 1 and 65535, the timeout between 1 and 255 and the retransmit limit not
-- negative. It then has the options of the flags, the transfer size among them exactly if that
-- flag is set, the mode netascii exactly if that flag is set and octet otherwise, and the
-- retransmit limit of the flags.
pub new_client_iff :
    (f : Flags) (c : Client) → (new_client f ≡ inl c) ↔ (AreAllowed f × (c ≡ configured f))
new_client_iff f c = (made, allowed)
  where
    by_decision :
        new_client f ≡ inl c
        → (AreAllowed f × (new_client f ≡ inl (configured f))) ⊎ Rejects f
        → AreAllowed f × (c ≡ configured f)
    by_decision h (inl (ok, e)) = (ok, cc)
    by_decision h (inr (s, e)) = let no_client = not_given f s e in cc

    made : new_client f ≡ inl c → AreAllowed f × (c ≡ configured f)
    made h = by_decision h (decided f)

    allowed : AreAllowed f × (c ≡ configured f) → new_client f ≡ inl c
    allowed ((a, b, t, r), e) =
        given f (
          accepted f (not_outside 8 65464 f.blksize a) (not_outside 1 65535 f.windowsize b)
            (not_outside 1 255 f.timeout t) r)
        ∙ ap inl (sym e)

-- ===== src/Conn/Negotiate/Frame.antt =====
-- The negotiation depends on nothing of a connection but what it changes, and on the direction.
use trivialt.Prelude.{
  ℕ, [], ◌∷◌, Option, none, some, ◌≡◌, refl, sym, ap, ◌∙◌, inl, inr, Bool-cases, subst,
}
use trivialt.Prelude.Bytes.{Bytes, bytes_eq}
use trivialt.Prelude.Int.{ℤ}
use trivialt.Strconv.{parse_uint, parse_int, max_uint8, max_uint16}
use trivialt.Datagram.{Options, opt_blocksize, opt_timeout, opt_transfer_size, opt_window_size}
use trivialt.Conn.{Conn}
use trivialt.Conn.Negotiate.{
  Parsed, parsed, refused, with_number, answer_size, apply_option, apply_options,
}
use trivialt.Conn.Negotiate.Settles.{settled, Settles, apply_option-Settles}

-- The outcome for another connection.
abbrev pub regraft : Conn → Parsed → Parsed
regraft c (parsed d ack) = parsed (settled c d) ack
regraft c (refused d e) = refused (settled c d) e

number-frame :
    (c c' : Conn) (n : Option ℕ) (opt val : Bytes) (k k' : ℕ → Parsed)
    → ((m : ℕ) → k' m ≡ regraft c' (k m))
    → with_number n (settled c' c) opt val k' ≡ regraft c' (with_number n c opt val k)
number-frame c c' none opt val k k' h = refl
number-frame c c' (some m) opt val k k' h = h m

size-frame :
    (c c' : Conn) (own size : Option ℤ) (ack : Options) (opt val : Bytes)
    → c.tsize ≡ own
    → c'.is_sender ≡ c.is_sender
    → answer_size size (settled c' c) ack opt val ≡ regraft c' (answer_size size c ack opt val)
unfolding answer_size
size-frame c c' own none ack opt val h s = refl
size-frame c c' none (some n) ack opt val h s = rw h refl
size-frame c c' (some own) (some n) ack opt val h s = elim (Bool-cases c.is_sender) [
  | inl t ↦ rw (h, s ∙ t, t) refl
  | inr f ↦ rw (h, s ∙ f, f) refl
]

apply_option-frame :
    (c c' : Conn) (ack : Options) (opt val : Bytes)
    → c'.is_sender ≡ c.is_sender
    → apply_option (settled c' c) ack opt val ≡ regraft c' (apply_option c ack opt val)
unfolding apply_option
apply_option-frame c c' ack opt val s = elim (Bool-cases (bytes_eq opt opt_blocksize)) [
  | inl t ↦ rw t (number-frame c c' (parse_uint max_uint16 val) opt val _ _ (λ m. refl))
  | inr f ↦ elim (Bool-cases (bytes_eq opt opt_timeout)) [
    | inl t ↦ rw (f, t) (number-frame c c' (parse_uint max_uint8 val) opt val _ _ (λ m. refl))
    | inr f' ↦ elim (Bool-cases (bytes_eq opt opt_transfer_size)) [
      | inl t ↦ rw (f, f', t) (size-frame c c' c.tsize (parse_int val) ack opt val refl s)
      | inr f'' ↦ elim (Bool-cases (bytes_eq opt opt_window_size)) [
        | inl t ↦
            rw (f, f', f'', t)
              (number-frame c c' (parse_uint max_uint16 val) opt val _ _ (λ m. refl))
        | inr f3 ↦ rw (f, f', f'', f3) refl
      ]
    ]
  ]
]

-- An option leaves the direction as it is.
abbrev Directed : Conn → Parsed → Type 0
Directed c (parsed d ack) = d.is_sender ≡ c.is_sender
Directed c (refused d e) = Unit

option-Directed : (c : Conn) (r : Parsed) → Settles c r → Directed c r
option-Directed c (parsed d ack) h = ap (λ (x : Conn). x.is_sender) h
option-Directed c (refused d e) h = tt

pub apply_options-frame :
    (m : Options) (c c' : Conn) (ack : Options)
    → c'.is_sender ≡ c.is_sender
    → apply_options (settled c' c) ack m ≡ regraft c' (apply_options c ack m)
unfolding apply_options
apply_options-frame [] c c' ack s = refl
apply_options-frame ((opt, val) ∷ m) c c' ack s =
    by_case (apply_option c ack opt val) refl (apply_options-frame m)
  where
    by_case :
        (r : Parsed)
        → apply_option c ack opt val ≡ r
        → ((d d' : Conn) (ack' : Options)
            → d'.is_sender ≡ d.is_sender
            → apply_options (settled d' d) ack' m ≡ regraft d' (apply_options d ack' m))
        → apply_options (settled c' c) ack ((opt, val) ∷ m)
          ≡ regraft c' (apply_options c ack ((opt, val) ∷ m))
    by_case (parsed d ack') e ih =
        let kept : d.is_sender ≡ c.is_sender =
          subst (Directed c) e (option-Directed c _ (apply_option-Settles c ack opt val)) in
        let there : apply_option (settled c' c) ack opt val ≡ parsed (settled c' d) ack' =
          apply_option-frame c c' ack opt val s ∙ ap (regraft c') e in
        rw (apply_options, there, e) (ih d c' ack' (s ∙ sym kept))
    by_case (refused d x) e ih =
        let there : apply_option (settled c' c) ack opt val ≡ refused (settled c' d) x =
          apply_option-frame c c' ack opt val s ∙ ap (regraft c') e in
        rw (apply_options, there, e) refl

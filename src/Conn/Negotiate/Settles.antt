-- ===== src/Conn/Negotiate/Settles.antt =====
-- What `parseOptions` changes of a connection, and that an end without a refusal is marked in it.
use trivialt.Prelude.{
  ℕ, [], ◌∷◌, Option, none, some, true, ◌≡◌, refl, ap, ◌∙◌, subst, inl, inr, Bool-cases,
}
use trivialt.Prelude.Bytes.{Bytes, bytes_eq}
use trivialt.Prelude.Int.{ℤ}
use trivialt.Strconv.{parse_uint, parse_int, max_uint8, max_uint16}
use trivialt.Datagram.{Options, opt_blocksize, opt_timeout, opt_transfer_size, opt_window_size}
use trivialt.Conn.{Conn}
use trivialt.Conn.Negotiate.{
  Parsed, parsed, refused, with_number, answer_size, apply_option, apply_options,
}

-- The connection that the options may have changed.
abbrev pub settled : Conn → Conn → Conn
settled c d = record c {
  blksize = d.blksize;
  timeout = d.timeout;
  windowsize = d.windowsize;
  tsize = d.tsize;
  options_parsed = d.options_parsed;
}

abbrev pub Settles : Conn → Parsed → Type 0
Settles c (parsed d ack) = d ≡ settled c d
Settles c (refused d e) = d ≡ settled c d

number-Settles :
    (c : Conn) (n : Option ℕ) (opt val : Bytes) (k : ℕ → Parsed)
    → ((m : ℕ) → Settles c (k m))
    → Settles c (with_number n c opt val k)
number-Settles c none opt val k h = refl
number-Settles c (some m) opt val k h = h m

size-Settles :
    (c : Conn) (own size : Option ℤ) (ack : Options) (opt val : Bytes)
    → c.tsize ≡ own
    → Settles c (answer_size size c ack opt val)
unfolding answer_size
size-Settles c own none ack opt val h = refl
size-Settles c none (some n) ack opt val h = rw h refl
size-Settles c (some own) (some n) ack opt val h = elim (Bool-cases c.is_sender) [
  | inl t ↦ rw (h, t) refl
  | inr f ↦ rw (h, f) refl
]

pub apply_option-Settles :
    (c : Conn) (ack : Options) (opt val : Bytes) → Settles c (apply_option c ack opt val)
unfolding apply_option
apply_option-Settles c ack opt val = elim (Bool-cases (bytes_eq opt opt_blocksize)) [
  | inl t ↦ rw t (number-Settles c (parse_uint max_uint16 val) opt val _ (λ m. refl))
  | inr f ↦ elim (Bool-cases (bytes_eq opt opt_timeout)) [
    | inl t ↦ rw (f, t) (number-Settles c (parse_uint max_uint8 val) opt val _ (λ m. refl))
    | inr f' ↦ elim (Bool-cases (bytes_eq opt opt_transfer_size)) [
      | inl t ↦ rw (f, f', t) (size-Settles c c.tsize (parse_int val) ack opt val refl)
      | inr f'' ↦ elim (Bool-cases (bytes_eq opt opt_window_size)) [
        | inl t ↦
            rw (f, f', f'', t) (number-Settles c (parse_uint max_uint16 val) opt val _ (λ m. refl))
        | inr f3 ↦ rw (f, f', f'', f3) refl
      ]
    ]
  ]
]

settled-twice : (c d e : Conn) → d ≡ settled c d → e ≡ settled d e → e ≡ settled c e
settled-twice c d e h k = k ∙ ap (λ x. settled x e) h

then-Settles : (c d : Conn) (r : Parsed) → d ≡ settled c d → Settles d r → Settles c r
then-Settles c d (parsed e ack) h k = settled-twice c d e h k
then-Settles c d (refused e x) h k = settled-twice c d e h k

pub apply_options-Settles :
    (m : Options) (c : Conn) (ack : Options) → Settles c (apply_options c ack m)
unfolding apply_options
apply_options-Settles [] c ack = refl
apply_options-Settles ((opt, val) ∷ m) c ack =
    by_case (apply_option c ack opt val) refl (apply_options-Settles m)
  where
    by_case :
        (r : Parsed)
        → apply_option c ack opt val ≡ r
        → ((d : Conn) (ack' : Options) → Settles d (apply_options d ack' m))
        → Settles c (apply_options c ack ((opt, val) ∷ m))
    by_case (parsed d ack') e ih =
        let one : d ≡ settled c d = subst (Settles c) e (apply_option-Settles c ack opt val) in
        rw (apply_options, e) (then-Settles c d (apply_options d ack' m) one (ih d ack'))
    by_case (refused d x) e ih =
        let one : d ≡ settled c d = subst (Settles c) e (apply_option-Settles c ack opt val) in
        rw (apply_options, e) one

-- The loop that refuses nothing ends with the options settled.
abbrev pub IsSettled : Parsed → Type 0
IsSettled (parsed d ack) = d.options_parsed ≡ true
IsSettled (refused d e) = Unit

pub apply_options-IsSettled :
    (m : Options) (c : Conn) (ack : Options) → IsSettled (apply_options c ack m)
unfolding apply_options
apply_options-IsSettled [] c ack = refl
apply_options-IsSettled ((opt, val) ∷ m) c ack =
    by_case (apply_option c ack opt val) refl (apply_options-IsSettled m)
  where
    by_case :
        (r : Parsed)
        → apply_option c ack opt val ≡ r
        → ((d : Conn) (ack' : Options) → IsSettled (apply_options d ack' m))
        → IsSettled (apply_options c ack ((opt, val) ∷ m))
    by_case (parsed d ack') e ih = rw (apply_options, e) (ih d ack')
    by_case (refused d x) e ih = rw (apply_options, e) tt

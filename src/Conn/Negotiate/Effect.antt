-- ===== src/Conn/Negotiate/Effect.antt =====
-- One option as what it does: the connection after it, and the value it is acknowledged with. The
-- effects of two different options commute.
use trivialt.Prelude.{
  ℕ, [], Option, none, some, Bool, true, false, if◌then◌else◌, ◌≡◌, ◌≢◌, ◌⊎◌, refl, sym, ap, ap₂,
  ◌∙◌, inl, inr, Bool-cases,
}
use trivialt.Prelude.Bytes.{Bytes, bytes_eq, bytes_eq→eq, bytes_eq_refl}
use trivialt.Prelude.Int.{ℤ}
use trivialt.Strconv.{parse_uint, parse_int, format_int, max_uint8, max_uint16}
use trivialt.Datagram.{Options, opt_blocksize, opt_timeout, opt_transfer_size, opt_window_size}
use trivialt.Datagram.Read.{put}
use trivialt.Errors.{parsing_option}
use trivialt.Conn.{Conn}
use trivialt.Conn.Negotiate.{Parsed, parsed, refused, with_number, answer_size, apply_option}

pub data Field : Type 0 where
  blksize_field timeout_field windowsize_field : Field

pub data Kind : Type 0 where
  number_option : Field → Kind
  size_option other_option : Kind

abbrev pub kind_of : Bytes → Kind
kind_of k =
    if bytes_eq k opt_blocksize
    then number_option blksize_field
    else if bytes_eq k opt_timeout
    then number_option timeout_field
    else if bytes_eq k opt_transfer_size
    then size_option
    else if bytes_eq k opt_window_size
    then number_option windowsize_field
    else other_option

abbrev pub field_max : Field → ℕ
field_max blksize_field = max_uint16
field_max timeout_field = max_uint8
field_max windowsize_field = max_uint16

abbrev pub set_field : Field → ℕ → Conn → Conn
set_field blksize_field n c = record c { blksize = n }
set_field timeout_field n c = record c { timeout = n }
set_field windowsize_field n c = record c { windowsize = n }

-- None is a refusal.
abbrev pub Effect : Type 0
Effect = Option (Conn × Option Bytes)

abbrev pub number_effect : Option ℕ → Field → Bytes → Conn → Effect
number_effect none f v c = none
number_effect (some n) f v c = some (set_field f n c, some v)

-- The size that is set, if any, and the answer.
abbrev pub size_effect : Option ℤ → Option ℤ → Bool → Conn → Effect
size_effect none own sends c = none
size_effect (some n) none sends c = some (record c { tsize = some n }, none)
size_effect (some n) (some own) true c = some (c, some (format_int own))
size_effect (some n) (some own) false c = some (record c { tsize = some n }, none)

abbrev pub effect : Kind → Bytes → Conn → Effect
effect (number_option f) v c = number_effect (parse_uint (field_max f) v) f v c
effect size_option v c = size_effect (parse_int v) c.tsize c.is_sender c
effect other_option v c = some (c, none)

abbrev pub answered : Options → Bytes → Option Bytes → Options
answered ack k none = ack
answered ack k (some w) = put ack k w

abbrev pub outcome : Conn → Bytes → Bytes → Options → Effect → Parsed
outcome c k v ack none = refused c (parsing_option k v)
outcome c k v ack (some (d, w)) = parsed d (answered ack k w)

number-outcome :
    (c : Conn) (ack : Options) (k v : Bytes) (n : Option ℕ) (f : Field)
    → with_number n c k v (λ m. parsed (set_field f m c) (put ack k v))
      ≡ outcome c k v ack (number_effect n f v c)
number-outcome c ack k v none f = refl
number-outcome c ack k v (some n) f = refl

size-outcome :
    (c : Conn) (ack : Options) (k v : Bytes) (size own : Option ℤ) (sends : Bool)
    → c.tsize ≡ own
    → c.is_sender ≡ sends
    → answer_size size c ack k v ≡ outcome c k v ack (size_effect size own sends c)
unfolding answer_size
size-outcome c ack k v none own sends h s = refl
size-outcome c ack k v (some n) none sends h s = rw h refl
size-outcome c ack k v (some n) (some own) true h s = rw (h, s) refl
size-outcome c ack k v (some n) (some own) false h s = rw (h, s) refl

pub apply_option-eq-outcome :
    (c : Conn) (ack : Options) (k v : Bytes)
    → apply_option c ack k v ≡ outcome c k v ack (effect (kind_of k) v c)
unfolding apply_option
apply_option-eq-outcome c ack k v = elim (Bool-cases (bytes_eq k opt_blocksize)) [
  | inl t ↦ rw t (number-outcome c ack k v (parse_uint max_uint16 v) blksize_field)
  | inr f ↦ elim (Bool-cases (bytes_eq k opt_timeout)) [
    | inl t ↦ rw (f, t) (number-outcome c ack k v (parse_uint max_uint8 v) timeout_field)
    | inr f' ↦ elim (Bool-cases (bytes_eq k opt_transfer_size)) [
      | inl t ↦ rw (f, f', t) (size-outcome c ack k v (parse_int v) c.tsize c.is_sender refl refl)
      | inr f'' ↦ elim (Bool-cases (bytes_eq k opt_window_size)) [
        | inl t ↦
            rw (f, f', f'', t) (number-outcome c ack k v (parse_uint max_uint16 v) windowsize_field)
        | inr f3 ↦ rw (f, f', f'', f3) refl
      ]
    ]
  ]
]

-- Two effects after each other, with both answers.
abbrev pub Both : Type 0
Both = Option (Conn × Option Bytes × Option Bytes)

abbrev pub second : Option Bytes → Effect → Both
second x none = none
second x (some (e, y)) = some (e, x, y)

abbrev pub both : Effect → (Conn → Effect) → Both
both none f = none
both (some (d, x)) f = second x (f d)

abbrev pub exchanged : Both → Both
exchanged none = none
exchanged (some (e, y, x)) = some (e, x, y)

fields-commute :
    (f g : Field) (n m : ℕ) (c : Conn)
    → f ≢ g
    → set_field g m (set_field f n c) ≡ set_field f n (set_field g m c)
fields-commute blksize_field blksize_field n m c h = absurd (h refl)
fields-commute blksize_field timeout_field n m c h = refl
fields-commute blksize_field windowsize_field n m c h = refl
fields-commute timeout_field blksize_field n m c h = refl
fields-commute timeout_field timeout_field n m c h = absurd (h refl)
fields-commute timeout_field windowsize_field n m c h = refl
fields-commute windowsize_field blksize_field n m c h = refl
fields-commute windowsize_field timeout_field n m c h = refl
fields-commute windowsize_field windowsize_field n m c h = absurd (h refl)

numbers-commute :
    (f g : Field) (n m : Option ℕ) (v w : Bytes) (c : Conn)
    → f ≢ g
    → both (number_effect n f v c) (number_effect m g w)
      ≡ exchanged (both (number_effect m g w c) (number_effect n f v))
numbers-commute f g none none v w c h = refl
numbers-commute f g none (some m) v w c h = refl
numbers-commute f g (some n) none v w c h = refl
numbers-commute f g (some n) (some m) v w c h =
    ap (λ e. some (e, some v, some w)) (fields-commute f g n m c h)

pub field-tsize : (f : Field) (n : ℕ) (c : Conn) → (set_field f n c).tsize ≡ c.tsize
field-tsize blksize_field n c = refl
field-tsize timeout_field n c = refl
field-tsize windowsize_field n c = refl

field-is_sender : (f : Field) (n : ℕ) (c : Conn) → (set_field f n c).is_sender ≡ c.is_sender
field-is_sender blksize_field n c = refl
field-is_sender timeout_field n c = refl
field-is_sender windowsize_field n c = refl

field-set_size :
    (f : Field) (n : ℕ) (t : Option ℤ) (c : Conn)
    → record (set_field f n c) { tsize = t } ≡ set_field f n (record c { tsize = t })
field-set_size blksize_field n t c = refl
field-set_size timeout_field n t c = refl
field-set_size windowsize_field n t c = refl

-- The effect of a size with the size and the direction of another connection.
number-size :
    (f : Field) (n : Option ℕ) (s own : Option ℤ) (sends : Bool) (v : Bytes) (c : Conn)
    → both (number_effect n f v c) (size_effect s own sends)
      ≡ exchanged (both (size_effect s own sends c) (number_effect n f v))
number-size f none none own sends v c = refl
number-size f none (some s) none sends v c = refl
number-size f none (some s) (some own) true v c = refl
number-size f none (some s) (some own) false v c = refl
number-size f (some n) none own sends v c = refl
number-size f (some n) (some s) none sends v c =
    ap (λ e. some (e, some v, none)) (field-set_size f n (some s) c)
number-size f (some n) (some s) (some own) true v c = refl
number-size f (some n) (some s) (some own) false v c =
    ap (λ e. some (e, some v, none)) (field-set_size f n (some s) c)

number-size_commute :
    (f : Field) (n : Option ℕ) (s : Option ℤ) (v : Bytes) (c : Conn)
    → both (number_effect n f v c) (λ d. size_effect s d.tsize d.is_sender d)
      ≡ exchanged (both (size_effect s c.tsize c.is_sender c) (number_effect n f v))
number-size_commute f none s v c = number-size f none s c.tsize c.is_sender v c
number-size_commute f (some n) s v c =
    ap₂ (λ t b. second (some v) (size_effect s t b (set_field f n c))) (field-tsize f n c)
      (field-is_sender f n c)
    ∙ number-size f (some n) s c.tsize c.is_sender v c

exchanged-twice : (b : Both) → exchanged (exchanged b) ≡ b
exchanged-twice none = refl
exchanged-twice (some (e, x, y)) = refl

turned : (x y : Both) → x ≡ exchanged y → y ≡ exchanged x
turned x y h = sym (ap exchanged h ∙ exchanged-twice y)

nothing-first : (e : Effect) → second none e ≡ exchanged (both e (λ d. some (d, none)))
nothing-first none = refl
nothing-first (some (d, x)) = refl

-- Two options of different kinds, or of no known kind, in either order.
pub effects-commute :
    (a b : Kind) (v w : Bytes) (c : Conn)
    → (a ≡ b → a ≡ other_option)
    → both (effect a v c) (effect b w) ≡ exchanged (both (effect b w c) (effect a v))
effects-commute other_option b v w c h = nothing-first (effect b w c)
effects-commute (number_option f) (number_option g) v w c h =
    numbers-commute f g (parse_uint (field_max f) v) (parse_uint (field_max g) w) v w c
      (λ e. known f (h (ap number_option e)))
  where
    known : (f : Field) → number_option f ≢ other_option
    known f e = cc
effects-commute (number_option f) size_option v w c h =
    number-size_commute f (parse_uint (field_max f) v) (parse_int w) v c
effects-commute (number_option f) other_option v w c h =
    turned (second none (effect (number_option f) v c))
      (both (effect (number_option f) v c) (effect other_option w))
      (nothing-first (effect (number_option f) v c))
effects-commute size_option (number_option g) v w c h =
    turned (both (effect (number_option g) w c) (effect size_option v))
      (both (effect size_option v c) (effect (number_option g) w))
      (number-size_commute g (parse_uint (field_max g) w) (parse_int v) w c)
effects-commute size_option size_option v w c h = absurd (known (h refl))
  where
    known : size_option ≢ other_option
    known e = cc
effects-commute size_option other_option v w c h =
    turned (second none (effect size_option v c))
      (both (effect size_option v c) (effect other_option w))
      (nothing-first (effect size_option v c))

abbrev pub key_of : Kind → Bytes
key_of (number_option blksize_field) = opt_blocksize
key_of (number_option timeout_field) = opt_timeout
key_of (number_option windowsize_field) = opt_window_size
key_of size_option = opt_transfer_size
key_of other_option = []

pub known_key : (k : Bytes) → (kind_of k ≡ other_option) ⊎ (k ≡ key_of (kind_of k))
known_key k = elim (Bool-cases (bytes_eq k opt_blocksize)) [
  | inl t ↦ rw t (inr (bytes_eq→eq k opt_blocksize t))
  | inr f ↦ elim (Bool-cases (bytes_eq k opt_timeout)) [
    | inl t ↦ rw (f, t) (inr (bytes_eq→eq k opt_timeout t))
    | inr f' ↦ elim (Bool-cases (bytes_eq k opt_transfer_size)) [
      | inl t ↦ rw (f, f', t) (inr (bytes_eq→eq k opt_transfer_size t))
      | inr f'' ↦ elim (Bool-cases (bytes_eq k opt_window_size)) [
        | inl t ↦ rw (f, f', f'', t) (inr (bytes_eq→eq k opt_window_size t))
        | inr f3 ↦ rw (f, f', f'', f3) (inl refl)
      ]
    ]
  ]
]

-- Different keys are of different kinds, or one of them is of no known kind.
pub kinds-differ :
    (k j : Bytes) → bytes_eq k j ≡ false → kind_of k ≡ kind_of j → kind_of k ≡ other_option
kinds-differ k j ne same = elim (known_key k) [
  | inl e ↦ e
  | inr p ↦ elim (known_key j) [
    | inl e ↦ same ∙ e
    | inr q ↦ absurd (equal (p ∙ ap key_of same ∙ sym q))
  ]
]
  where
    equal : k ≢ j
    equal e = let t : bytes_eq k j ≡ true = ap (bytes_eq k) (sym e) ∙ bytes_eq_refl k in cc

-- ===== src/Conn/Negotiate/Follow.antt =====
-- One option of a request: what the server acknowledges of it leads the client to the same numbers.
use trivialt.Prelude.{
  ℕ, ◌<◌, [], ◌∷◌, ◌++◌, Option, none, some, Bool, true, false, if◌then◌else◌, All, ◌≡◌, ◌≢◌, ◌⊎◌,
  refl, sym, ap, ◌∙◌, subst, inl, inr, Bool-cases,
}
use trivialt.Prelude.Bytes.{Bytes, bytes_eq, bytes_eq_refl}
use trivialt.Prelude.Int.{ℤ, pos}
use trivialt.Strconv.{parse_uint, parse_int, format_int}
use trivialt.Strconv.Laws.{parse_int-format_uint}
use trivialt.Datagram.{Options, opt_transfer_size}
use trivialt.Datagram.Read.{put}
use trivialt.Conn.{Conn}
use trivialt.Conn.Negotiate.{Parsed, parsed, refused, apply_option, apply_options}
use trivialt.Conn.Negotiate.Maps.{find, find-put}
use trivialt.Conn.Negotiate.Effect.{
  Field, blksize_field, timeout_field, windowsize_field, Kind, number_option, size_option,
  other_option, kind_of, key_of, known_key, field_max, set_field, field-tsize, number_effect,
  size_effect, effect, answered, outcome, apply_option-eq-outcome,
}
use trivialt.Conn.Negotiate.Order.{and_then, apply_options-eq-and_then}

abbrev pub Agrees : Conn → Conn → Type 0
Agrees d e = (d.blksize ≡ e.blksize) × (d.timeout ≡ e.timeout) × (d.windowsize ≡ e.windowsize)

-- A size that fits the 63 bits of a file's size, if there is one.
abbrev pub FitsFile : Option ℤ → Type 0
FitsFile none = Unit
FitsFile (some i) = (n : ℕ) × (i ≡ pos n) × (n < 9223372036854775808)

-- The options that are still to come are not acknowledged yet.
abbrev pub Fresh : Options → Options → Type 0
Fresh m a = All (λ o. find a o.0 ≡ none) m

-- The size of the server is its file's, or it is not asked for any more.
abbrev pub Sized : Option ℤ → Options → Type 0
Sized t m = FitsFile t ⊎ All (λ o. bytes_eq opt_transfer_size o.0 ≡ false) m

-- After the acknowledged options `a` the client `c` has come to `e`.
abbrev pub Leads : Conn → Options → Conn → Options → Type 0
Leads c a e b = (m : Options) → apply_options c [] (a ++ m) ≡ apply_options e b m

abbrev pub Follows : Conn → Conn → Options → Type 0
Follows c s a = (e : Conn) × (b : Options) × Agrees s e × Leads c a e b

put-eq-append : (a : Options) (k w : Bytes) → find a k ≡ none → put a k w ≡ a ++ (k, w) ∷ []
unfolding put
put-eq-append [] k w h = refl
put-eq-append ((j, x) ∷ a) k w h = elim (Bool-cases (bytes_eq j k)) [
  | inl t ↦ absurd (known (ap (λ b. if b then some x else find a k) (sym t) ∙ h))
  | inr f ↦ rw (f, put-eq-append a k w (ap (λ b. if b then some x else find a k) (sym f) ∙ h)) refl
]
  where
    known : some x ≢ none
    known e = cc

append-one : (a m : Options) (o : Bytes × Bytes) → (a ++ o ∷ []) ++ m ≡ a ++ o ∷ m
append-one [] m o = refl
append-one (x ∷ a) m o = ap (λ l. x ∷ l) (append-one a m o)

Leads-put :
    (c e e' : Conn) (a b b' : Options) (k w : Bytes)
    → Leads c a e b
    → find a k ≡ none
    → apply_option e b k w ≡ parsed e' b'
    → Leads c (put a k w) e' b'
Leads-put c e e' a b b' k w h f p m =
    ap (λ l. apply_options c [] (l ++ m)) (put-eq-append a k w f)
    ∙ ap (apply_options c []) (append-one a m (k, w))
    ∙ h ((k, w) ∷ m)
    ∙ apply_options-eq-and_then e b k w m
    ∙ ap (λ r. and_then r (λ d a. apply_options d a m)) p

answered-Fresh :
    (m a : Options) (k : Bytes) (x : Option Bytes)
    → All (λ o. bytes_eq k o.0 ≡ false) m
    → Fresh m a
    → Fresh m (answered a k x)
answered-Fresh m a k none h f = f
answered-Fresh [] a k (some w) h f = tt
answered-Fresh ((j, v) ∷ m) a k (some w) h f = (
  find-put a k w j ∙ ap (λ b. if b then some w else find a j) h.0 ∙ f.0,
  answered-Fresh m a k (some w) h.1 f.1,
)

set_field-Agrees :
    (f : Field) (n : ℕ) (s e : Conn) → Agrees s e → Agrees (set_field f n s) (set_field f n e)
set_field-Agrees blksize_field n s e (x, y, z) = (refl, y, z)
set_field-Agrees timeout_field n s e (x, y, z) = (x, refl, z)
set_field-Agrees windowsize_field n s e (x, y, z) = (x, y, refl)

parse_int-format_int : (i : ℤ) (h : FitsFile (some i)) → parse_int (format_int i) ≡ some (pos h.0)
unfolding format_int
parse_int-format_int i (n, h, le) = rw h (parse_int-format_uint n le)

joined : (s e e' : Conn) → Agrees s e → Agrees e e' → Agrees s e'
joined s e e' (x, y, z) (x', y', z') = (x ∙ x', y ∙ y', z ∙ z')

-- What one option of the server leaves for the rest.
abbrev pub Step : Conn → Options → Parsed → Type 0
Step c m (refused s e) = Unit
Step c m (parsed s a) = Follows c s a × Fresh m a × Sized s.tsize m

module _ (c : Conn) (m : Options) (k v : Bytes) (s : Conn) (a : Options)
    (apart : All (λ o. bytes_eq k o.0 ≡ false) m) (new : find a k ≡ none) (fresh : Fresh m a)
    (sized : Sized s.tsize ((k, v) ∷ m)) (follows : Follows c s a) where
  later : Sized s.tsize m
  later = elim sized [ inl f ↦ inl f | inr h ↦ inr h.1 ]

  number_step :
      (f : Field) (n : Option ℕ)
      → kind_of k ≡ number_option f
      → parse_uint (field_max f) v ≡ n
      → Step c m (outcome s k v a (number_effect n f v s))
  number_step f none q p = tt
  number_step f (some n) q p =
      let (e, b, agrees, leads) = follows in
      let there : apply_option e b k v ≡ parsed (set_field f n e) (put b k v) =
        apply_option-eq-outcome e b k v
        ∙ ap (λ x. outcome e k v b (effect x v e)) q
        ∙ ap (λ x. outcome e k v b (number_effect x f v e)) p in
      (
        (
          set_field f n e,
          put b k v,
          set_field-Agrees f n s e agrees,
          Leads-put c e _ a b _ k v leads new there,
        ),
        answered-Fresh m a k (some v) apart fresh,
        subst (λ t. Sized t m) (sym (field-tsize f n s)) later,
      )

  -- The client takes the size that the server knows, or keeps the one that it sends.
  client_size :
      (e : Conn) (b : Options) (i : ℤ)
      → FitsFile (some i)
      → kind_of k ≡ size_option
      → (e' : Conn) × (b' : Options) × (apply_option e b k (format_int i) ≡ parsed e' b')
        × Agrees e e'
  client_size e b i (n, h, le) q =
      let there : apply_option e b k (format_int i)
          ≡ outcome e k (format_int i) b (size_effect (some (pos n)) e.tsize e.is_sender e) =
        apply_option-eq-outcome e b k (format_int i)
        ∙ ap (λ x. outcome e k (format_int i) b (effect x (format_int i) e)) q
        ∙ ap (λ x. outcome e k (format_int i) b (size_effect x e.tsize e.is_sender e))
            (parse_int-format_int i (n, h, le)) in
      taken e.tsize e.is_sender there
    where
      taken :
          (t : Option ℤ) (sends : Bool)
          → apply_option e b k (format_int i)
            ≡ outcome e k (format_int i) b (size_effect (some (pos n)) t sends e)
          → (e' : Conn) × (b' : Options) × (apply_option e b k (format_int i) ≡ parsed e' b')
            × Agrees e e'
      taken none sends p = (_, _, p, (refl, refl, refl))
      taken (some own) true p = (_, _, p, (refl, refl, refl))
      taken (some own) false p = (_, _, p, (refl, refl, refl))

  is_size : kind_of k ≡ size_option → k ≡ opt_transfer_size
  is_size q = elim (known_key k) [ inl p ↦ absurd (other (sym q ∙ p)) | inr p ↦ p ∙ ap key_of q ]
    where
      other : size_option ≢ other_option
      other p = cc

  asked : kind_of k ≡ size_option → All (λ o. bytes_eq opt_transfer_size o.0 ≡ false) m
  asked q = subst (λ j. All (λ o. bytes_eq j o.0 ≡ false) m) (is_size q) apart

  own_size : {own : ℤ} → s.tsize ≡ some own → kind_of k ≡ size_option → FitsFile (some own)
  own_size p q = elim sized [
    | inl f ↦ subst FitsFile p f
    | inr h ↦ absurd (different (sym (ap (bytes_eq opt_transfer_size) (is_size q)) ∙ h.0))
  ]
    where
      different : bytes_eq opt_transfer_size opt_transfer_size ≢ false
      different e = let t : true ≡ false = sym (bytes_eq_refl opt_transfer_size) ∙ e in cc

  size_step :
      (i t : Option ℤ) (sends : Bool)
      → s.tsize ≡ t
      → kind_of k ≡ size_option
      → Step c m (outcome s k v a (size_effect i t sends s))
  size_step none t sends p q = tt
  size_step (some i) none sends p q = (follows, fresh, inr (asked q))
  size_step (some i) (some own) false p q = (follows, fresh, inr (asked q))
  size_step (some i) (some own) true p q =
      let (e, b, agrees, leads) = follows in
      let (e', b', there, same) = client_size e b own (own_size p q) q in
      (
        (
          e',
          b',
          joined s e e' agrees same,
          Leads-put c e e' a b b' k (format_int own) leads new there,
        ),
        answered-Fresh m a k (some (format_int own)) apart fresh,
        inr (asked q),
      )

  pub step : Step c m (apply_option s a k v)
  step = subst (Step c m) (sym (apply_option-eq-outcome s a k v)) (by_kind (kind_of k) refl)
    where
      by_kind : (x : Kind) → kind_of k ≡ x → Step c m (outcome s k v a (effect x v s))
      by_kind (number_option f) q = number_step f (parse_uint (field_max f) v) q refl
      by_kind size_option q = size_step (parse_int v) s.tsize s.is_sender refl q
      by_kind other_option q = (follows, fresh, later)

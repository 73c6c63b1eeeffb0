-- ===== src/Conn/Negotiate/Order.antt =====
-- A Go map is iterated in an arbitrary order: what is negotiated does not depend on it.
use trivialt.Prelude.{[], ◌∷◌, Option, none, some, false, ◌≡◌, refl, sym, ◌∙◌, subst}
use trivialt.Prelude.Bytes.{Bytes, bytes_eq}
use trivialt.Datagram.{Options}
use trivialt.Errors.{parsing_option}
use trivialt.Conn.{Conn}
use trivialt.Conn.Negotiate.{Parsed, parsed, refused, apply_option, apply_options}
use trivialt.Conn.Negotiate.Maps.{
  Reorders, unchanged, swapped, behind, twice, SameMap, put-SameMap, put-put_ne,
}
use trivialt.Conn.Negotiate.Effect.{
  kind_of, Effect, effect, answered, outcome, apply_option-eq-outcome, Both, second, both,
  exchanged, effects-commute, kinds-differ,
}

-- The same outcome: the same connection and the same map to acknowledge, or a refusal. Which of the bad
-- options the error names is left open, as in Go.
abbrev pub Alike : Parsed → Parsed → Type 0
Alike (parsed d a) (parsed d' a') = (d ≡ d') × SameMap a a'
Alike (parsed d a) (refused d' e') = ⊥
Alike (refused d e) (parsed d' a') = ⊥
Alike (refused d e) (refused d' e') = Unit

Alike-trans : (r s t : Parsed) → Alike r s → Alike s t → Alike r t
Alike-trans (parsed d a) (parsed e b) (parsed f c) h k = (h.0 ∙ k.0, λ i. h.1 i ∙ k.1 i)
Alike-trans (parsed d a) (parsed e b) (refused f c) h k = absurd k
Alike-trans (parsed d a) (refused e b) t h k = absurd h
Alike-trans (refused d a) (parsed e b) t h k = absurd h
Alike-trans (refused d a) (refused e b) (parsed f c) h k = absurd k
Alike-trans (refused d a) (refused e b) (refused f c) h k = tt

-- What follows an option that is accepted.
abbrev pub and_then : Parsed → (Conn → Options → Parsed) → Parsed
and_then (parsed d a) f = f d a
and_then (refused d e) f = refused d e

and_then-Alike :
    (r s : Parsed) (f g : Conn → Options → Parsed)
    → Alike r s
    → ((d : Conn) (a a' : Options) → SameMap a a' → Alike (f d a) (g d a'))
    → Alike (and_then r f) (and_then s g)
and_then-Alike (parsed d a) (parsed e b) f g h k =
    subst (λ x. Alike (f d a) (g x b)) h.0 (k d a b h.1)
and_then-Alike (parsed d a) (refused e b) f g h k = absurd h
and_then-Alike (refused d a) (parsed e b) f g h k = absurd h
and_then-Alike (refused d a) (refused e b) f g h k = tt

pub apply_options-eq-and_then :
    (c : Conn) (a : Options) (k v : Bytes) (m : Options)
    → apply_options c a ((k, v) ∷ m) ≡ and_then (apply_option c a k v) (λ d b. apply_options d b m)
unfolding apply_options
apply_options-eq-and_then c a k v m = by_result (apply_option c a k v) refl
  where
    by_result :
        (r : Parsed)
        → apply_option c a k v ≡ r
        → apply_options c a ((k, v) ∷ m)
          ≡ and_then (apply_option c a k v) (λ d b. apply_options d b m)
    by_result (parsed d b) e = rw (apply_options, e) refl
    by_result (refused d x) e = rw (apply_options, e) refl

and_then-and_then :
    (r : Parsed) (f g h : Conn → Options → Parsed)
    → ((d : Conn) (b : Options) → f d b ≡ and_then (g d b) h)
    → and_then r f ≡ and_then (and_then r g) h
and_then-and_then (parsed d a) f g h e = e d a
and_then-and_then (refused d x) f g h e = refl

outcome-Alike :
    (c : Conn) (k v : Bytes) (a a' : Options) (e : Effect)
    → SameMap a a'
    → Alike (outcome c k v a e) (outcome c k v a' e)
outcome-Alike c k v a a' none h = tt
outcome-Alike c k v a a' (some (d, none)) h = (refl, h)
outcome-Alike c k v a a' (some (d, some w)) h = (refl, put-SameMap a a' k w h)

apply_option-Alike :
    (c : Conn) (a a' : Options) (k v : Bytes)
    → SameMap a a'
    → Alike (apply_option c a k v) (apply_option c a' k v)
apply_option-Alike c a a' k v h =
    rw (apply_option-eq-outcome c a k v, apply_option-eq-outcome c a' k v)
      (outcome-Alike c k v a a' (effect (kind_of k) v c) h)

apply_options-Alike :
    (m : Options) (c : Conn) (a a' : Options)
    → SameMap a a'
    → Alike (apply_options c a m) (apply_options c a' m)
unfolding apply_options
apply_options-Alike [] c a a' h = (refl, h)
apply_options-Alike ((k, v) ∷ m) c a a' h =
    rw (apply_options-eq-and_then c a k v m, apply_options-eq-and_then c a' k v m)
      (and_then-Alike (apply_option c a k v) (apply_option c a' k v) (λ d b. apply_options d b m)
        (λ d b. apply_options d b m) (apply_option-Alike c a a' k v h) (apply_options-Alike m))

-- Two options at once.
abbrev pair_outcome : Conn → Options → Bytes → Bytes → Both → Parsed
pair_outcome c a k j none = refused c (parsing_option k j)
pair_outcome c a k j (some (e, x, y)) = parsed e (answered (answered a k x) j y)

second-Alike :
    (c d : Conn) (k j w : Bytes) (a : Options) (x : Option Bytes) (e : Effect)
    → Alike (outcome d j w (answered a k x) e) (pair_outcome c a k j (second x e))
second-Alike c d k j w a x none = tt
second-Alike c d k j w a x (some (e, y)) = (refl, λ i. refl)

pair-Alike :
    (c : Conn) (k v j w : Bytes) (a : Options) (e : Effect) (f : Conn → Effect)
    → Alike
        (and_then (outcome c k v a e) (λ d b. outcome d j w b (f d)))
        (pair_outcome c a k j (both e f))
pair-Alike c k v j w a none f = tt
pair-Alike c k v j w a (some (d, x)) f = second-Alike c d k j w a x (f d)

answered-swap :
    (k j : Bytes) (x y : Option Bytes) (a a' : Options)
    → bytes_eq k j ≡ false
    → SameMap a a'
    → SameMap (answered (answered a k x) j y) (answered (answered a' j y) k x)
answered-swap k j none none a a' ne h = h
answered-swap k j none (some w) a a' ne h = put-SameMap a a' j w h
answered-swap k j (some v) none a a' ne h = put-SameMap a a' k v h
answered-swap k j (some v) (some w) a a' ne h = put-put_ne a a' k v j w ne h

pair_outcome-swap :
    (c : Conn) (k j : Bytes) (a a' : Options) (b : Both)
    → bytes_eq k j ≡ false
    → SameMap a a'
    → Alike (pair_outcome c a k j (exchanged b)) (pair_outcome c a' j k b)
pair_outcome-swap c k j a a' none ne h = tt
pair_outcome-swap c k j a a' (some (e, y, x)) ne h = (refl, answered-swap k j x y a a' ne h)

Alike-sym : (r s : Parsed) → Alike r s → Alike s r
Alike-sym (parsed d a) (parsed e b) h = (sym h.0, λ i. sym (h.1 i))
Alike-sym (parsed d a) (refused e b) h = absurd h
Alike-sym (refused d a) (parsed e b) h = absurd h
Alike-sym (refused d a) (refused e b) h = tt

pair-eq :
    (c : Conn) (a : Options) (k v j w : Bytes)
    → and_then (apply_option c a k v) (λ d b. apply_option d b j w)
      ≡ and_then
          (outcome c k v a (effect (kind_of k) v c))
          (λ d b. outcome d j w b (effect (kind_of j) w d))
pair-eq c a k v j w =
    λ i. and_then (apply_option-eq-outcome c a k v i) (λ d b. apply_option-eq-outcome d b j w i)

pair_swap :
    (c : Conn) (a a' : Options) (k v j w : Bytes)
    → bytes_eq k j ≡ false
    → SameMap a a'
    → Alike
        (and_then (apply_option c a k v) (λ d b. apply_option d b j w))
        (and_then (apply_option c a' j w) (λ d b. apply_option d b k v))
pair_swap c a a' k v j w ne h =
    let one = both (effect (kind_of k) v c) (effect (kind_of j) w) in
    let other = both (effect (kind_of j) w c) (effect (kind_of k) v) in
    let commute : one ≡ exchanged other =
      effects-commute (kind_of k) (kind_of j) v w c (kinds-differ k j ne) in
    let left = pair-Alike c k v j w a (effect (kind_of k) v c) (effect (kind_of j) w) in
    let right = pair-Alike c j w k v a' (effect (kind_of j) w c) (effect (kind_of k) v) in
    let middle : Alike (pair_outcome c a k j one) (pair_outcome c a' j k other) =
      subst (λ b. Alike (pair_outcome c a k j b) (pair_outcome c a' j k other)) (sym commute)
        (pair_outcome-swap c k j a a' other ne h) in
    rw (pair-eq c a k v j w, pair-eq c a' j w k v)
      (Alike-trans _ _ _ left (Alike-trans _ _ _ middle (Alike-sym _ _ right)))

two_first :
    (c : Conn) (a : Options) (k v j w : Bytes) (m : Options)
    → apply_options c a ((k, v) ∷ (j, w) ∷ m)
      ≡ and_then
          (and_then (apply_option c a k v) (λ d b. apply_option d b j w))
          (λ d b. apply_options d b m)
two_first c a k v j w m =
    apply_options-eq-and_then c a k v ((j, w) ∷ m)
    ∙ and_then-and_then (apply_option c a k v) (λ d b. apply_options d b ((j, w) ∷ m))
        (λ d b. apply_option d b j w) (λ d b. apply_options d b m)
        (λ d b. apply_options-eq-and_then d b j w m)

-- In whatever order a map of options is iterated, the negotiation has the same outcome: the same
-- connection and the same map of options to acknowledge, or a refusal; and so for maps to
-- acknowledge that were the same before.
pub apply_options-Reorders :
    (m m' : Options) (c : Conn) (a a' : Options)
    → Reorders m m'
    → SameMap a a'
    → Alike (apply_options c a m) (apply_options c a' m')
apply_options-Reorders m m' c a a' (unchanged) h = apply_options-Alike m c a a' h
apply_options-Reorders m m' c a a' (swapped {k = k} {v = v} {j = j} {w = w} {m = l} ne) h =
    rw (two_first c a k v j w l, two_first c a' j w k v l)
      (and_then-Alike _ _ _ _ (pair_swap c a a' k v j w ne h) (apply_options-Alike l))
apply_options-Reorders m m' c a a' (behind {k = k} {v = v} {m = l} {m' = l'} r) h =
    rw (apply_options-eq-and_then c a k v l, apply_options-eq-and_then c a' k v l')
      (and_then-Alike _ _ _ _ (apply_option-Alike c a a' k v h)
        (λ d b b' same. apply_options-Reorders l l' d b b' r same))
apply_options-Reorders m m' c a a' (twice {m' = l} r s) h =
    Alike-trans (apply_options c a m) (apply_options c a' l) (apply_options c a' m')
      (apply_options-Reorders m l c a a' r h) (apply_options-Reorders l m' c a' a' s (λ i. refl))

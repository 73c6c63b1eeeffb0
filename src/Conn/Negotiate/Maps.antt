-- ===== src/Conn/Negotiate/Maps.antt =====
-- Options as a map: the order of the entries, and what `m[k] = v` does to it.
use trivialt.Prelude.{
  [], ◌∷◌, Option, none, some, Bool, true, false, if◌then◌else◌, ◌≡◌, ◌≢◌, refl, sym, ap, ◌∙◌, inl,
  inr, Bool-cases,
}
use trivialt.Prelude.Bytes.{Bytes, bytes_eq, bytes_eq→eq, bytes_eq_refl}
use trivialt.Datagram.{Options}
use trivialt.Datagram.Read.{put}

-- Two orders of the same map: neighbours with different keys change places.
pub data Reorders : Options → Options → Type 0 where
  unchanged : {m : Options} → Reorders m m
  swapped :
      {k v j w : Bytes} {m : Options}
      → bytes_eq k j ≡ false
      → Reorders ((k, v) ∷ (j, w) ∷ m) ((j, w) ∷ (k, v) ∷ m)
  behind : {k v : Bytes} {m m' : Options} → Reorders m m' → Reorders ((k, v) ∷ m) ((k, v) ∷ m')
  twice : {m m' m'' : Options} → Reorders m m' → Reorders m' m'' → Reorders m m''

-- Two lists that are the same map.
abbrev pub find : Options → Bytes → Option Bytes
find [] k = none
find ((j, w) ∷ m) k = let rest = find m k in if bytes_eq j k then some w else rest

abbrev pub SameMap : Options → Options → Type 0
SameMap m m' = (k : Bytes) → find m k ≡ find m' k

if-once {ℓ} :
    {A : Type ℓ} (b : Bool) (x y z : A)
    → (if b then x else z) ≡ (if b then x else if b then y else z)
if-once true x y z = refl
if-once false x y z = refl

if-swap {ℓ} :
    {A : Type ℓ} (a b : Bool) (x y z : A)
    → (a ≡ true → b ≡ false)
    → (if a then x else if b then y else z) ≡ (if b then y else if a then x else z)
if-swap true true x y z h = let e : true ≡ false = h refl in cc
if-swap true false x y z h = refl
if-swap false b x y z h = refl

-- Of two different keys at most one is the third.
not_both : (k j i : Bytes) → bytes_eq k j ≡ false → bytes_eq k i ≡ true → bytes_eq j i ≡ false
not_both k j i ne t = elim (Bool-cases (bytes_eq j i)) [
  | inl u ↦ absurd (different (bytes_eq→eq k i t ∙ sym (bytes_eq→eq j i u)))
  | inr f ↦ f
]
  where
    different : k ≢ j
    different e = let u : bytes_eq k j ≡ true = ap (bytes_eq k) (sym e) ∙ bytes_eq_refl k in cc

pub find-put :
    (m : Options) (k v j : Bytes) → find (put m k v) j ≡ (if bytes_eq k j then some v else find m j)
unfolding put
find-put [] k v j = refl
find-put ((i, w) ∷ m) k v j = elim (Bool-cases (bytes_eq i k)) [
  | inl t ↦ rw (t, bytes_eq→eq i k t) (if-once (bytes_eq k j) (some v) (some w) (find m j))
  | inr f ↦
      rw (f, find-put m k v j)
        (if-swap (bytes_eq i j) (bytes_eq k j) (some w) (some v) (find m j) (not_both i k j f))
]

pub put-SameMap : (m m' : Options) (k v : Bytes) → SameMap m m' → SameMap (put m k v) (put m' k v)
put-SameMap m m' k v h j =
    find-put m k v j ∙ ap (λ x. if bytes_eq k j then some v else x) (h j) ∙ sym (find-put m' k v j)

pub put-put_ne :
    (m m' : Options) (k v j w : Bytes)
    → bytes_eq k j ≡ false
    → SameMap m m'
    → SameMap (put (put m k v) j w) (put (put m' j w) k v)
put-put_ne m m' k v j w ne h i =
    find-put (put m k v) j w i
    ∙ ap (λ x. if bytes_eq j i then some w else x) (find-put m k v i)
    ∙ sym (if-swap (bytes_eq k i) (bytes_eq j i) (some v) (some w) (find m i) (not_both k j i ne))
    ∙ ap (λ x. if bytes_eq k i then some v else if bytes_eq j i then some w else x) (h i)
    ∙ ap (λ x. if bytes_eq k i then some v else x) (sym (find-put m' j w i))
    ∙ sym (find-put (put m' j w) k v i)

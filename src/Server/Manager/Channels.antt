-- ===== src/Server/Manager/Channels.antt =====
-- The map from addresses to channels, and the list of the channels.
use native.Mathlib.Decide.{ℕ_discrete}
use trivialt.Prelude.{
  ℕ, zero, suc, ◌≤◌, ◌<◌, [], ◌∷◌, ◌++◌, List, none, some, length, set, get_elem?, ◌≡◌, ◌≢◌, refl,
  sym, ap, ◌∙◌, arith,
}
use trivialt.Prelude.Bytes.{Bytes}
use trivialt.Server.Manager.{or_empty, lookup, insert, delete}

pub lookup-insert_self : (m : List (ℕ × ℕ)) (a ch : ℕ) → lookup (insert m a ch) a ≡ some ch
unfolding lookup insert
lookup-insert_self [] a ch = ground arith
lookup-insert_self ((b, old) ∷ m) a ch = ground (arith, lookup-insert_self m a ch)

pub lookup-insert_ne :
    (m : List (ℕ × ℕ)) (a b ch : ℕ) → a ≢ b → lookup (insert m a ch) b ≡ lookup m b
unfolding lookup insert
lookup-insert_ne [] a b ch h = ground arith
lookup-insert_ne ((c, old) ∷ m) a b ch h = ground (arith, lookup-insert_ne m a b ch h)

pub lookup-delete_self : (m : List (ℕ × ℕ)) (a : ℕ) → lookup (delete m a) a ≡ none
unfolding lookup delete
lookup-delete_self [] a = refl
lookup-delete_self ((c, old) ∷ m) a = ground (arith, lookup-delete_self m a)

pub lookup-delete_ne : (m : List (ℕ × ℕ)) (a b : ℕ) → a ≢ b → lookup (delete m a) b ≡ lookup m b
unfolding lookup delete
lookup-delete_ne [] a b h = refl
lookup-delete_ne ((c, old) ∷ m) a b h = ground (arith, lookup-delete_ne m a b h)

pub lookup-delete :
    (m : List (ℕ × ℕ)) (a b ch : ℕ) → lookup (delete m a) b ≡ some ch → lookup m b ≡ some ch
lookup-delete m a b ch h = elim (ℕ_discrete a b) [
  | yes e ↦ let gone = rw e at (lookup-delete_self m a) in cc
  | no ne ↦ sym (lookup-delete_ne m a b ne) ∙ h
]

pub queue-set_self :
    (cs : List (List Bytes)) (ch : ℕ) (q : List Bytes)
    → ch < length cs
    → get_elem? (set cs ch q) ch ≡ some q
queue-set_self [] ch q h = absurd (omega arith)
queue-set_self (c ∷ cs) zero q h = refl
queue-set_self (c ∷ cs) (suc ch) q h = queue-set_self cs ch q (omega arith)

pub set-beyond :
    (cs : List (List Bytes)) (ch : ℕ) (q : List Bytes) → length cs ≤ ch → set cs ch q ≡ cs
set-beyond [] ch q h = refl
set-beyond (c ∷ cs) zero q h = absurd (omega arith)
set-beyond (c ∷ cs) (suc ch) q h = ap (λ l. c ∷ l) (set-beyond cs ch q (omega arith))

pub queue-set_ne :
    (cs : List (List Bytes)) (ch i : ℕ) (q : List Bytes)
    → ch ≢ i
    → get_elem? (set cs ch q) i ≡ get_elem? cs i
queue-set_ne [] ch i q h = refl
queue-set_ne (c ∷ cs) zero zero q h = absurd (h refl)
queue-set_ne (c ∷ cs) zero (suc i) q h = refl
queue-set_ne (c ∷ cs) (suc ch) zero q h = refl
queue-set_ne (c ∷ cs) (suc ch) (suc i) q h = queue-set_ne cs ch i q (λ e. h (ap suc e))

pub get_elem?-append_lt :
    (cs : List (List Bytes)) (ch : ℕ) (q : List Bytes)
    → ch < length cs
    → get_elem? (cs ++ q ∷ []) ch ≡ get_elem? cs ch
get_elem?-append_lt [] ch q h = absurd (omega arith)
get_elem?-append_lt (c ∷ cs) zero q h = refl
get_elem?-append_lt (c ∷ cs) (suc ch) q h = get_elem?-append_lt cs ch q (omega arith)

pub get_elem?-beyond : (cs : List (List Bytes)) (ch : ℕ) → length cs ≤ ch → get_elem? cs ch ≡ none
get_elem?-beyond [] ch h = refl
get_elem?-beyond (c ∷ cs) zero h = absurd (omega arith)
get_elem?-beyond (c ∷ cs) (suc ch) h = get_elem?-beyond cs ch (omega arith)

pub get_elem?-append_beyond :
    (cs : List (List Bytes)) (ch : ℕ)
    → length cs ≤ ch
    → or_empty (get_elem? (cs ++ [] ∷ []) ch) ≡ []
get_elem?-append_beyond [] zero h = refl
get_elem?-append_beyond [] (suc ch) h = refl
get_elem?-append_beyond (c ∷ cs) zero h = absurd (omega arith)
get_elem?-append_beyond (c ∷ cs) (suc ch) h = get_elem?-append_beyond cs ch (omega arith)

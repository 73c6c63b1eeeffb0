-- ===== src/Conn/Negotiate/Agree.antt =====
-- Both sides of a negotiation end with the same numbers: the server applies the options of a
-- request, and the client the map that the server acknowledges.
use trivialt.Prelude.{[], ◌∷◌, append-nil, true, ◌≡◌, refl, sym, ap, ◌∙◌, subst, inl}
use trivialt.Datagram.{Options}
use trivialt.Datagram.Read.Pairs.{AreDistinct}
use trivialt.Conn.{Conn}
use trivialt.Conn.Negotiate.{Parsed, parsed, refused, apply_option, apply_options}
use trivialt.Conn.Negotiate.Follow.{Agrees, FitsFile, Fresh, Sized, Follows, Step, step}
use trivialt.Conn.Negotiate.Order.{and_then, apply_options-eq-and_then}

conn-eq : {c d : Conn} {a b : Options} → parsed c a ≡ parsed d b → c ≡ d
conn-eq h = ap (λ r. elim r as (λ _. Conn) [ parsed x y ↦ x | refused x y ↦ x ]) h

ack-eq : {c d : Conn} {a b : Options} → parsed c a ≡ parsed d b → a ≡ b
ack-eq h = ap (λ r. elim r as (λ _. Options) [ parsed x y ↦ y | refused x y ↦ [] ]) h

-- The loop of the client over what the server's loop acknowledges.
client_loop :
    (m : Options) (c s d : Conn) (a ack : Options)
    → AreDistinct m
    → Fresh m a
    → Sized s.tsize m
    → Follows c s a
    → apply_options s a m ≡ parsed d ack
    → (e : Conn) × (b : Options) × (apply_options c [] ack ≡ parsed e b) × Agrees d e
unfolding apply_options
client_loop [] c s d a ack distinct fresh sized (e, b, agrees, leads) h =
    let same : record s { options_parsed = true } ≡ d = conn-eq h in
    let map : a ≡ ack = ack-eq h in
    (
      record e { options_parsed = true },
      b,
      ap (apply_options c []) (sym map ∙ sym (append-nil a)) ∙ leads [],
      subst (λ x. Agrees x e) same agrees,
    )
client_loop ((k, v) ∷ m) c s d a ack distinct fresh sized follows h =
    by_result (apply_option s a k v) refl
      (step c m k v s a distinct.0 fresh.0 fresh.1 sized follows)
      (λ s' a'. client_loop m c s' d a' ack distinct.1)
  where
    by_result :
        (r : Parsed)
        → apply_option s a k v ≡ r
        → Step c m r
        → ((s' : Conn) (a' : Options)
            → Fresh m a'
            → Sized s'.tsize m
            → Follows c s' a'
            → apply_options s' a' m ≡ parsed d ack
            → (e : Conn) × (b : Options) × (apply_options c [] ack ≡ parsed e b) × Agrees d e)
        → (e : Conn) × (b : Options) × (apply_options c [] ack ≡ parsed e b) × Agrees d e
    by_result (refused x y) p t ih =
        let q : parsed d ack ≡ refused x y =
          sym h
          ∙ apply_options-eq-and_then s a k v m
          ∙ ap (λ r. and_then r (λ d a. apply_options d a m)) p in
        cc
    by_result (parsed s' a') p (follows', fresh', sized') ih = ih s' a' fresh' sized' follows' (
        sym (ap (λ r. and_then r (λ d a. apply_options d a m)) p)
        ∙ sym (apply_options-eq-and_then s a k v m)
        ∙ h)

-- A server that accepts the options of a request, a map with distinct names, and a client that
-- starts with the server's block size, timeout and window size: the client accepts whatever the
-- server acknowledges, and the two then have the same block size, the same timeout and the same
-- window size. The size of the server's file, if it has one, is not negative and fits 63 bits.
pub apply_options-Agrees :
    (m : Options) (s c d : Conn) (ack : Options)
    → AreDistinct m
    → FitsFile s.tsize
    → Agrees s c
    → apply_options s [] m ≡ parsed d ack
    → (e : Conn) × (b : Options) × (apply_options c [] ack ≡ parsed e b) × Agrees d e
apply_options-Agrees m s c d ack distinct fits agrees h =
    client_loop m c s d [] ack distinct (all_new m) (inl fits) (c, [], agrees, λ l. refl) h
  where
    all_new : (m : Options) → Fresh m []
    all_new [] = tt
    all_new (o ∷ m) = (refl, all_new m)

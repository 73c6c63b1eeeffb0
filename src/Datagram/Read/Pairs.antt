-- ===== src/Datagram/Read/Pairs.antt =====
-- NUL-terminated pairs of texts: the payload of OACK and, with the file name and the mode as its
-- first pair, of RRQ and WRQ.
use trivialt.Prelude.{
  ◌*◌, [], ◌∷◌, ◌++◌, List, ret, ◌≡◌, refl, ap, ◌∙◌, sym, arith, length, All, false, append_assoc,
  append-nil,
}
use trivialt.Prelude.Bytes.{
  Bytes, IsText, split, split-text, split-text_end, count_byte, count_byte-append, count_byte-text,
  bytes_eq,
}
use trivialt.Datagram.{Options}
use trivialt.Datagram.Write.Wire.{options_wire}
use trivialt.Datagram.Read.{put, read_pairs}

abbrev pub AreTexts : Options → Type 0
AreTexts = All (λ e. IsText e.0 × IsText e.1)

-- `k` is no key of the map.
abbrev pub IsFresh : Bytes → Options → Type 0
IsFresh k = All (λ e. bytes_eq e.0 k ≡ false)

-- No key stands twice, as in every Go map.
abbrev pub AreDistinct : Options → Type 0
AreDistinct [] = Unit
AreDistinct ((k, v) ∷ m) = All (λ e. bytes_eq k e.0 ≡ false) m × AreDistinct m

-- The payload of the pairs `(k, v) ∷ m` without its last NUL, and the pieces it splits into.
abbrev pub text_of : Bytes → Bytes → Options → Bytes
text_of k v [] = k ++ 0 ∷ v
text_of k v ((j, w) ∷ m) = k ++ 0 ∷ (v ++ 0 ∷ text_of j w m)

abbrev pub pieces : Options → List Bytes
pieces [] = []
pieces ((k, v) ∷ m) = k ∷ v ∷ pieces m

pub options_wire-text_of :
    (k v : Bytes) (m : Options) → options_wire ((k, v) ∷ m) ≡ text_of k v m ++ 0 ∷ []
options_wire-text_of k v [] = sym (append_assoc k (0 ∷ v) (0 ∷ []))
options_wire-text_of k v ((j, w) ∷ m) =
    rw (append_assoc, append_assoc) (ap (λ t. k ++ 0 ∷ (v ++ 0 ∷ t)) (options_wire-text_of j w m))

pub split-text_of :
    (k v : Bytes) (m : Options)
    → AreTexts ((k, v) ∷ m)
    → split (text_of k v m) 0 ≡ pieces ((k, v) ∷ m)
split-text_of k v [] h = split-text k v h.0.0 ∙ ap (λ t. k ∷ t) (split-text_end v h.0.1)
split-text_of k v ((j, w) ∷ m) h =
    split-text k (v ++ 0 ∷ text_of j w m) h.0.0
    ∙ ap (λ t. k ∷ t)
        (split-text v (text_of j w m) h.0.1 ∙ ap (λ t. v ∷ t) (split-text_of j w m h.1))

pub count_byte-options_wire :
    (m : Options) → AreTexts m → count_byte (options_wire m) 0 ≡ 2 * length m
count_byte-options_wire [] h = omega arith
count_byte-options_wire ((k, v) ∷ m) h =
    rw (count_byte-append k, count_byte-append v, count_byte-text k h.0.0, count_byte-text v h.0.1)
      (omega (arith, count_byte-options_wire m h.1))

put_fresh : (m : Options) (k v : Bytes) → IsFresh k m → put m k v ≡ m ++ (k, v) ∷ []
unfolding put
put_fresh [] k v h = refl
put_fresh ((j, w) ∷ m) k v h = rw h.0 (ap (λ t. (j, w) ∷ t) (put_fresh m k v h.1))

-- A key of `m` is fresh in what was read before it.
abbrev AreFresh : Options → Options → Type 0
AreFresh [] acc = Unit
AreFresh ((k, v) ∷ m) acc = IsFresh k acc × AreFresh m acc

IsFresh-append :
    (k j w : Bytes) (acc : Options)
    → IsFresh k acc
    → bytes_eq j k ≡ false
    → IsFresh k (acc ++ (j, w) ∷ [])
IsFresh-append k j w [] h e = (e, tt)
IsFresh-append k j w (x ∷ acc) h e = (h.0, IsFresh-append k j w acc h.1 e)

AreFresh-append :
    (m acc : Options) (j w : Bytes)
    → AreFresh m acc
    → All (λ e. bytes_eq j e.0 ≡ false) m
    → AreFresh m (acc ++ (j, w) ∷ [])
AreFresh-append [] acc j w h e = tt
AreFresh-append ((k, v) ∷ m) acc j w h e =
    (IsFresh-append k j w acc h.0 e.0, AreFresh-append m acc j w h.1 e.1)

AreFresh-nil : (m : Options) → AreFresh m []
AreFresh-nil [] = tt
AreFresh-nil (e ∷ m) = (tt, AreFresh-nil m)

read_pairs-append :
    (m acc : Options) → AreDistinct m → AreFresh m acc → read_pairs acc (pieces m) ≡ ret (acc ++ m)
unfolding read_pairs
read_pairs-append [] acc h f = rw append-nil
read_pairs-append ((k, v) ∷ m) acc h f = rw (put_fresh acc k v f.0) (
    read_pairs-append m (acc ++ (k, v) ∷ []) h.1 (AreFresh-append m acc k v f.1 h.0)
    ∙ ap ret (append_assoc acc ((k, v) ∷ []) m))

-- A map with distinct keys is read back entry for entry.
pub read_pairs-pieces : (m : Options) → AreDistinct m → read_pairs [] (pieces m) ≡ ret m
read_pairs-pieces m h = read_pairs-append m [] h (AreFresh-nil m)

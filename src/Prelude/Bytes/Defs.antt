-- ===== src/Prelude/Bytes/Defs.antt =====
-- Byte strings: a `[]byte` or a `string` is the list of its bytes.
use Prim.Native.Nat.{ℕ, zero, suc, ◌+◌, ◌-◌, ◌*◌, ◌/◌, ◌%◌, ◌<◌}
use Prim.Native.Char.{code}
use Prim.Native.String.{String}
use mathlib.Core.Bool.{Bool, true, false, ◌&&◌}
use mathlib.Core.List.{List, [], ◌∷◌}
use mathlib.Core.Option
use mathlib.Core.Option.{Option, none, some}
use trivialt.Prelude.Tests.{leb, ◌==◌, if◌then◌else◌}
use trivialt.Prelude.Lists.{length, take, drop}
use trivialt.Prelude.Call.{Go, ret, panic, ◌>>◌, check}

abbrev pub Bytes : Type 0
Bytes = List ℕ

abbrev pub IsByte : ℕ → Type 0
IsByte b = b < 256

-- The bytes of an ASCII literal.
abbrev pub codes : String → Bytes
codes String.[] = []
codes (String.◌∷◌ c s) = code c ∷ codes s

abbrev pub bytes_eq : Bytes → Bytes → Bool
bytes_eq [] [] = true
bytes_eq [] (y ∷ ys) = false
bytes_eq (x ∷ xs) [] = false
bytes_eq (x ∷ xs) (y ∷ ys) = x == y && bytes_eq xs ys

-- `bytes.IndexByte(s, c)`; `none` is its -1.
unfoldable pub index_byte : Bytes → ℕ → Option ℕ
index_byte [] c = none
index_byte (x ∷ xs) c = if x == c then some 0 else Option.map suc (index_byte xs c)

-- `bytes.Count(s, []byte{c})`
abbrev pub count_byte : Bytes → ℕ → ℕ
count_byte [] c = 0
count_byte (x ∷ xs) c = if x == c then suc (count_byte xs c) else count_byte xs c

abbrev pub cons_head : ℕ → List Bytes → List Bytes
cons_head x [] = (x ∷ []) ∷ []
cons_head x (p ∷ ps) = (x ∷ p) ∷ ps

-- `bytes.Split(s, []byte{c})`
abbrev pub split : Bytes → ℕ → List Bytes
split [] c = [] ∷ []
split (x ∷ xs) c = if x == c then [] ∷ split xs c else cons_head x (split xs c)

-- `s[lo:hi]`
unfoldable pub slice : Bytes → ℕ → ℕ → Go Bytes
slice s lo hi = do check (leb lo hi && leb hi (length s)); ret (take (hi - lo) (drop lo s))

-- `s[i]`
unfoldable pub at_index : Bytes → ℕ → Go ℕ
at_index [] i = panic
at_index (x ∷ xs) zero = ret x
at_index (x ∷ xs) (suc i) = at_index xs i

-- `binary.BigEndian.PutUint16` writes these two bytes, and `Uint16` reads them.
abbrev pub put_uint16 : ℕ → Bytes
put_uint16 i = (i / 256 % 256) ∷ (i % 256) ∷ []

unfoldable pub uint16 : Bytes → Go ℕ
uint16 (a ∷ b ∷ rest) = ret (a * 256 + b)
uint16 _ = panic

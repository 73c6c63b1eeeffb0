-- ===== src/Strconv.antt =====
-- What the source uses of Go's `strconv`: decimal numbers as text. Callers look only at whether
-- there is an error, so an error is `none`.
pub mod Laws
use trivialt.Prelude.{
  ℕ, zero, suc, ◌+◌, ◌-◌, ◌*◌, ◌/◌, ◌%◌, ◌^◌, [], ◌∷◌, Option, none, some, Bool, true, false, ltb,
  leb, ◌==◌, ◌&&◌, if◌then◌else◌,
}
use trivialt.Prelude.Bytes.{Bytes}
use trivialt.Prelude.Int.{ℤ, pos, negsuc}

-- The decimal digits of `n` in front of `acc`.
unfoldable pub digits : ℕ → ℕ → Bytes → Bytes
digits zero n acc = acc
digits (suc f) n acc =
    let acc' = (b'0' + n % 10) ∷ acc in
    let rest = digits f (n / 10) acc' in if n / 10 == 0 then acc' else rest

-- A number has at most as many digits as its value, or one.
unfoldable pub format_uint : ℕ → Bytes
unfolding digits
format_uint n = digits (suc n) n []

-- `strconv.FormatInt(i, 10)`, `strconv.Itoa` and `fmt.Sprint` of an integer.
unfoldable pub format_int : ℤ → Bytes
unfolding format_uint
format_int (pos n) = format_uint n
format_int (negsuc n) = b'-' ∷ format_uint (suc n)

abbrev pub is_digit : ℕ → Bool
is_digit c = leb b'0' c && leb c b'9'

-- The loop of `ParseUint` over the rest of the text, for values up to `max`.
unfoldable pub parse_digits : ℕ → ℕ → Bytes → Option ℕ
parse_digits max n [] = some n
parse_digits max n (c ∷ s) =
    let n' = n * 10 + (c - b'0') in
    let rest = parse_digits max n' s in
    if is_digit c then if ltb max n' then none else rest else none

-- `strconv.ParseUint(s, 10, bits)` with `max` the largest value of that many bits.
unfoldable pub parse_uint : ℕ → Bytes → Option ℕ
unfolding parse_digits
parse_uint max [] = none
parse_uint max (c ∷ s) = parse_digits max 0 (c ∷ s)

abbrev pub max_uint8 : ℕ
max_uint8 = 2 ^ 8 - 1

abbrev pub max_uint16 : ℕ
max_uint16 = 2 ^ 16 - 1

abbrev pub max_uint64 : ℕ
max_uint64 = 2 ^ 64 - 1

abbrev signed : Bool → Option ℕ → Option ℤ
signed neg none = none
signed false (some n) = if leb (2 ^ 63) n then none else some (pos n)
signed true (some zero) = some (pos 0)
signed true (some (suc n)) = if ltb (2 ^ 63) (suc n) then none else some (negsuc n)

-- `strconv.ParseInt(s, 10, 64)`, and `strconv.Atoi`, whose `int` has 64 bits.
unfoldable pub parse_int : Bytes → Option ℤ
unfolding parse_uint
parse_int [] = none
parse_int (c ∷ s) =
    if c == b'+'
    then signed false (parse_uint max_uint64 s)
    else if c == b'-'
    then signed true (parse_uint max_uint64 s)
    else signed false (parse_uint max_uint64 (c ∷ s))

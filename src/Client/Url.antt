-- ===== src/Client/Url.antt =====
-- `parseURL` and `isNumeric` of client.go.
pub mod Accepts
use trivialt.Prelude.{
  ℕ, [], ◌∷◌, ◌++◌, List, Option, none, some, Bool, true, false, ◌==◌, if◌then◌else◌,
}
use trivialt.Prelude.Bytes.{Bytes, codes, split}
use trivialt.Strconv.{parse_int}
use trivialt.Errors.{Sentinel, invalid_url, invalid_host_ip, invalid_file}

-- `strings.TrimPrefix(s, prefix)`: `none` where `prefix` does not begin `s`.
unfoldable pub strip : Bytes → Bytes → Option Bytes
strip [] s = some s
strip (x ∷ prefix) [] = none
strip (x ∷ prefix) (y ∷ s) = let rest = strip prefix s in if x == y then rest else none

unfoldable pub trim_prefix : Bytes → Bytes → Bytes
unfolding strip
trim_prefix s prefix = elim (strip prefix s) [ none ↦ s | some rest ↦ rest ]

-- `strings.SplitN(s, c, 2)`: the parts, or `none` where it has one part only.
unfoldable pub split_once : Bytes → ℕ → Option (Bytes × Bytes)
split_once [] c = none
split_once (x ∷ s) c =
    let rest = split_once s c in
    if x == c then some ([], s) else elim rest [ none ↦ none | some (a, b) ↦ some (x ∷ a, b) ]

pub record ParsedUrl : Type 0 where
  pub host : Bytes
  pub file : Bytes

pub data UrlResult : Type 0 where
  url_ok : ParsedUrl → UrlResult
  url_err : Sentinel → UrlResult

-- `isNumeric`
unfoldable pub is_numeric : Bytes → Bool
is_numeric s = elim (parse_int s) [ none ↦ false | some n ↦ true ]

abbrev is_empty : Bytes → Bool
is_empty [] = true
is_empty (c ∷ s) = false

-- `fmt.Sprintf("%s:%d", host, defaultPort)`
abbrev with_port : Bytes → Bytes
with_port host = host ++ codes ":69"

-- The checks on the parts of the host; `strings.Split` gives at least one.
unfoldable pub check_host : Bytes → List Bytes → Bytes → UrlResult
unfolding is_numeric
check_host host [] file = url_err invalid_host_ip
check_host host (name ∷ []) file =
    if is_numeric name
    then url_err invalid_host_ip
    else url_ok (record { host = with_port host; file = file })
check_host host (name ∷ port ∷ []) file =
    if is_numeric name
    then url_err invalid_host_ip
    else if is_empty name
    then url_err invalid_host_ip
    else if is_numeric port
    then url_ok (record { host = host; file = file })
    else url_err invalid_host_ip
check_host host (name ∷ port ∷ more ∷ rest) file = url_err invalid_host_ip

unfoldable pub check_parts : Option (Bytes × Bytes) → UrlResult
unfolding check_host
check_parts none = url_err invalid_url
check_parts (some (host, file)) =
    if is_empty host
    then url_err invalid_host_ip
    else if is_empty file
    then url_err invalid_file
    else check_host host (split host b':') file

-- `parseURL`
unfoldable pub parse_url : Bytes → UrlResult
unfolding check_parts trim_prefix split_once
parse_url url = check_parts (split_once (trim_prefix url (codes "tftp://")) b'/')

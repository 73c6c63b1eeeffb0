-- ===== src/Client/Url/Accepts.antt =====
-- What a URL that `parseURL` accepts looks like.
use trivialt.Prelude.{
  ℕ, suc, [], ◌∷◌, ◌++◌, List, Option, none, some, ◌==◌, length, ◌≡◌, ◌≢◌, ◌⊎◌, inl, inr, refl, sym,
  ap, ◌∙◌, arith, Bool-cases,
}
use trivialt.Prelude.Bytes.{Bytes, codes, split, count_byte, length-split, count_byte-append}
use trivialt.Client.Url.{
  ParsedUrl, url_ok, is_numeric, is_empty, with_port, trim_prefix, split_once, check_host,
  check_parts, parse_url,
}

split_once-append :
    (s : Bytes) (c : ℕ) (a b : Bytes) → split_once s c ≡ some (a, b) → s ≡ a ++ c ∷ b
unfolding split_once
split_once-append [] c a b h = cc
split_once-append (x ∷ s) c a b h = elim (Bool-cases (x == c)) [
  | inl t ↦
      let same : x ≡ c = ground arith in let cut : some ([], s) ≡ some (a, b) = rw t at h in cc
  | inr f ↦ later (split_once s c) refl (rw f at h) (split_once-append s c)
]
  where
    later :
        (o : Option (Bytes × Bytes))
        → split_once s c ≡ o
        → ◌≡◌ {A = Option (Bytes × Bytes)}
            (elim o [ none ↦ none | some (a', b') ↦ some (x ∷ a', b') ])
            (some (a, b))
        → ((a' b' : Bytes) → split_once s c ≡ some (a', b') → s ≡ a' ++ c ∷ b')
        → x ∷ s ≡ a ++ c ∷ b
    later none e k rest = cc
    later (some (a', b')) e k rest = let tail = rest a' b' e in cc

-- The host is kept as it is, or gets the default port.
abbrev IsHost : Bytes → Bytes → Type 0
IsHost host given = (host ≡ given) ⊎ (host ≡ given ++ codes ":69")

check_host-ok :
    (host : Bytes) (ps : List Bytes) (file : Bytes) (p : ParsedUrl)
    → length ps ≡ suc (count_byte host b':')
    → check_host host ps file ≡ url_ok p
    → (count_byte p.host b':' ≡ 1) × (p.file ≡ file) × IsHost p.host host
unfolding check_host
check_host-ok host [] file p n h = cc
check_host-ok host (name ∷ []) file p n h = elim (Bool-cases (is_numeric name)) [
  | inl t ↦ let bad = rw t at h in cc
  | inr f ↦
      let good : url_ok (record { host = with_port host; file = file }) ≡ url_ok p = rw f at h in
      let same : record { host = with_port host; file = file } ≡ p = cc in
      let none_in : count_byte host b':' ≡ 0 = omega arith in
      (
        ap (λ (q : ParsedUrl). count_byte q.host b':') (sym same)
            ∙ count_byte-append host (codes ":69") b':'
            ∙ rw none_in refl,
        ap (λ (q : ParsedUrl). q.file) (sym same),
        inr (ap (λ (q : ParsedUrl). q.host) (sym same)),
      )
]
check_host-ok host (name ∷ port ∷ []) file p n h = elim (Bool-cases (is_numeric name)) [
  | inl t ↦ let bad = rw t at h in cc
  | inr f ↦ elim (Bool-cases (is_empty name)) [
    | inl t ↦ let bad = rw (f, t) at h in cc
    | inr g ↦ elim (Bool-cases (is_numeric port)) [
      | inr k ↦ let bad = rw (f, g, k) at h in cc
      | inl t ↦
          let good : url_ok (record { host = host; file = file }) ≡ url_ok p = rw (f, g, t) at h in
          let same : record { host = host; file = file } ≡ p = cc in
          let one : count_byte host b':' ≡ 1 = omega arith in
          (
            ap (λ (q : ParsedUrl). count_byte q.host b':') (sym same) ∙ one,
            ap (λ (q : ParsedUrl). q.file) (sym same),
            inl (ap (λ (q : ParsedUrl). q.host) (sym same)),
          )
    ]
  ]
]
check_host-ok host (name ∷ port ∷ more ∷ rest) file p n h = cc

-- The parts of a URL that is accepted.
abbrev pub IsAccepted : Bytes → ParsedUrl → Type 0
IsAccepted rest p =
    (given : Bytes) × (rest ≡ given ++ b'/' ∷ p.file)
    × (given ≢ [])
    × (p.file ≢ [])
    × (count_byte p.host b':' ≡ 1)
    × IsHost p.host given

check_parts-ok :
    (rest : Bytes) (o : Option (Bytes × Bytes)) (p : ParsedUrl)
    → split_once rest b'/' ≡ o
    → check_parts o ≡ url_ok p
    → IsAccepted rest p
unfolding check_parts
check_parts-ok rest none p e h = cc
check_parts-ok rest (some ([], file)) p e h = cc
check_parts-ok rest (some (c ∷ host, [])) p e h = cc
check_parts-ok rest (some (c ∷ host, d ∷ file)) p e h =
    let (colon, same, kept) =
      check_host-ok (c ∷ host) (split (c ∷ host) b':') (d ∷ file) p (length-split (c ∷ host) b':')
        h in
    (
      c ∷ host,
      rw same (split_once-append rest b'/' (c ∷ host) (d ∷ file) e),
      (λ k. cc),
      (λ k. cc),
      colon,
      kept,
    )

-- A URL that `parseURL` accepts is, behind `tftp://` if it has that, a host, a slash and a file
-- name, neither of them empty; the file is the name, and the host is the given one with exactly
-- one colon, or the given one with the default port behind it.
pub parse_url-IsAccepted :
    (url : Bytes) (p : ParsedUrl)
    → parse_url url ≡ url_ok p
    → IsAccepted (trim_prefix url (codes "tftp://")) p
unfolding parse_url
parse_url-IsAccepted url p h =
    check_parts-ok (trim_prefix url (codes "tftp://"))
      (split_once (trim_prefix url (codes "tftp://")) b'/') p refl h

-- ===== src/Ics/Text.antt =====
-- internal/ics/ics.go: reading escaped text, against the escapes of RFC 5545.
use tidy_dav.Prelude.{
  ℕ, ◌≡◌, refl, Str, false, [], ◌∷◌, ◌++◌, eqb, nat_eq, contains, arith, if◌then◌else◌, inl, inr,
  Bool-cases,
}
use tidy_dav.Ics.{unescape_byte, unescape_bytes, unescape_text}

-- The escape of a byte, section 3.3.11 of the RFC.
abbrev escape_byte : ℕ → Str
escape_byte c =
    if eqb c 10
    then b'\\' ∷ b'n' ∷ []
    else if eqb c b'\\'
    then b'\\' ∷ c ∷ []
    else if eqb c b','
    then b'\\' ∷ c ∷ []
    else if eqb c b';'
    then b'\\' ∷ c ∷ []
    else c ∷ []

abbrev pub rfc_escape : Str → Str
rfc_escape [] = []
rfc_escape (c ∷ s) = escape_byte c ++ rfc_escape s

-- A text that no backslash stands in is read as it is.
unescape_bytes-plain : (v : Str) → contains v b'\\' ≡ false → unescape_bytes v ≡ v
unfolding unescape_bytes
unescape_bytes-plain [] h = refl
unescape_bytes-plain (c ∷ []) h = refl
unescape_bytes-plain (c ∷ n ∷ s) h = ground (arith, unescape_bytes-plain (n ∷ s))

unescape_text-bytes : (v : Str) → unescape_text v ≡ unescape_bytes v
unfolding unescape_text
unescape_text-bytes v = elim (Bool-cases (contains v b'\\')) [
  | inl t ↦ rw t
  | inr f ↦ rw (f, unescape_bytes-plain v f)
]

unescape_bytes-escape_byte :
    (c : ℕ) (rest : Str) → unescape_bytes (escape_byte c ++ rest) ≡ c ∷ unescape_bytes rest
unfolding unescape_bytes unescape_byte
unescape_bytes-escape_byte c [] = ground arith
unescape_bytes-escape_byte c (d ∷ rest) = ground arith

unescape_bytes-rfc_escape : (s : Str) → unescape_bytes (rfc_escape s) ≡ s
unfolding unescape_bytes
unescape_bytes-rfc_escape [] = refl
unescape_bytes-rfc_escape (c ∷ s) =
    rw (unescape_bytes-escape_byte c (rfc_escape s), unescape_bytes-rfc_escape s)

-- Text that has been escaped as RFC 5545 says is read back as it was, whatever its bytes are.
pub unescape_text-rfc_escape : (s : Str) → unescape_text (rfc_escape s) ≡ s
unescape_text-rfc_escape s = rw (unescape_text-bytes (rfc_escape s), unescape_bytes-rfc_escape s)

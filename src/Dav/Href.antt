-- ===== src/Dav/Href.antt =====
-- internal/dav/mirror.go, sync.go: body fingerprints, comparable hrefs, the index of a listing and
-- the hrefs that a destination is given.
pub mod Safe
mod Tests
use tidy_dav.Prelude.{
  ℕ, zero, suc, ◌+◌, ◌-◌, ◌/◌, ◌%◌, Str, str, Bool, ◌&&◌, ◌||◌, Option, none, some, List, [], ◌∷◌,
  ◌++◌, eqb, leb, ltb, length, take, is_empty, list_eq, nat_eq, if◌then◌else◌,
}
use tidy_dav.Prelude.Dict
use tidy_dav.Prelude.Dict.{Dict}
use tidy_dav.Dav.Types.{ItemMeta, Env}

-- A digit of `hex.EncodeToString`.
unfoldable pub hex_digit : ℕ → ℕ
hex_digit n = if ltb n 10 then b'0' + n else b'a' + (n - 10)

unfoldable pub hex_encode : Str → Str
hex_encode [] = []
hex_encode (b ∷ bs) = hex_digit (b / 16) ∷ hex_digit (b % 16) ∷ hex_encode bs

unfoldable pub body_hash : Env → Str → Str
unfolding hex_encode hex_digit
body_hash env body = hex_encode (take 16 (env.sha256 body))

-- `strings.TrimRight(s, "/")`
trim_right_slash : Str → Str
trim_right_slash [] = []
trim_right_slash (c ∷ s) =
    let rest = trim_right_slash s in if eqb c b'/' && is_empty rest then [] else c ∷ rest

unescaped : Env → Str → Str
unescaped env h = elim (env.path_unescape h) [ none ↦ h | some dec ↦ dec ]

-- The path of the URL if it parses to one that is not empty, and else the unescaped text.
decoded : Env → Str → Str
unfolding unescaped
decoded env h = elim (env.url_path h) [
  | none ↦ unescaped env h
  | some p ↦ if is_empty p then unescaped env h else p
]

unfoldable pub norm_href : Env → Str → Str
unfolding trim_right_slash decoded
norm_href env h =
    if is_empty h
    then str ""
    else let s = env.path_clean (decoded env h) in
      if ltb 1 (length s) then trim_right_slash s else s

abbrev pub Index : Type 0
Index = Dict Str ItemMeta

-- The first loop of `indexByHref`: raw hrefs, a later entry over an earlier one.
index_raw : List ItemMeta → Index → Index
index_raw [] idx = idx
index_raw (m ∷ ms) idx = index_raw ms (if is_empty m.href then idx else Dict.insert m.href m idx)

-- The second loop: normalised hrefs, where no entry stands yet.
index_norm : Env → List ItemMeta → Index → Index
index_norm env [] idx = idx
index_norm env (m ∷ ms) idx =
    let n = norm_href env m.href in
    index_norm env ms (
      if is_empty n
      then idx
      else elim (Dict.lookup n idx) [ none ↦ Dict.insert n m idx | some _ ↦ idx ])

unfoldable pub index_by_href : Env → List ItemMeta → Index
unfolding index_raw index_norm
index_by_href env ms = index_norm env ms (index_raw ms [])

lookup_norm : Env → Index → Str → Option ItemMeta
lookup_norm env idx href =
    let n = norm_href env href in if is_empty n then none else Dict.lookup n idx

unfoldable pub lookup_meta : Env → Index → Str → Option ItemMeta
unfolding lookup_norm
lookup_meta env idx href =
    if is_empty href
    then none
    else elim (Dict.lookup href idx) [ some m ↦ some m | none ↦ lookup_norm env idx href ]

-- The runes that `destHref` keeps. A byte outside ASCII is part of a rune that it replaces.
unfoldable pub is_safe : ℕ → Bool
is_safe r =
    (leb b'a' r && leb r b'z')
    || (leb b'A' r && leb r b'Z')
    || (leb b'0' r && leb r b'9')
    || eqb r b'-'
    || eqb r b'_'
    || eqb r b'.'

between : ℕ → ℕ → ℕ → Bool
between lo hi b = leb lo b && leb b hi

-- The bytes that may follow the first byte of a rune, as `unicode/utf8` decodes it.
second_ok : ℕ → ℕ → Bool
unfolding between
second_ok c b =
    if eqb c 0xE0
    then between 0xA0 0xBF b
    else if eqb c 0xED
    then between 0x80 0x9F b
    else if eqb c 0xF0
    then between 0x90 0xBF b
    else if eqb c 0xF4
    then between 0x80 0x8F b
    else between 0x80 0xBF b

-- How many bytes after the first belong to its rune: none if the encoding is broken.
pub rune_tail : ℕ → Str → ℕ
unfolding second_ok
rune_tail c (b1 ∷ b2 ∷ b3 ∷ s) =
    if between 0xC2 0xDF c && second_ok c b1
    then 1
    else if between 0xE0 0xEF c && (second_ok c b1 && between 0x80 0xBF b2)
    then 2
    else if between 0xF0 0xF4 c
        && (second_ok c b1 && (between 0x80 0xBF b2 && between 0x80 0xBF b3))
    then 3
    else 0
rune_tail c (b1 ∷ b2 ∷ s) =
    if between 0xC2 0xDF c && second_ok c b1
    then 1
    else if between 0xE0 0xEF c && (second_ok c b1 && between 0x80 0xBF b2)
    then 2
    else 0
rune_tail c (b1 ∷ s) = if between 0xC2 0xDF c && second_ok c b1 then 1 else 0
rune_tail c [] = 0

-- `strings.Map` by the function of `destHref`; `skip` bytes of the current rune are left.
unfoldable pub safe_runes : ℕ → Str → Str
unfolding rune_tail is_safe
safe_runes skip [] = []
safe_runes (suc skip) (c ∷ s) = safe_runes skip s
safe_runes zero (c ∷ s) =
    (if is_safe c then c else b'-') ∷ safe_runes (if ltb c 0x80 then 0 else rune_tail c s) s

unfoldable pub dest_href : Str → Str → Str
unfolding safe_runes
dest_href uid suffix =
    let safe = safe_runes 0 uid in (if is_empty safe then str "item" else safe) ++ suffix

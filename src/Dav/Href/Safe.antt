-- ===== src/Dav/Href/Safe.antt =====
-- internal/dav/sync.go: which hrefs `destHref` makes.
use tidy_dav.Prelude.{
  ap, sym, ◌∙◌, ◌⊎◌, ◌≤◌, ◌≢◌, length, length-append, ℕ, zero, suc, ◌≡◌, refl, Str, str, Bool, true,
  false, [], ◌∷◌, ◌++◌, All, ltb, is_empty, arith, if◌then◌else◌,
}
use tidy_dav.Dav.Href.{is_safe, safe_runes, dest_href}

-- A letter or a digit of ASCII, `-`, `_` or `.`.
abbrev pub IsSafeByte : ℕ → Type 0
IsSafeByte c =
    ((b'a' ≤ c) × (c ≤ b'z'))
    ⊎ (((b'A' ≤ c) × (c ≤ b'Z'))
        ⊎ (((b'0' ≤ c) × (c ≤ b'9')) ⊎ ((c ≡ b'-') ⊎ ((c ≡ b'_') ⊎ (c ≡ b'.')))))

-- Only letters, digits, `-`, `_` and `.`.
abbrev pub IsSafe : Str → Type 0
IsSafe s = All IsSafeByte s

is_safe-IsSafeByte : (c : ℕ) → is_safe c ≡ true → IsSafeByte c
unfolding is_safe
is_safe-IsSafeByte c h = ground arith

IsSafeByte-is_safe : (c : ℕ) → IsSafeByte c → is_safe c ≡ true
unfolding is_safe
IsSafeByte-is_safe c h = ground arith

IsSafe-append : (xs ys : Str) → IsSafe xs → IsSafe ys → IsSafe (xs ++ ys)
IsSafe-append [] ys h k = k
IsSafe-append (x ∷ xs) ys (h, hs) k = (h, IsSafe-append xs ys hs k)

is_safe-if : (c : ℕ) (b : Bool) → is_safe c ≡ b → IsSafeByte (if b then c else b'-')
is_safe-if c true h = is_safe-IsSafeByte c h
is_safe-if c false h = ground arith

safe_runes-IsSafe : (skip : ℕ) (s : Str) → IsSafe (safe_runes skip s)
unfolding safe_runes
safe_runes-IsSafe skip [] = tt
safe_runes-IsSafe (suc skip) (c ∷ s) = safe_runes-IsSafe skip s
safe_runes-IsSafe zero (c ∷ s) = (is_safe-if c (is_safe c) refl, safe_runes-IsSafe _ s)

item-IsSafe : (s : Str) → IsSafe s → IsSafe (if is_empty s then str "item" else s)
item-IsSafe [] h = (ground arith, (ground arith, (ground arith, (ground arith, tt))))
item-IsSafe (c ∷ s) h = h

-- The href of any UID has only letters, digits, `-`, `_` and `.`, so no path separator, if that
-- holds of the suffix.
pub dest_href-IsSafe : (uid suffix : Str) → IsSafe suffix → IsSafe (dest_href uid suffix)
unfolding dest_href
dest_href-IsSafe uid suffix h =
    IsSafe-append _ suffix (item-IsSafe (safe_runes 0 uid) (safe_runes-IsSafe 0 uid)) h

is_safe-ascii : (c : ℕ) → IsSafeByte c → ltb c 128 ≡ true
is_safe-ascii c h = ground arith

safe_runes-same : (s : Str) → IsSafe s → safe_runes 0 s ≡ s
unfolding safe_runes
safe_runes-same [] h = refl
safe_runes-same (c ∷ s) (h, hs) =
    rw (IsSafeByte-is_safe c h, is_safe-ascii c h, safe_runes-same s hs) refl

dest_href-same :
    (uid suffix : Str) → is_empty uid ≡ false → IsSafe uid → dest_href uid suffix ≡ uid ++ suffix
unfolding dest_href
dest_href-same uid suffix filled h = rw (safe_runes-same uid h, filled) refl

longer-ne-same : (c : ℕ) (xs zs : Str) → zs ≢ (c ∷ xs) ++ zs
longer-ne-same c xs zs e =
    let same : length zs ≡ length ((c ∷ xs) ++ zs) = ap (λ s. length s) e in
    omega (arith, same, length-append (c ∷ xs) zs)

append_cancel : (xs ys zs : Str) → xs ++ zs ≡ ys ++ zs → xs ≡ ys
append_cancel [] [] zs e = refl
append_cancel [] (y ∷ ys) zs e = absurd (longer-ne-same y ys zs e)
append_cancel (x ∷ xs) [] zs e = absurd (longer-ne-same x xs zs (sym e))
append_cancel (x ∷ xs) (y ∷ ys) zs e =
    let tails : xs ++ zs ≡ ys ++ zs = cc in
    let heads : x ≡ y = cc in rw (heads, append_cancel xs ys zs tails) refl

-- Two UIDs that are not empty and have only letters, digits, `-`, `_` and `.` have the same href
-- only if they are the same UID.
pub dest_href-injective :
    (u v suffix : Str)
    → is_empty u ≡ false
    → is_empty v ≡ false
    → IsSafe u
    → IsSafe v
    → dest_href u suffix ≡ dest_href v suffix
    → u ≡ v
dest_href-injective u v suffix p q h k same =
    append_cancel u v suffix
      (sym (dest_href-same u suffix p h) ∙ same ∙ dest_href-same v suffix q k)

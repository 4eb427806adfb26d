-- ===== src/Ics/Tests.antt =====
-- internal/ics: folding a line of 80 octets, and a time zone with one change.
use tidy_dav.Prelude.{
  ℕ, zero, suc, ◌+◌, ◌-◌, ◌*◌, ◌/◌, ◌≡◌, refl, Str, str, Bool, true, not, ◌&&◌, ◌||◌, some, List,
  [], ◌∷◌, ◌++◌, ltb, eqb, length, arith, nat_eq, if◌then◌else◌,
}
use tidy_dav.Prelude.Int.{pos}
use tidy_dav.Prelude.Clock.{Time, second}
use tidy_dav.Ics.{unescape_text}
use tidy_dav.Ics.Fold.{
  fold_line, rune_start, start_at, unfold_lines, end_line, Fits, IsPlain, break_line,
}
use tidy_dav.Ics.Runes.{HasRunes, IsWhole, fold_line-IsFolded}
use tidy_dav.Ics.Vtimezone.{Zone, hour, bisect_transition, observance, observances, transitions}
use tidy_dav.Ics.Vtimezone.Scan.{IsListed, hour_changes, observances-IsListed}

-- Octet 75 is inside a character of two octets.
abbrev long : Str
long =
    str "0123456789012345678901234567890123456789012345678901234567890123456789abcd"
    ++ 0xc3 ∷ 0xa4 ∷ str "wxyz"

abbrev all_plain : Str → Bool
all_plain [] = true
all_plain (c ∷ s) = not (eqb c 13) && all_plain s

all_plain-IsPlain : (s : Str) → all_plain s ≡ true → IsPlain s
all_plain-IsPlain [] h = tt
all_plain-IsPlain (c ∷ s) h = (ground arith, all_plain-IsPlain s (ground arith))

-- No two bytes in a row are inside a character.
abbrev all_runes : Str → Bool
all_runes [] = true
all_runes (c ∷ []) = true
all_runes (c ∷ d ∷ s) = (rune_start c || rune_start d) && all_runes (d ∷ s)

pair_of : (s : Str) (i : ℕ) → all_runes s ≡ true → (start_at s i || start_at s (i + 1)) ≡ true
unfolding start_at
pair_of [] i h = refl
pair_of (c ∷ []) zero h = ground arith
pair_of (c ∷ []) (suc i) h = refl
pair_of (c ∷ d ∷ s) zero h = ground arith
pair_of (c ∷ d ∷ s) (suc i) h =
    let e : suc i + 1 ≡ suc (i + 1) = omega arith in rw e (pair_of (d ∷ s) i (ground arith))

all_runes-HasRunes : (s : Str) → all_runes s ≡ true → HasRunes s
all_runes-HasRunes s h i = ground (arith, pair_of s i h)

fold_line-long :
    fold_line long
    ≡ some (
        str "0123456789012345678901234567890123456789012345678901234567890123456789abcd"
        ++ break_line
        ++ 0xc3 ∷ 0xa4 ∷ str "wxyz"
        ++ end_line)
unfolding fold_line rune_start
fold_line-long = refl

fold_line-IsFolded_example :
    (out : Str) × (fold_line long ≡ some out)
    × (unfold_lines out ≡ long ++ end_line)
    × Fits 75 75 out
    × IsWhole out
unfolding rune_start
fold_line-IsFolded_example =
    fold_line-IsFolded long (all_plain-IsPlain long refl) (all_runes-HasRunes long refl)

unescaped : unescape_text (str "a\\, b\\nc\\x\\") ≡ str "a, b" ++ 10 ∷ str "c\\x\\"
unfolding unescape_text nat_eq
unescaped = refl

-- An hour later from the instant of 90 minutes on.
abbrev zone : Zone
zone = record {
  offset = λ t. if ltb t (5400 * second) then pos 3600 else pos 7200;
  is_dst = λ t. not (ltb t (5400 * second));
  abbreviation = λ t. str "T";
}

found :
    (observances zone (λ t. []) 0 (4 * hour))
    ≡ some (
        observance zone (λ t. []) 0 0 0
        ∷ observance zone (λ t. []) (5400 * second) (5399 * second) (5400 * second)
        ∷ [])
unfolding observances bisect_transition
found = refl

observances-IsListed_example :
    (ts : List Time) × (observances zone (λ t. []) 0 (4 * hour)
      ≡ some (observance zone (λ t. []) 0 0 0 ∷ transitions zone (λ t. []) ts))
    × IsListed zone 0 (4 * hour) ts
    × (length ts ≡ hour_changes zone ((4 * hour - 0) / hour) 0)
observances-IsListed_example = observances-IsListed zone (λ t. []) 0 (4 * hour) (omega arith)

-- ===== src/Ics/Runes.antt =====
-- internal/ics/ics.go: a fold stands between two characters of UTF-8.
use native.Mathlib.Nat.{add_assoc, add-zero}
use tidy_dav.Prelude.{
  ℕ, zero, suc, ◌+◌, ◌-◌, ◌≡◌, ◌≤◌, ◌<◌, refl, Str, true, ◌&&◌, ◌||◌, Option, some, [], ◌∷◌, ◌++◌,
  take, drop, length, ltb, eqb, arith, if◌then◌else◌, Bool-cases, inl, inr, subst,
}
use tidy_dav.Ics.Fold.{
  rune_start, start_at, cut_down, cut_down_bounds, break_line, end_line, before_rest, fold_from,
  fold_line, fold_line-Folds, unfold_lines, Fits, IsPlain, IsPlain-take, IsPlain-drop, length-drop,
}

-- Of four bytes in a row, one starts a character: so it is in valid UTF-8.
abbrev pub HasRunes : Str → Type 0
HasRunes s =
    (i : ℕ)
    → (start_at s i || (start_at s (i + 1) || (start_at s (i + 2) || start_at s (i + 3)))) ≡ true

-- The byte after each break starts a character.
abbrev pub IsWhole : Str → Type 0
IsWhole (c ∷ d ∷ e ∷ s) =
    if eqb c 13 && (eqb d 10 && eqb e 32)
    then (start_at s 0 ≡ true) × IsWhole s
    else IsWhole (d ∷ e ∷ s)
IsWhole s = Unit

start_at-drop : (n i : ℕ) (s : Str) → start_at (drop n s) i ≡ start_at s (n + i)
unfolding start_at
start_at-drop zero i s = let e : zero + i ≡ i = omega arith in rw e refl
start_at-drop (suc n) i [] = refl
start_at-drop (suc n) i (c ∷ s) =
    let e : suc n + i ≡ suc (n + i) = omega arith in rw e (start_at-drop n i s)

HasRunes-drop : (n : ℕ) (s : Str) → HasRunes s → HasRunes (drop n s)
HasRunes-drop n s h i =
    rw
      (
        start_at-drop n i s,
        start_at-drop n (i + 1) s,
        start_at-drop n (i + 2) s,
        start_at-drop n (i + 3) s,
        ← add_assoc n i 1,
        ← add_assoc n i 2,
        ← add_assoc n i 3,
      )
      (h (n + i))

cut_down-start :
    (line : Str) (m : ℕ)
    → HasRunes line
    → start_at line (cut_down line (suc (suc (suc (suc m))))) ≡ true
unfolding cut_down
cut_down-start line m h = ground (arith, h (m + 2))

IsWhole-end : (p : Str) → IsPlain p → IsWhole (p ++ end_line)
IsWhole-end [] h = tt
IsWhole-end (c ∷ []) h = ground arith
IsWhole-end (c ∷ d ∷ []) h = ground arith
IsWhole-end (c ∷ d ∷ e ∷ p) (h, hs) = ground (arith, IsWhole-end (d ∷ e ∷ p) hs)

IsWhole-break :
    (p out : Str)
    → IsPlain p
    → start_at out 0 ≡ true
    → IsWhole out
    → IsWhole (p ++ break_line ++ out)
IsWhole-break [] out h s w = (s, w)
IsWhole-break (c ∷ []) out h s w = ground arith
IsWhole-break (c ∷ d ∷ []) out h s w = ground arith
IsWhole-break (c ∷ d ∷ e ∷ p) out (h, hs) s w = ground (arith, IsWhole-break (d ∷ e ∷ p) out hs s w)

start_at-part :
    (n : ℕ) (line out : Str)
    → 0 < n
    → 0 < length line
    → start_at (take n line ++ break_line ++ out) 0 ≡ start_at line 0
unfolding start_at
start_at-part zero line out n l = absurd (omega arith)
start_at-part (suc n) [] out p l = absurd (omega arith)
start_at-part (suc n) (c ∷ line) out p l = refl

start_at-last : (line : Str) → start_at (line ++ end_line) 0 ≡ start_at line 0
unfolding start_at rune_start
start_at-last [] = refl
start_at-last (c ∷ line) = refl

abbrev Wholes : Str → Option Str → Type 0
Wholes line r = (out : Str) × (r ≡ some out) × IsWhole out × (start_at out 0 ≡ start_at line 0)

Wholes-last : (line : Str) → IsPlain line → Wholes line (some (line ++ end_line))
Wholes-last line h = (line ++ end_line, refl, IsWhole-end line h, start_at-last line)

Wholes-cut :
    (n : ℕ) (line : Str) (r : Option Str)
    → 0 < n
    → 0 < length line
    → IsPlain line
    → start_at line n ≡ true
    → Wholes (drop n line) r
    → Wholes line (before_rest (take n line) r)
Wholes-cut n line r pos some_line h start (out, e, w, s) = (
  take n line ++ break_line ++ out,
  rw e refl,
  IsWhole-break (take n line) out (IsPlain-take n line h) begins w,
  start_at-part n line out pos some_line,
)
  where
    begins : start_at out 0 ≡ true
    begins = rw (s, start_at-drop n 0 line, add-zero n) start

-- A cut in a room of five octets or more stands before a character.
cut-start : (line : Str) (m : ℕ) → HasRunes line → start_at line (cut_down line (m + 5 - 1)) ≡ true
cut-start line m h =
    let e : m + 5 - 1 ≡ suc (suc (suc (suc m))) = omega arith in rw e (cut_down-start line m h)

fold_from-Wholes :
    (fuel m : ℕ) (line : Str)
    → length line ≤ fuel
    → IsPlain line
    → HasRunes line
    → Wholes line (fold_from fuel (m + 5) line)
unfolding fold_from
fold_from-Wholes zero m line le h runes = elim (Bool-cases (ltb (m + 5) (length line))) [
  | inl t ↦ absurd (ground arith)
  | inr f ↦ rw f (Wholes-last line h)
]
fold_from-Wholes (suc fuel) m line le h runes = elim (Bool-cases (ltb (m + 5) (length line))) [
  | inl t ↦ rw t (
      Wholes-cut (cut_down line (m + 5 - 1)) line _ (cut_down_bounds line (m + 5 - 1)).0
        (ground arith) h (cut-start line m runes)
        (fold_from-Wholes fuel 69 (drop (cut_down line (m + 5 - 1)) line)
          (omega
            (arith, length-drop (cut_down line (m + 5 - 1)) line, cut_down_bounds line (m + 5 - 1)))
          (IsPlain-drop (cut_down line (m + 5 - 1)) line h)
          (HasRunes-drop (cut_down line (m + 5 - 1)) line runes)))
  | inr f ↦ rw f (Wholes-last line h)
]

fold_line-Wholes : (line : Str) → IsPlain line → HasRunes line → Wholes line (fold_line line)
unfolding fold_line
fold_line-Wholes line h runes = fold_from-Wholes (length line) 70 line (omega arith) h runes

-- Folding a line comes to an end with a text whose lines have no more than 75 octets, from which the
-- line and its line end are read back by taking the breaks out, and whose breaks stand before a
-- character of UTF-8 each, if the line has no carriage return and of any four of its bytes in a row
-- one starts a character.
pub fold_line-IsFolded :
    (line : Str)
    → IsPlain line
    → HasRunes line
    → (out : Str) × (fold_line line ≡ some out)
      × (unfold_lines out ≡ line ++ end_line)
      × Fits 75 75 out
      × IsWhole out
fold_line-IsFolded line h runes =
    let (out, e, u, f) = fold_line-Folds line h in
    let (out', e', w, _) = fold_line-Wholes line h runes in
    let same : out' ≡ out = cc in (out, e, u, f, subst IsWhole same w)

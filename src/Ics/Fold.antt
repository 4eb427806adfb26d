-- ===== src/Ics/Fold.antt =====
-- internal/ics/ics.go: folding a content line at 75 octets.
use mathlib.Core.List.{append_assoc}
use tidy_dav.Prelude.{
  ℕ, zero, suc, ◌-◌, ◌≡◌, ◌≤◌, ◌<◌, refl, Str, Bool, true, false, ◌&&◌, ◌||◌, Option, none, some,
  [], ◌∷◌, ◌++◌, take, drop, length, ltb, leb, eqb, arith, if◌then◌else◌, All, Bool-cases, inl, inr,
  take-append-drop,
}

-- `utf8.RuneStart`: whether a byte is not one of the form 10xxxxxx.
unfoldable pub rune_start : ℕ → Bool
rune_start b = ltb b 0x80 || leb 0xc0 b

-- Whether the byte at an index is the start of a rune; there is none past the end.
unfoldable pub start_at : Str → ℕ → Bool
unfolding rune_start
start_at [] i = true
start_at (c ∷ s) zero = rune_start c
start_at (c ∷ s) (suc i) = start_at s i

-- The inner loop: `cut > 1` moves down to the start of a rune. Its argument is the cut less one.
unfoldable pub cut_down : Str → ℕ → ℕ
unfolding start_at
cut_down line zero = 1
cut_down line (suc k) =
    let lower = cut_down line k in if start_at line (suc (suc k)) then suc (suc k) else lower

-- The bytes that a line goes on with: CR, LF and a space.
abbrev pub break_line : Str
break_line = 13 ∷ 10 ∷ 32 ∷ []

abbrev pub end_line : Str
end_line = 13 ∷ 10 ∷ []

-- What a line that is cut appends, and what the rest of it appends.
abbrev pub before_rest : Str → Option Str → Option Str
before_rest part none = none
before_rest part (some out) = some (part ++ break_line ++ out)

-- The outer loop, with the room of the line and fuel, which bounds the number of cuts: what is
-- appended to the buffer.
unfoldable pub fold_from : ℕ → ℕ → Str → Option Str
unfolding cut_down
fold_from zero room line = if ltb room (length line) then none else some (line ++ end_line)
fold_from (suc fuel) room line =
    let cut = cut_down line (room - 1) in
    let more = before_rest (take cut line) (fold_from fuel 74 (drop cut line)) in
    if ltb room (length line) then more else some (line ++ end_line)

-- `foldLine`: a cut takes a byte at least.
unfoldable pub fold_line : Str → Option Str
unfolding fold_from
fold_line line = fold_from (length line) 75 line

-- Taking the breaks out again.
unfoldable pub unfold_lines : Str → Str
unfold_lines (c ∷ d ∷ e ∷ s) =
    let broken = unfold_lines s in
    let kept = c ∷ unfold_lines (d ∷ e ∷ s) in
    if eqb c 13 && (eqb d 10 && eqb e 32) then broken else kept
unfold_lines s = s

-- No line between line ends is longer than the limit; the first has so many octets left.
abbrev pub Fits : ℕ → ℕ → Str → Type 0
Fits limit left [] = Unit
Fits limit left (c ∷ []) = 0 < left
Fits limit left (c ∷ d ∷ s) =
    if eqb c 13 && eqb d 10 then Fits limit limit s else (0 < left) × Fits limit (left - 1) (d ∷ s)

abbrev pub IsPlain : Str → Type 0
IsPlain = All (λ c. eqb c 13 ≡ false)

unfold_lines-end : (p : Str) → IsPlain p → unfold_lines (p ++ end_line) ≡ p ++ end_line
unfolding unfold_lines
unfold_lines-end [] h = refl
unfold_lines-end (c ∷ []) h = ground arith
unfold_lines-end (c ∷ d ∷ []) h = ground arith
unfold_lines-end (c ∷ d ∷ e ∷ p) (h, hs) = ground (arith, unfold_lines-end (d ∷ e ∷ p) hs)

unfold_lines-break :
    (p out : Str) → IsPlain p → unfold_lines (p ++ break_line ++ out) ≡ p ++ unfold_lines out
unfolding unfold_lines
unfold_lines-break [] out h = refl
unfold_lines-break (c ∷ []) out h = ground arith
unfold_lines-break (c ∷ d ∷ []) out h = ground arith
unfold_lines-break (c ∷ d ∷ e ∷ p) out (h, hs) =
    ground (arith, unfold_lines-break (d ∷ e ∷ p) out hs)

Fits-end : (left : ℕ) (p : Str) → length p ≤ left → IsPlain p → Fits 75 left (p ++ end_line)
Fits-end left [] le h = tt
Fits-end left (c ∷ []) le h = ground arith
Fits-end left (c ∷ d ∷ p) le (h, hs) = ground (arith, Fits-end (left - 1) (d ∷ p) (omega arith) hs)

Fits-break :
    (left : ℕ) (p out : Str)
    → length p ≤ left
    → IsPlain p
    → Fits 75 74 out
    → Fits 75 left (p ++ break_line ++ out)
Fits-break left [] [] le h f = omega arith
Fits-break left [] (o ∷ out) le h f = ground arith
Fits-break left (c ∷ []) out le h f =
    ground (arith, Fits-break (left - 1) [] out (omega arith) tt f)
Fits-break left (c ∷ d ∷ p) out le (h, hs) f =
    ground (arith, Fits-break (left - 1) (d ∷ p) out (omega arith) hs f)

-- A cut takes a byte, and no more than the room has.
pub cut_down_bounds : (line : Str) (k : ℕ) → (0 < cut_down line k) × (cut_down line k ≤ suc k)
unfolding cut_down
cut_down_bounds line zero = omega arith
cut_down_bounds line (suc k) = ground (arith, cut_down_bounds line k)

pub IsPlain-take : (n : ℕ) (s : Str) → IsPlain s → IsPlain (take n s)
IsPlain-take zero s h = tt
IsPlain-take (suc n) [] h = tt
IsPlain-take (suc n) (c ∷ s) (h, hs) = (h, IsPlain-take n s hs)

pub IsPlain-drop : (n : ℕ) (s : Str) → IsPlain s → IsPlain (drop n s)
IsPlain-drop zero s h = h
IsPlain-drop (suc n) [] h = tt
IsPlain-drop (suc n) (c ∷ s) (h, hs) = IsPlain-drop n s hs

length-take-le : (n : ℕ) (s : Str) → length (take n s) ≤ n
length-take-le zero s = omega arith
length-take-le (suc n) [] = omega arith
length-take-le (suc n) (c ∷ s) = omega (arith, length-take-le n s)

pub length-drop : (n : ℕ) (s : Str) → length (drop n s) ≡ length s - n
length-drop zero s = omega arith
length-drop (suc n) [] = omega arith
length-drop (suc n) (c ∷ s) = omega (arith, length-drop n s)

-- What a run of the loop has to give for a line.
abbrev Folds : ℕ → Str → Option Str → Type 0
Folds room line r =
    (out : Str) × (r ≡ some out) × (unfold_lines out ≡ line ++ end_line) × Fits 75 room out

Folds-last :
    (room : ℕ) (line : Str)
    → length line ≤ room
    → IsPlain line
    → Folds room line (some (line ++ end_line))
Folds-last room line le h =
    (line ++ end_line, refl, unfold_lines-end line h, Fits-end room line le h)

Folds-cut :
    (room n : ℕ) (line : Str) (r : Option Str)
    → n ≤ room
    → IsPlain line
    → Folds 74 (drop n line) r
    → Folds room line (before_rest (take n line) r)
Folds-cut room n line r le h (out, e, u, f) =
    let plain : IsPlain (take n line) = IsPlain-take n line h in
    let fits : length (take n line) ≤ room = omega (arith, length-take-le n line) in
    (
      take n line ++ break_line ++ out,
      rw e refl,
      rw (unfold_lines-break (take n line) out plain, u, take_drop) refl,
      Fits-break room (take n line) out fits plain f,
    )
  where
    take_drop : take n line ++ (drop n line ++ end_line) ≡ line ++ end_line
    take_drop =
        rw (← append_assoc (take n line) (drop n line) end_line, take-append-drop n line) refl

fold_from-Folds :
    (fuel room : ℕ) (line : Str)
    → 0 < room
    → length line ≤ fuel
    → IsPlain line
    → Folds room line (fold_from fuel room line)
unfolding fold_from
fold_from-Folds zero room line pos le h = elim (Bool-cases (ltb room (length line))) [
  | inl t ↦ absurd (ground arith)
  | inr f ↦ rw f (Folds-last room line (ground arith) h)
]
fold_from-Folds (suc fuel) room line pos le h = elim (Bool-cases (ltb room (length line))) [
  | inl t ↦ rw t (
      Folds-cut room (cut_down line (room - 1)) line _
        (omega (arith, cut_down_bounds line (room - 1))) h
        (fold_from-Folds fuel 74 (drop (cut_down line (room - 1)) line) (omega arith)
          (omega
            (arith, length-drop (cut_down line (room - 1)) line, cut_down_bounds line (room - 1)))
          (IsPlain-drop (cut_down line (room - 1)) line h)))
  | inr f ↦ rw f (Folds-last room line (ground arith) h)
]

-- Folding a line without a carriage return comes to an end, no line of the result has more than 75
-- octets, and taking the breaks out again gives the line with its line end.
pub fold_line-Folds :
    (line : Str)
    → IsPlain line
    → (out : Str) × (fold_line line ≡ some out)
      × (unfold_lines out ≡ line ++ end_line)
      × Fits 75 75 out
unfolding fold_line
fold_line-Folds line h = fold_from-Folds (length line) 75 line (omega arith) (omega arith) h

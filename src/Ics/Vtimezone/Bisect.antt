-- ===== src/Ics/Vtimezone/Bisect.antt =====
-- internal/ics/vtimezone.go: the bisection ends at a transition.
use tidy_dav.Prelude.{
  ℕ, zero, suc, ◌+◌, ◌-◌, ◌*◌, ◌/◌, ◌^◌, ◌≡◌, ◌≢◌, ◌≤◌, ◌<◌, refl, sym, ◌∙◌, Option, some, ltb,
  arith, Bool-cases, inl, inr, ltb→lt,
}
use tidy_dav.Prelude.Int.{ℤ, eq_ℤ, eq_of_eq_ℤ, ne_of_eq_ℤ}
use tidy_dav.Prelude.Clock.{Time, second, elapsed-pos}
use tidy_dav.Ics.Vtimezone.{Zone, gap, midpoint, bisect_transition}

-- The offset changes at `t` to the second: it is another one at an instant from `lo` on that is
-- before `t` by a second at most.
abbrev pub IsChange : Zone → Time → Time → Type 0
IsChange z lo t = (s : Time) × (lo ≤ s) × (s < t) × (t ≤ s + second) × (z.offset s ≢ z.offset t)

gap_lem : (lo hi : Time) → lo ≤ hi → hi - lo < 2 ^ 63 → gap hi lo ≡ hi - lo
gap_lem lo hi le small = rw (elapsed-pos hi lo le small) refl

-- The bisection has an instant with the offset below and one with another offset above.
abbrev pub Brackets : Zone → ℤ → Time → Time → Type 0
Brackets z off lo hi = (lo < hi) × (z.offset lo ≡ off) × (z.offset hi ≢ off)

-- The widest interval that so many rounds narrow down to a second.
abbrev pub reach : ℕ → ℕ
reach zero = second
reach (suc k) = 2 * reach k

abbrev pub Finds : Zone → Time → Time → Option Time → Type 0
Finds z lo hi r = (t : Time) × (r ≡ some t) × (t ≤ hi) × IsChange z lo t

module _ (z : Zone) (off : ℤ) where
  Finds-widen :
      (lo lo' hi' hi : Time) (r : Option Time)
      → lo ≤ lo'
      → hi' ≤ hi
      → Finds z lo' hi' r
      → Finds z lo hi r
  Finds-widen lo lo' hi' hi r p q (t, e, le, (s, a, b, c, d)) =
      (t, e, omega arith, (s, omega arith, b, c, d))

  Finds-here : (lo hi : Time) → Brackets z off lo hi → hi - lo ≤ second → Finds z lo hi (some hi)
  Finds-here lo hi (lt, at_lo, at_hi) near =
      (hi, refl, omega arith, (lo, omega arith, lt, omega arith, λ e. at_hi (sym e ∙ at_lo)))

  midpoint_lem : (lo hi : Time) → lo ≤ hi → hi - lo < 2 ^ 63 → midpoint lo hi ≡ lo + (hi - lo) / 2
  unfolding midpoint
  midpoint_lem lo hi le small = rw (gap_lem lo hi le small) refl

  pub bisect_transition-Finds :
      (k : ℕ) (lo hi : Time)
      → Brackets z off lo hi
      → hi - lo ≤ reach k
      → hi - lo < 2 ^ 63
      → Finds z lo hi (bisect_transition z off k lo hi)
  unfolding bisect_transition
  bisect_transition-Finds zero lo hi b near small =
      let g = gap_lem lo hi (omega arith) small in
      elim (Bool-cases (ltb second (gap hi lo))) [
        | inl t ↦ absurd (ground (arith, ltb→lt second (gap hi lo) t))
        | inr f ↦ rw f (Finds-here lo hi b near)
      ]
  bisect_transition-Finds (suc k) lo hi b near small =
      let g = gap_lem lo hi (omega arith) small in
      let m = midpoint_lem lo hi (omega arith) small in
      elim (Bool-cases (ltb second (gap hi lo))) [
        | inr f ↦ rw f (Finds-here lo hi b (ground arith))
        | inl t ↦
            let wide = ltb→lt second (gap hi lo) t in
            elim (Bool-cases (eq_ℤ (z.offset (midpoint lo hi)) off)) [
              | inl same ↦
                  rw (t, same)
                    (Finds-widen lo (midpoint lo hi) hi hi _ (omega arith) (omega arith) (
                      bisect_transition-Finds k (midpoint lo hi) hi
                        (omega arith, eq_of_eq_ℤ (z.offset (midpoint lo hi)) off same, b.2)
                        (omega arith) (omega arith)))
              | inr other ↦
                  rw (t, other)
                    (Finds-widen lo lo (midpoint lo hi) hi _ (omega arith) (omega arith) (
                      bisect_transition-Finds k lo (midpoint lo hi)
                        (omega arith, b.1, ne_of_eq_ℤ (z.offset (midpoint lo hi)) off other)
                        (omega arith) (omega arith)))
            ]
      ]

-- ===== src/Ics/Vtimezone/Scan.antt =====
-- internal/ics/vtimezone.go: the scan lists the transitions of the window.
use tidy_dav.Prelude.{
  ℕ, zero, suc, ◌+◌, ◌-◌, ◌*◌, ◌/◌, ◌≡◌, ◌≤◌, refl, Str, true, false, Option, some, List, [], ◌∷◌,
  length, arith, if◌then◌else◌, Bool-cases, inl, inr,
}
use tidy_dav.Prelude.Int.{eq_ℤ, ne_of_eq_ℤ}
use tidy_dav.Prelude.Clock.{Time}
use tidy_dav.Ics.Vtimezone.{
  Zone, hour, rounds, step_scan, scan, bisect_transition, observance, transitions, observances,
}
use tidy_dav.Ics.Vtimezone.Bisect.{IsChange, Finds, bisect_transition-Finds}

module _ (z : Zone) where
  -- The transitions in their order, each to the second, after `lo` and not after `hi`.
  abbrev pub IsListed : Time → Time → List Time → Type 0
  IsListed lo hi [] = Unit
  IsListed lo hi (t ∷ ts) = (t ≤ hi) × IsChange z lo t × IsListed t hi ts

  -- The hours of the window, counted from its start, at whose ends the offset is not the same.
  abbrev pub hour_changes : ℕ → Time → ℕ
  hour_changes zero prev = 0
  hour_changes (suc n) prev =
      let rest = hour_changes n (prev + hour) in
      if eq_ℤ (z.offset (prev + hour)) (z.offset prev) then rest else 1 + rest

  IsListed-later :
      (lo lo' hi : Time) (ts : List Time) → lo ≤ lo' → IsListed lo' hi ts → IsListed lo hi ts
  IsListed-later lo lo' hi [] le h = tt
  IsListed-later lo lo' hi (t ∷ ts) le (p, (s, a, b, c, d), rest) =
      (p, (s, omega arith, b, c, d), rest)

  abbrev Scans : ℕ → Time → Time → Option (List Time) → Type 0
  Scans count prev hi r =
      (ts : List Time) × (r ≡ some ts) × IsListed prev hi ts × (length ts ≡ count)

  Scans-skip :
      (count : ℕ) (prev hi : Time) (r : Option (List Time))
      → Scans count (prev + hour) hi r
      → Scans count prev hi (step_scan true z (z.offset prev) prev (prev + hour) r)
  unfolding step_scan
  Scans-skip count prev hi r (ts, e, l, c) =
      (ts, e, IsListed-later prev (prev + hour) hi ts (omega arith) l, c)

  Scans-add :
      (count : ℕ) (prev hi : Time) (r : Option (List Time))
      → prev + hour ≤ hi
      → Finds z prev (prev + hour) (bisect_transition z (z.offset prev) rounds prev (prev + hour))
      → Scans count (prev + hour) hi r
      → Scans (1 + count) prev hi (step_scan false z (z.offset prev) prev (prev + hour) r)
  unfolding step_scan
  Scans-add count prev hi r le (t, found, t_le, change) (ts, e, l, c) = (
    t ∷ ts,
    rw (found, e) refl,
    (omega arith, change, IsListed-later t (prev + hour) hi ts t_le l),
    omega arith,
  )

  scan-Scans :
      (n : ℕ) (prev hi : Time)
      → prev + n * hour ≤ hi
      → Scans (hour_changes n prev) prev hi (scan z n prev)
  unfolding scan
  scan-Scans zero prev hi le = ([], refl, tt, refl)
  scan-Scans (suc n) prev hi le =
      let rest = scan-Scans n (prev + hour) hi (omega arith) in
      elim (Bool-cases (eq_ℤ (z.offset (prev + hour)) (z.offset prev))) [
        | inl same ↦ rw same (Scans-skip _ prev hi _ rest)
        | inr other ↦ rw other (
            Scans-add _ prev hi _ (omega arith)
              (bisect_transition-Finds z (z.offset prev) rounds prev (prev + hour)
                (omega arith, refl, ne_of_eq_ℤ _ _ other) (omega arith) (omega arith))
              rest)
      ]

-- Building the observances of a window that does not end before it starts comes to an end, within
-- twelve rounds for each bisection.
-- Beside the one at the start of the window there is one for each hour at whose ends the offset
-- differs, in the order of time and inside the window, each at a change of the offset to the
-- second.
pub observances-IsListed :
    (z : Zone) (format : Time → Str) (from to : Time)
    → from ≤ to
    → (ts : List Time) × (observances z format from to
        ≡ some (observance z format from from from ∷ transitions z format ts))
      × IsListed z from to ts
      × (length ts ≡ hour_changes z ((to - from) / hour) from)
unfolding observances
observances-IsListed z format from to le =
    let (ts, e, l, c) = scan-Scans z ((to - from) / hour) from to (omega arith) in
    (ts, rw e refl, l, c)

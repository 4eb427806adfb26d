-- ===== src/Feed/Render/Window.antt =====
-- internal/feed/service.go: the window that generated time zones cover.
use tidy_dav.Prelude.{
  ◌≡◌, ◌≤◌, ◌⊎◌, refl, none, some, List, ltb, arith, if◌then◌else◌, Bool-cases, inl, inr,
}
use tidy_dav.Prelude.Int.{pos, negsuc}
use tidy_dav.Prelude.Clock.{Time}
use tidy_dav.Pipeline.{Child}
use tidy_dav.Feed.Render.{Env, Span, span_of, clamped, window_of, event_window}

-- What is documented of `AddDate` with years: more years are no earlier.
pub record IsCalendar {E T K L : Type 0} (env : Env E T K L) : Type 0 where
  pub next_year : (t : Time) → t ≤ env.add_years t (pos 1)
  pub last_year : (t : Time) → env.add_years t (negsuc 0) ≤ t
  pub third_year : (t : Time) → env.add_years t (negsuc 2) ≤ env.add_years t (negsuc 0)
  pub sixth_year : (t : Time) → env.add_years t (pos 1) ≤ env.add_years t (pos 6)

module _ {E T K L : Type 0} (env : Env E T K L) where
  -- The window is in order, begins at most three years before `now`, and ends at most six years after
  -- it or a year after it begins.
  abbrev pub IsBounded : Time → Time → Time → Type 0
  IsBounded now from to =
      (from ≤ to)
      × (env.add_years now (negsuc 2) ≤ from)
      × ((to ≤ env.add_years now (pos 6)) ⊎ (to ≡ env.add_years from (pos 1)))

  ordered :
      (from to bound : Time)
      → to ≤ bound
      → from ≤ env.add_years from (pos 1)
      → (from ≤ (if ltb to from then env.add_years from (pos 1) else to))
        × (((if ltb to from then env.add_years from (pos 1) else to) ≤ bound)
            ⊎ ((if ltb to from then env.add_years from (pos 1) else to)
                ≡ env.add_years from (pos 1)))
  ordered from to bound le next = elim (Bool-cases (ltb to from)) [
    | inl t ↦ rw t (next, inr refl)
    | inr f ↦ rw f (ground arith, inl le)
  ]

  least : (bound hi : Time) → (if ltb bound hi then bound else hi) ≤ bound
  least bound hi = ground arith

  greatest : (bound lo : Time) → bound ≤ (if ltb lo bound then bound else lo)
  greatest bound lo = ground arith

  clamped-IsBounded :
      (laws : IsCalendar env) (now lo hi : Time)
      → IsBounded now (clamped env now lo hi).0 (clamped env now lo hi).1
  unfolding clamped
  clamped-IsBounded laws now lo hi =
      let max_hi = env.add_years now (pos 6) in
      let min_lo = env.add_years now (negsuc 2) in
      let from = if ltb lo min_lo then min_lo else lo in
      let to = if ltb max_hi hi then max_hi else hi in
      let (in_order, bounded) = ordered from to max_hi (least max_hi hi) (laws.next_year from) in
      (in_order, greatest min_lo lo, bounded)

  around-IsBounded :
      (laws : IsCalendar env) (now : Time)
      → IsBounded now (env.add_years now (negsuc 0)) (env.add_years now (pos 1))
  around-IsBounded laws now = (
    omega (arith, laws.last_year now, laws.next_year now),
    laws.third_year now,
    inl (laws.sixth_year now),
  )

  window_of-IsBounded :
      (laws : IsCalendar env) (now : Time) (span : Span)
      → IsBounded now (window_of env now span).0 (window_of env now span).1
  unfolding window_of
  window_of-IsBounded laws now (some lo, some hi) =
      clamped-IsBounded laws now (env.add_years lo (negsuc 0)) (env.add_years hi (pos 1))
  window_of-IsBounded laws now (none, hi) = around-IsBounded laws now
  window_of-IsBounded laws now (some lo, none) = around-IsBounded laws now

-- Whatever the dates of the events, the window for which time zones are generated is in order, begins
-- no more than three years before the day, and ends no more than six years after it or a year after
-- its own beginning, if `AddDate` never goes back with more years.
pub event_window-IsBounded :
    {E T K L : Type 0} (env : Env E T K L) (laws : IsCalendar env) (cs : List (Child E T))
    (now : Time)
    → IsBounded env (env.midnight now) (event_window env cs now).0 (event_window env cs now).1
unfolding event_window
event_window-IsBounded env laws cs now =
    window_of-IsBounded env laws (env.midnight now) (span_of env cs (none, none))

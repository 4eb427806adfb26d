-- ===== src/Dav/Window.antt =====
-- internal/dav/extract.go: the date window of a job. `time.Parse` is a parameter.
use tidy_dav.Prelude.{
  ℕ, ◌+◌, ◌*◌, ◌-◌, Str, str, Bool, Option, none, some, [], ◌∷◌, ◌++◌, if◌then◌else◌,
}
use tidy_dav.Prelude.Clock.{Time, second}
use tidy_dav.Prelude.Result.{Result, ok, err}

pub record Env : Type 0 where
  pub parse_date : Str → Option Time
  pub parse_rfc3339 : Str → Result Str Time

-- The last second of the day is in the window.
abbrev pub last_second : ℕ
last_second = 24 * 3600 * second - second

module _ (env : Env) where
  abbrev day_or : Bool → Str → Option Time → Result Str Time
  day_or end_inclusive s (some t) = ok (if end_inclusive then t + last_second else t)
  day_or end_inclusive s none = env.parse_rfc3339 s

  unfoldable pub parse_bound : Str → Bool → Result Str Time
  parse_bound [] end_inclusive = ok 0
  parse_bound (c ∷ s) end_inclusive = day_or end_inclusive (c ∷ s) (env.parse_date (c ∷ s))

  abbrev both_bounds : Result Str Time → Result Str Time → Result Str (Time × Time)
  both_bounds (err e) end = err (str "window start: " ++ e)
  both_bounds (ok s) (err e) = err (str "window end: " ++ e)
  both_bounds (ok s) (ok e) = ok (s, e)

  unfoldable pub parse_window : Str → Str → Result Str (Time × Time)
  unfolding parse_bound
  parse_window start end = both_bounds (parse_bound start Bool.false) (parse_bound end Bool.true)

-- ===== src/Ics/Duration.antt =====
-- internal/ics/duration.go: printing a duration.
use tidy_dav.Prelude.{
  ℕ, ◌*◌, ◌/◌, ◌%◌, ◌≡◌, refl, Str, str, [], ◌++◌, ◌||◌, ltb, eqb, if◌then◌else◌,
}
use tidy_dav.Prelude.Int.{ℤ, pos, negsuc}
use tidy_dav.Prelude.Clock.{second}
use tidy_dav.Prelude.Decimal.{decimal}

abbrev pub minute : ℕ
minute = 60 * second

-- A number with its unit, unless it is 0.
unfoldable pub unit : ℕ → Str → Str
unfolding decimal
unit n letter = if ltb 0 n then decimal n ++ letter else []

unfoldable pub time_part : ℕ → ℕ → Str
unfolding unit
time_part hours minutes =
    if ltb 0 hours || ltb 0 minutes
    then str "T" ++ unit hours (str "H") ++ unit minutes (str "M")
    else []

unfoldable pub print_minutes : ℕ → Str
unfolding time_part
print_minutes n =
    if eqb n 0
    then str "PT0S"
    else str "P" ++ unit (n / (24 * 60)) (str "D") ++ time_part (n % (24 * 60) / 60) (n % 60)

-- `Duration`: a negative one counts no minutes.
unfoldable pub duration : ℤ → Str
unfolding print_minutes
duration (pos n) = print_minutes (n / minute)
duration (negsuc n) = str "PT0S"

a_day_and_an_hour : duration (pos (25 * 60 * minute)) ≡ str "P1DT1H"
unfolding duration
a_day_and_an_hour = refl

ninety_minutes : duration (pos (90 * minute)) ≡ str "PT1H30M"
unfolding duration
ninety_minutes = refl

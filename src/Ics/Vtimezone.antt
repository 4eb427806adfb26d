-- ===== src/Ics/Vtimezone.antt =====
-- internal/ics/vtimezone.go: the observances of a time zone in a window. A zone of Go's database
-- and the printing of an instant are parameters.
pub mod Bisect
pub mod Scan
use tidy_dav.Prelude.{
  ℕ, zero, suc, ◌+◌, ◌-◌, ◌*◌, ◌/◌, ◌%◌, Str, str, Bool, true, false, Option, none, some, List, [],
  ◌∷◌, ◌++◌, ltb, leb, is_empty, if◌then◌else◌,
}
use tidy_dav.Prelude.Int.{ℤ, pos, negsuc, pos_part, neg_part, eq_ℤ}
use tidy_dav.Prelude.Clock.{Time, second, elapsed}
use tidy_dav.Prelude.Decimal.{decimal}
use tidy_dav.Prelude.Result.{Result, ok, err}

-- What `In(loc)` tells of an instant: the seconds east of UTC, the daylight flag and the name.
pub record Zone : Type 0 where
  pub offset : Time → ℤ
  pub is_dst : Time → Bool
  pub abbreviation : Time → Str

abbrev pub hour : ℕ
hour = 3600 * second

-- `hi.Sub(lo)`, or 0 where it is negative.
abbrev pub gap : Time → Time → ℕ
gap hi lo = pos_part (elapsed hi lo)

unfoldable pub midpoint : Time → Time → Time
midpoint lo hi = lo + gap hi lo / 2

-- `bisectTransition`, with fuel for the rounds.
unfoldable pub bisect_transition : Zone → ℤ → ℕ → Time → Time → Option Time
unfolding midpoint
bisect_transition z off zero lo hi = if ltb second (gap hi lo) then none else some hi
bisect_transition z off (suc fuel) lo hi =
    let mid = midpoint lo hi in
    let upper = bisect_transition z off fuel mid hi in
    let lower = bisect_transition z off fuel lo mid in
    if ltb second (gap hi lo) then (if eq_ℤ (z.offset mid) off then upper else lower) else some hi

-- The rounds that an hour takes.
abbrev pub rounds : ℕ
rounds = 12

abbrev pub cons_option : Option Time → Option (List Time) → Option (List Time)
cons_option none ts = none
cons_option (some t) none = none
cons_option (some t) (some ts) = some (t ∷ ts)

-- One step of the scan, at `t`: the first argument says whether the offset is that of `prev`.
unfoldable pub step_scan : Bool → Zone → ℤ → Time → Time → Option (List Time) → Option (List Time)
step_scan true z off prev t rest = rest
step_scan false z off prev t rest = cons_option (bisect_transition z off rounds prev t) rest

-- The scan by hours from `prev` on, with the number of hours left: the transitions.
unfoldable pub scan : Zone → ℕ → Time → Option (List Time)
unfolding step_scan
scan z zero prev = some []
scan z (suc n) prev =
    step_scan (eq_ℤ (z.offset (prev + hour)) (z.offset prev)) z (z.offset prev) prev (prev + hour)
      (scan z n (prev + hour))

-- A STANDARD or DAYLIGHT component.
pub record Observance : Type 0 where
  pub daylight : Bool
  pub dtstart : Str
  pub offset_from : Str
  pub offset_to : Str
  pub name : Option Str

-- `%02d`
abbrev two_digits : ℕ → Str
two_digits n = if ltb n 10 then b'0' ∷ decimal n else decimal n

abbrev print_offset : Str → ℕ → Str
print_offset sign s = sign ++ two_digits (s / 3600) ++ two_digits (s % 3600 / 60)

unfoldable pub fmt_utc_offset : ℤ → Str
unfolding decimal
fmt_utc_offset (pos n) = print_offset (str "+") n
fmt_utc_offset (negsuc n) = print_offset (str "-") (n + 1)

abbrev shift : Time → ℤ → Time
shift t off = t + second * pos_part off - second * neg_part off

module _ (z : Zone) (format : Time → Str) where
  -- `observance(utc, before, after)`; the last two are instants here.
  unfoldable pub observance : Time → Time → Time → Observance
  unfolding fmt_utc_offset
  observance utc before after = record {
    daylight = z.is_dst after;
    dtstart = format (shift utc (z.offset before));
    offset_from = fmt_utc_offset (z.offset before);
    offset_to = fmt_utc_offset (z.offset after);
    name = if is_empty (z.abbreviation after) then none else some (z.abbreviation after);
  }

  unfoldable pub transitions : List Time → List Observance
  unfolding observance
  transitions [] = []
  transitions (t ∷ ts) = observance t (t - second) t ∷ transitions ts

  abbrev pub with_first : Time → Option (List Time) → Option (List Observance)
  with_first from none = none
  with_first from (some ts) = some (observance from from from ∷ transitions ts)

  unfoldable pub observances : Time → Time → Option (List Observance)
  unfolding scan transitions
  observances from to = with_first from (scan z ((to - from) / hour) from)

abbrev pub in_order :
    Time → Time → (Time → Time → Option (List Observance)) → Option (List Observance)
in_order from to build = if ltb to from then build to from else build from to

abbrev with_zone :
    Result Str Zone → (Zone → Option (List Observance)) → Result Str (Option (List Observance))
with_zone (err e) build = err e
with_zone (ok z) build = ok (build z)

-- `VTimezone`: the observances of the component, or the error of the zone's name.
unfoldable pub vtimezone :
    (Str → Result Str Zone)
    → (Time → Str)
    → Str
    → Time
    → Time
    → Result Str (Option (List Observance))
unfolding observances
vtimezone load format tzid from to =
    with_zone (load tzid) (λ z. in_order from to (observances z format))

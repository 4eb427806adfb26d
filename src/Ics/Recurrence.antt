-- ===== src/Ics/Recurrence.antt =====
-- internal/ics/recurrence.go: the end of an event's last occurrence. `time.Parse`, `TrimSpace` and
-- `EqualFold` are parameters.
use tidy_dav.Prelude.{
  ℕ, ◌+◌, Str, str, Bool, false, not, ◌&&◌, ◌||◌, Option, none, some, List, [], ◌∷◌, eqb, ltb,
  is_empty, if◌then◌else◌,
}
use tidy_dav.Prelude.Int.{pos_part}
use tidy_dav.Prelude.Clock.{Time, is_zero, elapsed}
use tidy_dav.Ics.{Props, raw}

pub record Env : Type 0 where
  pub trim_space : Str → Str
  pub equal_fold : Str → Str → Bool
  -- `time.Parse`, of a layout and a value.
  pub parse : Str → Str → Option Time

abbrev cons_head : ℕ → List Str → List Str
cons_head c [] = (c ∷ []) ∷ []
cons_head c (p ∷ ps) = (c ∷ p) ∷ ps

-- `strings.Split`, at a byte.
unfoldable pub split : ℕ → Str → List Str
split sep [] = [] ∷ []
split sep (c ∷ s) = let rest = split sep s in if eqb c sep then [] ∷ rest else cons_head c rest

abbrev cons_cut : ℕ → Str × Option Str → Str × Option Str
cons_cut c (before, after) = (c ∷ before, after)

-- `strings.Cut`, at a byte: what is before it, and what is after it if it stands there.
unfoldable pub cut : ℕ → Str → Str × Option Str
cut sep [] = ([], none)
cut sep (c ∷ s) = let rest = cons_cut c (cut sep s) in if eqb c sep then ([], some s) else rest

abbrev pub end_or : Time → Option Time → Time
end_or start none = start
end_or start (some end) = if is_zero end then start else end

abbrev pub or_zero : Option Time → Time
or_zero none = 0
or_zero (some t) = t

abbrev pub unless_zero : Time → Option Time
unless_zero t = if is_zero t then none else some t

module _ (env : Env) where
  abbrev first_of : Option Time → Option Time → Option Time
  first_of none b = b
  first_of (some t) b = some t

  unfoldable pub parse_ical_time : Str → Option Time
  parse_ical_time v =
      first_of (env.parse (str "20060102T150405Z") v)
        (first_of (env.parse (str "20060102T150405") v) (env.parse (str "20060102") v))

  -- A part of a rule: whether it is UNTIL, and its value.
  abbrev is_until : Str × Option Str → Bool
  is_until (name, none) = false
  is_until (name, some value) = env.equal_fold (env.trim_space name) (str "UNTIL")

  abbrev value_of : Str × Option Str → Str
  value_of (name, none) = []
  value_of (name, some value) = value

  unfoldable pub until_in : List Str → Option Time
  unfolding parse_ical_time cut
  until_in [] = none
  until_in (part ∷ parts) =
      let rest = until_in parts in
      if is_until (cut b'=' part)
      then parse_ical_time (env.trim_space (value_of (cut b'=' part)))
      else rest

  -- `ruleUntil`
  unfoldable pub rule_until : Str → Option Time
  unfolding until_in split
  rule_until rrule = until_in (split b';' rrule)

  abbrev latest_of : Time → Option Time → Time
  latest_of latest none = latest
  latest_of latest (some t) = if ltb latest t then t else latest

  unfoldable pub latest_entry : Time → List Str → Time
  unfolding parse_ical_time cut
  latest_entry latest [] = latest
  latest_entry latest (entry ∷ entries) =
      let e = env.trim_space entry in
      let next = if is_empty e then latest else latest_of latest (parse_ical_time (cut b'/' e).0) in
      latest_entry next entries

  -- `latestRDate`
  unfoldable pub latest_rdate : Str → Option Time
  unfolding latest_entry split
  latest_rdate rdate = unless_zero (latest_entry 0 (split b',' rdate))

  -- UNTIL bounds the last start: the occurrence lasts as long as the event.
  unfoldable pub extended : Time → Time → Time → Time
  extended until start end =
      if not (is_zero start) && ltb start end then until + pos_part (elapsed end start) else until

  -- The second argument is the bound of the rule, if there is a rule at all.
  unfoldable pub last_with : Time → Option Time → Option Time
  last_with last none = unless_zero last
  last_with last (some latest) = unless_zero (if ltb last latest then latest else last)

  unfoldable pub last_of_rule : Option Time → Time → Time → Str → Option Time
  unfolding extended last_with latest_rdate
  last_of_rule none start end rdate = none
  last_of_rule (some until) start end rdate =
      last_with (extended until start end) (latest_rdate rdate)

  module _ {E : Type 0} (props : Props E) where
    unfoldable pub event_start : E → Time
    event_start e = or_zero (props.date_time_start e)

    unfoldable pub event_end : E → Time
    unfolding event_start
    event_end e = end_or (event_start e) (props.date_time_end e)

    -- `IsRecurring`
    unfoldable pub is_recurring : E → Bool
    unfolding raw
    is_recurring e =
        not (is_empty (raw props e (str "RRULE"))) || not (is_empty (raw props e (str "RDATE")))

    -- `LastOccurrence`: no end where the series is open, or nothing can be dated.
    unfoldable pub last_occurrence : E → Option Time
    unfolding raw event_end last_of_rule rule_until last_with latest_rdate
    last_occurrence e =
        let rrule = raw props e (str "RRULE") in
        let rdate = raw props e (str "RDATE") in
        if is_empty rrule && is_empty rdate
        then unless_zero (event_end e)
        else if not (is_empty rrule)
        then last_of_rule (rule_until rrule) (event_start e) (event_end e) rdate
        else last_with 0 (latest_rdate rdate)

-- ===== src/Pipeline/Rules.antt =====
-- internal/pipeline/rules.go: the rules that change events or drop old ones, and the pipeline over
-- rules (pipeline.go). The alarms of an event, its properties with their parameters and the time
-- zones are what go-ical and Go's `time` offer, and are parameters.
pub mod Alarms
pub mod Expiry
use mathlib.Core.List.{reverse}
use tidy_dav.Prelude.{
  ℕ, ◌*◌, ◌≡◌, Str, str, Bool, true, false, not, ◌&&◌, ◌||◌, Option, none, some, List, [], ◌∷◌,
  ◌++◌, is_empty, list_eq, nat_eq, ◌==◌, ltb, if◌then◌else◌,
}
use tidy_dav.Prelude.Clock.{Time, second}
use tidy_dav.Prelude.Int.{ℤ, pos, negsuc, ltb_ℤ, minus}
use tidy_dav.Prelude.Dict
use tidy_dav.Prelude.Dict.{Dict}
use tidy_dav.Prelude.Result.{Result, ok, err}
use tidy_dav.Notifier.{MatchedEvent, RuleMatch}
use tidy_dav.Ics.{Props, text, raw, remove, is_date_only}
use tidy_dav.Ics.Duration.{minute, duration}
use tidy_dav.Ics.Recurrence
use tidy_dav.Ics.Recurrence.{last_occurrence}
use tidy_dav.Pipeline.{
  Child, event, other, Env, FilterRule, matched_event, filter_events, apply_filter, apply_dedup,
}

-- A compiled regular expression.
pub record Regexp : Type 0 where
  pub match_string : Str → Bool
  pub replace_all : Str → Str → Str
  pub replace_all_literal : Str → Str → Str

pub record RenameRule : Type 0 where
  pub field : Str
  pub re : Regexp
  pub replacement : Str
  pub literal : Bool

pub record AlarmRule : Type 0 where
  pub lead : ℤ
  pub text : Str

pub record TimezoneRule (L : Type 0) : Type 0 where
  pub target : L
  pub floating : L

-- The properties of an alarm that is built.
pub record Alarm : Type 0 where
  pub action : Str
  pub description : Str
  pub trigger : Str

-- A property: its value and its parameters.
pub record Prop : Type 0 where
  pub value : Str
  pub params : Dict Str (List Str)

-- The components of an event, and its properties in time zones.
pub record Parts (E K L : Type 0) : Type 0 where
  pub children : E → List K
  pub set_children : E → List K → E
  pub is_alarm : K → Bool
  pub to_component : Alarm → K
  pub get_prop : E → Str → Option Prop
  pub set_prop : E → Str → Prop → E
  -- `Prop.DateTime`, with the zone of values that name none.
  pub date_time : Prop → L → Option Time
  -- `NewProp` and `SetDateTime`, of an instant in a zone.
  pub dated : Str → Time → L → Prop
  pub load_location : Str → Result Str L
  pub recurrence : Recurrence.Env
  -- The zero instant of `now` is Go's.
  pub now : Time

module _ {E C : Type 0} where
  -- A loop over the events of a calendar that changes each of them.
  unfoldable pub map_events : (E → E) → List (Child E C) → List (Child E C)
  map_events f [] = []
  map_events f (other c ∷ cs) = other c ∷ map_events f cs
  map_events f (event e ∷ cs) = event (f e) ∷ map_events f cs

  -- One that tells of the events that it has changed.
  abbrev cons_changed :
      Option MatchedEvent
      → List (Child E C) × List MatchedEvent
      → List (Child E C) × List MatchedEvent
  cons_changed none r = r
  cons_changed (some m) (cs, ms) = (cs, m ∷ ms)

  unfoldable pub map_changed :
      (E → E × Option MatchedEvent) → List (Child E C) → List (Child E C) × List MatchedEvent
  map_changed f [] = ([], [])
  map_changed f (other c ∷ cs) = let (rest, ms) = map_changed f cs in (other c ∷ rest, ms)
  map_changed f (event e ∷ cs) =
      let (e', m) = f e in let (rest, ms) = map_changed f cs in cons_changed m (event e' ∷ rest, ms)

module _ {E : Type 0} (env : Env E) where
  -- The value that a rename gives a field.
  unfoldable pub renamed : RenameRule → Str → Str
  renamed r val =
      if r.literal
      then r.re.replace_all_literal val r.replacement
      else r.re.replace_all val r.replacement

  abbrev rename_to : RenameRule → E → Str → Str → E × Option MatchedEvent
  rename_to r e val out =
      if out == val
      then (e, none)
      else let e' = env.props.set_text e r.field out in (e', some (matched_event env e'))

  unfoldable pub rename_event : RenameRule → E → E × Option MatchedEvent
  unfolding renamed matched_event text
  rename_event r e =
      let val = text env.props e r.field in
      if is_empty val || not (r.re.match_string val)
      then (e, none)
      else rename_to r e val (renamed r val)

  unfoldable pub strip_event : List Str → E → E
  unfolding remove
  strip_event [] e = e
  strip_event (f ∷ fs) e = strip_event fs (remove env.props e f)

-- `negativeDuration`
unfoldable pub negative_duration : ℤ → Str
unfolding duration
negative_duration d = if ltb_ℤ d (pos minute) then duration (pos 0) else str "-" ++ duration d

unfoldable pub build_alarm : ℤ → Str → Alarm
unfolding negative_duration
build_alarm lead text = record {
  action = str "DISPLAY";
  description = text;
  trigger = negative_duration lead;
}

abbrev pub or_else : Str → Str → Str
or_else [] b = b
or_else (c ∷ a) b = c ∷ a

abbrev pub is_kept_param : Str → Bool
is_kept_param name = not (name == str "TZID" || name == str "VALUE")

unfoldable pub keep_params : Dict Str (List Str) → Dict Str (List Str) → Dict Str (List Str)
keep_params [] params = params
keep_params ((name, values) ∷ rest) params =
    let params' = if is_kept_param name then Dict.insert name values params else params in
    keep_params rest params'

module _ {E K L : Type 0} (env : Env E) (parts : Parts E K L) where
  unfoldable pub without_alarms : List K → List K
  without_alarms [] = []
  without_alarms (k ∷ ks) =
      let rest = without_alarms ks in if parts.is_alarm k then rest else k ∷ rest

  -- The text of an alarm: that of the rule, the event's summary, or a fixed one.
  unfoldable pub alarm_text : AlarmRule → E → Str
  unfolding text
  alarm_text r e = or_else (or_else r.text (text env.props e (str "SUMMARY"))) (str "Reminder")

  unfoldable pub alarm_event : AlarmRule → E → E
  unfolding without_alarms alarm_text build_alarm
  alarm_event r e = parts.set_children e (
      without_alarms (parts.children e)
      ++ parts.to_component (build_alarm r.lead (alarm_text r e)) ∷ [])

  abbrev converted_to : TimezoneRule L → E → Str → Prop → Option Time → E
  converted_to r e field p none = e
  converted_to r e field p (some t) =
      let np = parts.dated field t r.target in
      parts.set_prop e field (record np { params = keep_params p.params np.params })

  abbrev converted : TimezoneRule L → E → Str → Option Prop → E
  converted r e field none = e
  converted r e field (some p) =
      if is_date_only p.value then e else converted_to r e field p (parts.date_time p r.floating)

  -- `TimezoneRule.convert`
  unfoldable pub convert : TimezoneRule L → E → Str → E
  unfolding keep_params is_date_only
  convert r e field = converted r e field (parts.get_prop e field)

  unfoldable pub convert_event : TimezoneRule L → E → E
  unfolding convert
  convert_event r e = convert r (convert r e (str "DTSTART")) (str "DTEND")

  abbrev not_before : Time → Option Time → Bool
  not_before cutoff none = true
  not_before cutoff (some end) = not (ltb end cutoff)

  -- The keep function of the expire rule; it has no state.
  unfoldable pub expire_keep : Time → Unit {0} → E → Bool × Unit {0}
  unfolding last_occurrence
  expire_keep cutoff s e = (not_before cutoff (last_occurrence parts.recurrence env.props e), s)

  unfoldable pub apply_expire : {C : Type 0} → ℤ → List (Child E C) → List (Child E C)
  unfolding expire_keep filter_events
  apply_expire max_age cs = (filter_events (expire_keep (minus parts.now max_age)) tt cs).0

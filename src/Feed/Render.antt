-- ===== src/Feed/Render.antt =====
-- internal/feed/service.go: rendering a feed: the merge, the rules, the time zones that the events
-- name, and the text of the calendar.
pub mod Window
mod Tests
use tidy_dav.Prelude.{
  ℕ, ◌+◌, ◌-◌, ◌*◌, ◌≡◌, Str, str, Bool, true, false, not, ◌&&◌, ◌||◌, Option, none, some, List, [],
  ◌∷◌, ◌++◌, is_empty, contains, ltb, length, list_eq, nat_eq, map, if◌then◌else◌,
}
use mathlib.Core.List.{reverse}
use tidy_dav.Prelude.Int.{ℤ, pos, negsuc, leb_ℤ}
use tidy_dav.Prelude.Clock.{Time, is_zero, second, times}
use tidy_dav.Prelude.Dict
use tidy_dav.Prelude.Dict.{Dict}
use tidy_dav.Prelude.Sort.{sort_strings}
use tidy_dav.Prelude.Result.{Result, ok, err}
use tidy_dav.Store.Feeds.{FeedSource, Feed}
use tidy_dav.Notifier.{RuleMatch}
use tidy_dav.Proxy
use tidy_dav.Proxy.{Cache, fetch_auth}
use tidy_dav.Ics.{text, raw}
use tidy_dav.Ics.Serialize
use tidy_dav.Ics.Serialize.{text_prop, duration_prop, serialize}
use tidy_dav.Pipeline
use tidy_dav.Pipeline.{Child, event, other}
use tidy_dav.Pipeline.Rules.{Parts}
use tidy_dav.Pipeline.Config.{RuleConfig, Rule, Compiler}
use tidy_dav.Pipeline.Config
use tidy_dav.Pipeline.Chain.{RuleError, Report, Applied, build_pipeline, apply_rules, matches}
use tidy_dav.Feed.{Calendar, EventSummary, Merged, merge}
use tidy_dav.Feed

pub data Error : Type 0 where
  no_source : Error
  bad_rules : Error
  rule : Config.Error → Error
  failed : RuleError → Error
  encoding : Serialize.Error → Error

-- What the service has beside the merge: the rules, the zones and go-ical's encoder.
pub record Env (E T K L : Type 0) : Type 0 where
  pub feed : Feed.Env E T
  pub pipeline : Pipeline.Env E
  pub parts : Parts E K L
  pub regexps : Compiler
  pub decode_rules : Str → Option (List RuleConfig)
  -- The TZID parameters of an event's properties.
  pub tzids : E → List Str
  -- `AddDate(years, 0, 0)`, and midnight of a day in UTC.
  pub add_years : Time → ℤ → Time
  pub midnight : Time → Time
  pub vtimezone : Str → Time → Time → Option T
  pub encode : Serialize.Props → List (Child E T) → Result Serialize.Error Str
  pub escape : Str → Str
  pub format_time : Time → Str

abbrev min_with : Option Time → Time → Option Time
min_with none t = some t
min_with (some lo) t = if ltb t lo then some t else some lo

abbrev max_with : Option Time → Time → Option Time
max_with none t = some t
max_with (some hi) t = if ltb hi t then some t else some hi

-- The least and the greatest start so far.
abbrev pub Span : Type 0
Span = Option Time × Option Time

abbrev pub widen : Option Time → Span → Span
widen none span = span
widen (some t) (lo, hi) = if is_zero t then (lo, hi) else (min_with lo t, max_with hi t)

module _ {E T K L : Type 0} (env : Env E T K L) where
  -- The properties of `newCalendar`.
  abbrev name_props : Str → Serialize.Props
  name_props [] = []
  name_props (c ∷ name) =
      (str "NAME", text_prop env.escape (str "NAME") (c ∷ name) ∷ [])
      ∷ (str "X-WR-CALNAME", text_prop env.escape (str "X-WR-CALNAME") (c ∷ name) ∷ [])
      ∷ []

  abbrev refresh_props : ℤ → Serialize.Props
  refresh_props seconds =
      let d = times second seconds in
      if leb_ℤ seconds (pos 0)
      then []
      else (str "REFRESH-INTERVAL", duration_prop (str "REFRESH-INTERVAL") d true ∷ [])
        ∷ (str "X-PUBLISHED-TTL", duration_prop (str "X-PUBLISHED-TTL") d false ∷ [])
        ∷ []

  unfoldable pub new_calendar : Feed → Serialize.Props
  unfolding text_prop duration_prop
  new_calendar f =
      (str "PRODID", text_prop env.escape (str "PRODID") (str "-//TidyDAV//EN") ∷ [])
        ∷ (str "VERSION", text_prop env.escape (str "VERSION") (str "2.0") ∷ [])
        ∷ name_props (env.pipeline.trim_space f.name)
      ++ refresh_props f.ttl_seconds

  unfoldable pub add_tzids : List Str → List Str → List Str
  add_tzids [] set = set
  add_tzids (id ∷ ids) set =
      add_tzids ids (if is_empty id || contains set id then set else id ∷ set)

  unfoldable pub event_tzids : List (Child E T) → List Str → List Str
  unfolding add_tzids
  event_tzids [] set = set
  event_tzids (other t ∷ cs) set = event_tzids cs set
  event_tzids (event e ∷ cs) set = event_tzids cs (add_tzids (env.tzids e) set)

  unfoldable pub referenced_tzids : List (Child E T) → List Str
  unfolding event_tzids sort_strings
  referenced_tzids cs = sort_strings (event_tzids cs [])

  unfoldable pub span_of : List (Child E T) → Span → Span
  span_of [] span = span
  span_of (other t ∷ cs) span = span_of cs span
  span_of (event e ∷ cs) span = span_of cs (widen (env.pipeline.props.date_time_start e) span)

  -- The bounds, clamped to those of `now`, and put in order.
  unfoldable pub clamped : Time → Time → Time → Time × Time
  clamped now lo hi =
      let min_lo = env.add_years now (negsuc 2) in
      let max_hi = env.add_years now (pos 6) in
      let from = if ltb lo min_lo then min_lo else lo in
      let to = if ltb max_hi hi then max_hi else hi in
      (from, if ltb to from then env.add_years from (pos 1) else to)

  unfoldable pub window_of : Time → Span → Time × Time
  unfolding clamped
  window_of now (some lo, some hi) =
      clamped now (env.add_years lo (negsuc 0)) (env.add_years hi (pos 1))
  window_of now (_, _) = (env.add_years now (negsuc 0), env.add_years now (pos 1))

  -- `eventWindow`
  unfoldable pub event_window : List (Child E T) → Time → Time × Time
  unfolding span_of window_of
  event_window cs now = window_of (env.midnight now) (span_of cs (none, none))

  abbrev zone_or : Option T → Option T → Option T
  zone_or (some t) built = some t
  zone_or none built = built

  abbrev cons_zone : Option T → List (Child E T) → List (Child E T)
  cons_zone none cs = cs
  cons_zone (some t) cs = other t ∷ cs

  -- The upstream definition of each zone, or else one that is built; a zone that has none is left
  -- out.
  unfoldable pub zones_of : Dict Str T → Time × Time → List Str → List (Child E T)
  zones_of upstream (from, to) [] = []
  zones_of upstream (from, to) (id ∷ ids) =
      cons_zone (zone_or (Dict.lookup id upstream) (env.vtimezone id from to))
        (zones_of upstream (from, to) ids)

  unfoldable pub attach_timezones : Dict Str T → List (Child E T) → List (Child E T)
  unfolding referenced_tzids event_window zones_of
  attach_timezones upstream cs =
      zones_of upstream (event_window cs env.feed.now) (referenced_tzids cs) ++ cs

  abbrev decoded : Option (List RuleConfig) → Result Error (List RuleConfig)
  decoded none = err bad_rules
  decoded (some configs) = ok configs

  unfoldable pub decode : Str → Result Error (List RuleConfig)
  decode [] = ok []
  decode (c ∷ rules) = decoded (env.decode_rules (c ∷ rules))

  abbrev rules_of : Result Config.Error (List (Rule E T)) → Result Error (List (Rule E T))
  rules_of (err e) = err (rule e)
  rules_of (ok rs) = ok rs

  abbrev built : Result Error (List RuleConfig) → Result Error (List (Rule E T))
  built (err e) = err e
  built (ok configs) = rules_of (build_pipeline env.pipeline env.parts env.regexps configs)

  -- `buildPipeline`
  unfoldable pub build : Str → Result Error (List (Rule E T))
  unfolding decode
  build rules = built (decode rules)

  abbrev pub ruled_by : Applied E T → Result Error (List (Child E T) × List Report)
  ruled_by (err e) = err (failed e)
  ruled_by (ok r) = ok r

  abbrev pub apply_built :
      List (Child E T)
      → Result Error (List (Rule E T))
      → Result Error (List (Child E T) × List Report)
  apply_built cs (err e) = err e
  apply_built cs (ok rs) = ruled_by (apply_rules rs cs)

  abbrev as_children : List E → List (Child E T)
  as_children es = map event (reverse es)

  -- The merge, and the rules on its events.
  unfoldable pub transformed :
      Feed → Option (Merged E T) → Result Error (Merged E T × List (Child E T) × List Report)
  unfolding build apply_rules
  transformed f none = err no_source
  transformed f (some m) = elim (apply_built (as_children m.events) (build f.rules)) [
    | err e ↦ err e
    | ok (cs, reports) ↦ ok (m, cs, reports)
  ]

  abbrev text_of : Serialize.Written → Result Error (Option Str)
  text_of (err e) = err (encoding e)
  text_of (ok s) = ok s

  abbrev printed :
      Feed → Result Error (Merged E T × List (Child E T) × List Report) → Result Error (Option Str)
  printed f (err e) = err e
  printed f (ok (m, cs, reports)) =
      text_of (serialize env.encode (new_calendar f) (attach_timezones m.timezones cs))

  -- `Render`
  unfoldable pub render : {St : Type 0} → Cache St → Feed → St → Result Error (Option Str) × St
  unfolding merge transformed new_calendar attach_timezones serialize
  render cache f s = let (m, s') = merge env.feed cache f s in (printed f (transformed f m), s')

  abbrev matched :
      Result Error (Merged E T × List (Child E T) × List Report) → Result Error (List RuleMatch)
  matched (err e) = err e
  matched (ok (m, cs, reports)) = ok (matches reports)

  -- `Matches` of the service.
  unfoldable pub feed_matches :
      {St : Type 0} → Cache St → Feed → St → Result Error (List RuleMatch) × St
  unfolding merge transformed matches
  feed_matches cache f s = let (m, s') = merge env.feed cache f s in (matched (transformed f m), s')

  abbrev start_text : Option Time → Str
  start_text none = []
  start_text (some t) = if is_zero t then [] else env.format_time t

  abbrev summary_of : E → EventSummary
  summary_of e = record {
    uid = text env.pipeline.props e (str "UID");
    summary = text env.pipeline.props e (str "SUMMARY");
    start = start_text (env.pipeline.props.date_time_start e);
    location = text env.pipeline.props e (str "LOCATION");
    description = text env.pipeline.props e (str "DESCRIPTION");
  }

  unfoldable pub summarize : List (Child E T) → List EventSummary
  unfolding text
  summarize [] = []
  summarize (other t ∷ cs) = summarize cs
  summarize (event e ∷ cs) = summary_of e ∷ summarize cs

  abbrev both_sides :
      Result Error (Merged E T × List (Child E T) × List Report)
      → Result Error (List EventSummary × List EventSummary)
  both_sides (err e) = err e
  both_sides (ok (m, cs, reports)) = ok (summarize (as_children m.events), summarize cs)

  -- `Preview`
  unfoldable pub preview :
      {St : Type 0}
      → Cache St
      → Feed
      → St
      → Result Error (List EventSummary × List EventSummary) × St
  unfolding merge transformed summarize
  preview cache f s = let (m, s') = merge env.feed cache f s in (both_sides (transformed f m), s')

  abbrev counted : Option (Calendar E T) → Result Str ℕ
  counted none = err (str "response is not a valid iCalendar document")
  counted (some cal) = ok (length cal.events)

  abbrev checked : (Proxy.Error → Str) → Result Proxy.Error (Str × Proxy.Source) → Result Str ℕ
  checked print (err e) = err (print e)
  checked print (ok (body, source)) = counted (env.feed.parse body)

  -- `CheckSource`
  unfoldable pub check_source :
      {St : Type 0} → (Proxy.Error → Str) → Cache St → Str → Str → Str → St → Result Str ℕ × St
  unfolding fetch_auth
  check_source print cache url username password s =
      let (r, s') =
        fetch_auth env.feed.proxy cache url (pos 0) username password env.feed.now env.feed.put_at
          s in
      (checked print r, s')

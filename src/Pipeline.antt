-- ===== src/Pipeline.antt =====
-- internal/pipeline: matching events (matcher.go), the values of their fields (pipeline.go), and the
-- filter and dedup rules (rules.go), with `FilterEvents` of internal/ics/ics.go. Events, Go's regular
-- expressions, the case folding of strings and the printing of a date are parameters.
pub mod Filter
pub mod Dedup
pub mod Rules
pub mod Config
pub mod Chain
mod Tests
use tidy_dav.Prelude.{
  ℕ, ◌≡◌, Str, str, Bool, true, false, not, ◌&&◌, ◌||◌, Option, none, some, List, [], ◌∷◌, ◌++◌,
  any, is_empty, contains, list_eq, nat_eq, ◌==◌, eqb, if◌then◌else◌,
}
use tidy_dav.Prelude.Clock.{Time}
use tidy_dav.Notifier.{MatchedEvent}
use tidy_dav.Ics.{Props, text, raw}

-- A child of a calendar: an event, or another component.
pub data Child (E C : Type 0) : Type 0 where
  event : E → Child E C
  other : C → Child E C

abbrev has_prefix : Str → Str → Bool
has_prefix [] s = true
has_prefix (c ∷ p) [] = false
has_prefix (c ∷ p) (d ∷ s) = eqb c d && has_prefix p s

-- `strings.Contains(s, p)`
unfoldable pub has_substring : Str → Str → Bool
has_substring [] p = has_prefix p []
has_substring (c ∷ s) p = has_prefix p (c ∷ s) || has_substring s p

-- A compiled matcher: the pattern in lower case, or what a regular expression matches.
pub data Matcher : Type 0 where
  substring : Str → Matcher
  regex : (Str → Bool) → Matcher

-- What go-ical and the standard library offer of an event.
pub record Env (E : Type 0) : Type 0 where
  pub props : Props E
  pub to_lower : Str → Str
  pub trim_space : Str → Str
  -- `Format("2006-01-02")`
  pub format_date : Time → Str

pub data FilterMode : Type 0 where
  blacklist whitelist : FilterMode

pub record FilterRule : Type 0 where
  pub matcher : Matcher
  pub fields : List Str
  pub mode : FilterMode

module _ {E : Type 0} (env : Env E) where
  -- The value that is matched: CATEGORIES is a list and is left as it is.
  unfoldable pub field_value : E → Str → Str
  unfolding raw text
  field_value e field =
      if field == str "CATEGORIES" then raw env.props e field else text env.props e field

  abbrev date_of : Option Time → Str
  date_of none = []
  date_of (some t) = env.format_date t

  unfoldable pub start_date : E → Str
  start_date e = date_of (env.props.date_time_start e)

  unfoldable pub matched_event : E → MatchedEvent
  unfolding raw text
  matched_event e = record {
    summary = text env.props e (str "SUMMARY");
    uid = text env.props e (str "UID");
    start = raw env.props e (str "DTSTART");
  }

  unfoldable pub match_string : Matcher → Str → Bool
  unfolding has_substring
  match_string (substring lower) s = has_substring (env.to_lower s) lower
  match_string (regex re) s = re s

  unfoldable matches_in : Matcher → List Str → E → Bool
  unfolding match_string field_value
  matches_in m [] e = false
  matches_in m (f ∷ fs) e = if match_string m (field_value e f) then true else matches_in m fs e

  unfoldable pub rule_matches : FilterRule → E → Bool
  unfolding matches_in
  rule_matches r e = matches_in r.matcher r.fields e

  abbrev kept : FilterMode → Bool → Bool
  kept whitelist matched = matched
  kept blacklist matched = not matched

  -- The keep function of the filter: whether the event stays, and the matches so far, the latest
  -- first.
  unfoldable pub filter_keep : FilterRule → List MatchedEvent → E → Bool × List MatchedEvent
  unfolding matched_event
  filter_keep r ms e =
      let matched = rule_matches r e in
      (kept r.mode matched, if matched then matched_event e ∷ ms else ms)

  unfoldable key_parts : List Str → E → List Str
  unfolding start_date field_value
  key_parts [] e = []
  key_parts (f ∷ fs) e =
      (if f == str "DATE" then start_date e else field_value e f) ∷ key_parts fs e

  abbrev join : List Str → Str
  join [] = []
  join (p ∷ []) = p
  join (p ∷ q ∷ ps) = p ++ 0x1f ∷ join (q ∷ ps)

  -- The key of an event for the dedup rule.
  unfoldable pub dedup_key : List Str → E → Str
  unfolding key_parts
  dedup_key fields e = join (key_parts fields e)

  abbrev keep_unless : Bool → Str → List Str → Bool × List Str
  keep_unless true k seen = (false, seen)
  keep_unless false k seen = (true, k ∷ seen)

  -- The keep function of the dedup rule, with the keys that have been seen.
  unfoldable pub dedup_keep : List Str → List Str → E → Bool × List Str
  dedup_keep fields seen e =
      keep_unless (contains seen (dedup_key fields e)) (dedup_key fields e) seen

module _ {E C S : Type 0} (keep : S → E → Bool × S) where
  abbrev cons_if : Bool → E → List (Child E C) × S → List (Child E C) × S
  cons_if true e (cs, s) = (event e ∷ cs, s)
  cons_if false e r = r

  -- `FilterEvents`, with a keep function that has a state: the other components stay.
  unfoldable pub filter_events : S → List (Child E C) → List (Child E C) × S
  filter_events s [] = ([], s)
  filter_events s (other c ∷ cs) = let (rest, s') = filter_events s cs in (other c ∷ rest, s')
  filter_events s (event e ∷ cs) =
      let (stays, s') = keep s e in cons_if stays e (filter_events s' cs)

module _ {E C : Type 0} (env : Env E) where
  -- `FilterRule.Apply`: the children that are left and the matches, the latest first.
  unfoldable pub apply_filter : FilterRule → List (Child E C) → List (Child E C) × List MatchedEvent
  unfolding filter_events filter_keep
  apply_filter r cs = filter_events (filter_keep env r) [] cs

  -- `DedupRule.Apply`
  unfoldable pub apply_dedup : List Str → List (Child E C) → List (Child E C)
  unfolding filter_events dedup_keep
  apply_dedup fields cs = (filter_events (dedup_keep env fields) [] cs).0

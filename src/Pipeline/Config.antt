-- ===== src/Pipeline/Config.antt =====
-- internal/pipeline/config.go: the stored description of a rule, and the constructors of the rules
-- (rules.go, matcher.go), which refuse what cannot be meant.
use tidy_dav.Prelude.{
  ℕ, ◌*◌, Str, str, Bool, true, false, not, ◌||◌, Option, none, some, List, [], ◌∷◌, ◌++◌, is_empty,
  list_eq, nat_eq, ◌==◌, if◌then◌else◌,
}
use tidy_dav.Prelude.Clock.{second, times}
use tidy_dav.Prelude.Int.{ℤ, pos, ltb_ℤ, leb_ℤ}
use tidy_dav.Prelude.Result.{Result, ok, err, ◌>>=◌, map_err}
use tidy_dav.Notifier.{MatchedEvent}
use tidy_dav.Ics.Duration.{minute}
use tidy_dav.Pipeline.{
  Child, Env, Matcher, substring, regex, FilterMode, blacklist, whitelist, FilterRule,
}
use tidy_dav.Pipeline.Rules.{Regexp, RenameRule, AlarmRule, TimezoneRule, Parts}

pub record RuleConfig : Type 0 where
  pub type : Str
  pub enabled : Option Bool
  pub match_mode : Str
  pub pattern : Str
  pub filter_mode : Str
  pub fields : List Str
  pub field : Str
  pub replacement : Str
  pub key_fields : List Str
  pub target : Str
  pub default_tz : Str
  pub days : ℤ
  pub minutes_before : ℤ
  pub alarm_text : Str

-- What is wrong with the description of a rule.
pub data Error : Type 0 where
  unknown_mode : Str → Error
  empty_pattern : Error
  bad_regex : Str → Error
  not_editable : Str → Error
  no_fields : Error
  bad_timezone : Str → Error
  bad_days : ℤ → Error
  bad_lead : ℤ → Error
  unknown_type : Str → Error
  -- The rule at an index of the list.
  at_rule : ℕ → Error → Error

-- The interfaces `Rule` and `Reporter`: a rule that reports gives the events that it has matched.
pub record Rule (E C : Type 0) : Type 0 where
  pub name : Str
  pub apply : List (Child E C) → Result Str (List (Child E C) × Option (List MatchedEvent))

-- Go's regular expressions.
pub record Compiler : Type 0 where
  pub compile : Str → Result Str Regexp
  pub quote_meta : Str → Str

abbrev pub is_enabled : Option Bool → Bool
is_enabled none = true
is_enabled (some b) = b

unfoldable pub read_mode : Str → Option FilterMode
read_mode m =
    if m == str "blacklist"
    then some blacklist
    else if m == str "whitelist"
    then some whitelist
    else none

abbrev or_default : List Str → List Str → List Str
or_default [] d = d
or_default (f ∷ fs) d = f ∷ fs

abbrev pub default_match_fields : List Str
default_match_fields = str "SUMMARY" ∷ str "DESCRIPTION" ∷ str "LOCATION" ∷ str "CATEGORIES" ∷ []

abbrev pub default_key_fields : List Str
default_key_fields = str "SUMMARY" ∷ str "DATE" ∷ []

abbrev pub reporting :
    {E C : Type 0}
    → List (Child E C) × List MatchedEvent
    → Result Str (List (Child E C) × Option (List MatchedEvent))
reporting (cs, ms) = ok (cs, some ms)

module _ {E : Type 0} (env : Env E) (regexps : Compiler) where
  unfoldable pub normalize_fields : List Str → List Str
  normalize_fields [] = []
  normalize_fields (f ∷ fs) = env.props.to_upper (env.trim_space f) ∷ normalize_fields fs

  abbrev matcher_of : Result Str Regexp → Result Error Matcher
  matcher_of (err e) = err (bad_regex e)
  matcher_of (ok re) = ok (regex re.match_string)

  unfoldable pub new_matcher : Str → Str → Result Error Matcher
  new_matcher mode pattern =
      if mode == str "substring"
      then ok (substring (env.to_lower pattern))
      else if mode == str "regex"
      then matcher_of (regexps.compile pattern)
      else err (unknown_mode mode)

  abbrev filter_rule_of : Option FilterMode → Str → Str → Str → List Str → Result Error FilterRule
  filter_rule_of none mode match_mode pattern fields = err (unknown_mode mode)
  filter_rule_of (some m) mode match_mode pattern fields =
      if is_empty (env.trim_space pattern)
      then err empty_pattern
      else new_matcher match_mode pattern >>= (λ matcher. ok (record {
        matcher = matcher;
        fields = normalize_fields (or_default fields default_match_fields);
        mode = m;
      }))

  unfoldable pub new_filter_rule : Str → Str → Str → List Str → Result Error FilterRule
  unfolding read_mode new_matcher normalize_fields
  new_filter_rule mode match_mode pattern fields =
      filter_rule_of (read_mode mode) mode match_mode pattern fields

  unfoldable pub new_dedup_rule : List Str → List Str
  unfolding normalize_fields
  new_dedup_rule key_fields = normalize_fields (or_default key_fields default_key_fields)

  unfoldable pub is_editable : Str → Bool
  is_editable f = f == str "SUMMARY" || (f == str "DESCRIPTION" || f == str "LOCATION")

  -- The compiled pattern, and whether the replacement is literal.
  unfoldable pub rename_regexp : Str → Str → Result Error (Regexp × Bool)
  rename_regexp mode pattern =
      if mode == str "regex"
      then map_err bad_regex (regexps.compile pattern) >>= (λ re. ok (re, false))
      else if mode == str "substring"
      then map_err bad_regex (regexps.compile (str "(?i)" ++ regexps.quote_meta pattern))
        >>= (λ re. ok (re, true))
      else err (unknown_mode mode)

  unfoldable pub new_rename_rule : Str → Str → Str → Str → Result Error RenameRule
  unfolding is_editable rename_regexp
  new_rename_rule field match_mode pattern replacement =
      let f = env.props.to_upper (env.trim_space field) in
      if not (is_editable f)
      then err (not_editable f)
      else if is_empty (env.trim_space pattern)
      then err empty_pattern
      else rename_regexp match_mode pattern >>= (λ (re, literal).
        ok (record { field = f; re = re; replacement = replacement; literal = literal }))

  unfoldable pub new_strip_rule : List Str → Result Error (List Str)
  unfolding normalize_fields
  new_strip_rule [] = err no_fields
  new_strip_rule (f ∷ fs) = ok (normalize_fields (f ∷ fs))

  unfoldable pub new_alarm_rule : ℤ → Str → Result Error AlarmRule
  new_alarm_rule minutes_before text =
      if ltb_ℤ minutes_before (pos 0)
      then err (bad_lead minutes_before)
      else ok (record { lead = times minute minutes_before; text = env.trim_space text })

  -- The first argument says whether there are no days.
  abbrev pub expire_unless : Bool → ℤ → Result Error ℤ
  expire_unless true days = err (bad_days days)
  expire_unless false days = ok (times (24 * 3600 * second) days)

  -- `NewExpireRule`: the greatest age, a product that wraps around.
  unfoldable pub new_expire_rule : ℤ → Result Error ℤ
  new_expire_rule days = expire_unless (leb_ℤ days (pos 0)) days

module _ {E K L : Type 0} (env : Env E) (parts : Parts E K L) (regexps : Compiler) where
  unfoldable pub new_timezone_rule : Str → Str → Result Error (TimezoneRule L)
  new_timezone_rule target default_tz =
      map_err bad_timezone (parts.load_location target) >>= (λ loc.
        if is_empty default_tz
        then ok (record { target = loc; floating = loc })
        else map_err bad_timezone (parts.load_location default_tz)
          >>= (λ floating. ok (record { target = loc; floating = floating })))

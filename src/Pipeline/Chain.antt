-- ===== src/Pipeline/Chain.antt =====
-- internal/pipeline/config.go: building the rules of a feed from their stored description, and the
-- pipeline over them (pipeline.go).
pub mod Build
pub mod Total
mod Tests
use mathlib.Core.List.{reverse}
use tidy_dav.Prelude.{
  ℕ, ◌+◌, ◌*◌, ◌≡◌, Str, str, Bool, true, false, not, ◌&&◌, ◌||◌, Option, none, some, List, [], ◌∷◌,
  ◌++◌, is_empty, list_eq, nat_eq, ◌==◌, map, if◌then◌else◌,
}
use tidy_dav.Prelude.Clock.{second, times}
use tidy_dav.Prelude.Int.{ℤ, pos, ltb_ℤ, leb_ℤ}
use tidy_dav.Prelude.Result.{Result, ok, err, ◌>>=◌, map_err}
use tidy_dav.Notifier.{MatchedEvent, RuleMatch}
use tidy_dav.Ics.Duration.{minute}
use tidy_dav.Pipeline.{
  Child, Env, Matcher, substring, regex, FilterMode, blacklist, whitelist, FilterRule, apply_filter,
  apply_dedup,
}
use tidy_dav.Pipeline.Config.{
  RuleConfig, Error, unknown_type, at_rule, Rule, Compiler, is_enabled, reporting, new_filter_rule,
  new_dedup_rule, new_rename_rule, new_strip_rule, new_timezone_rule, new_alarm_rule,
  new_expire_rule,
}
use tidy_dav.Pipeline.Rules.{
  Regexp, RenameRule, AlarmRule, TimezoneRule, Parts, map_events, map_changed, rename_event,
  strip_event, alarm_event, convert_event, apply_expire,
}

-- The value of `RuleConfig.Type`.
pub data Kind : Type 0 where
  filter dedup rename strip timezone expire alarm : Kind

unfoldable pub read_kind : Str → Option Kind
read_kind t =
    if t == str "filter"
    then some filter
    else if t == str "dedup"
    then some dedup
    else if t == str "rename"
    then some rename
    else if t == str "strip"
    then some strip
    else if t == str "timezone"
    then some timezone
    else if t == str "expire"
    then some expire
    else if t == str "alarm"
    then some alarm
    else none

abbrev pub as_rule : {A E C : Type 0} → (A → Rule E C) → Result Error A → Result Error (Rule E C)
as_rule f (ok a) = ok (f a)
as_rule f (err e) = err e

module _ {E C K L : Type 0} (env : Env E) (parts : Parts E K L) (regexps : Compiler) where
  -- The rules as values of the interface: none of them returns an error.
  unfoldable pub filter_rule : FilterRule → Rule E C
  filter_rule r = record {
    name = str "filter";
    apply = λ cs. let (cs', ms) = apply_filter env r cs in reporting (cs', reverse ms);
  }

  unfoldable pub dedup_rule : List Str → Rule E C
  dedup_rule fields = record {
    name = str "dedup";
    apply = λ cs. ok (apply_dedup env fields cs, none);
  }

  unfoldable pub rename_rule : RenameRule → Rule E C
  rename_rule r = record {
    name = str "rename";
    apply = λ cs. reporting (map_changed (rename_event env r) cs);
  }

  unfoldable pub strip_rule : List Str → Rule E C
  strip_rule fields = record {
    name = str "strip";
    apply = λ cs. ok (map_events (strip_event env fields) cs, none);
  }

  unfoldable pub timezone_rule : TimezoneRule L → Rule E C
  timezone_rule r = record {
    name = str "timezone";
    apply = λ cs. ok (map_events (convert_event env parts r) cs, none);
  }

  unfoldable pub expire_rule : ℤ → Rule E C
  expire_rule max_age = record {
    name = str "expire";
    apply = λ cs. ok (apply_expire env parts max_age cs, none);
  }

  unfoldable pub alarm_rule : AlarmRule → Rule E C
  alarm_rule r = record {
    name = str "alarm";
    apply = λ cs. ok (map_events (alarm_event env parts r) cs, none);
  }

  unfoldable pub build_kind : Option Kind → RuleConfig → Result Error (Rule E C)
  unfolding filter_rule dedup_rule rename_rule strip_rule timezone_rule expire_rule alarm_rule
  build_kind none c = err (unknown_type c.type)
  build_kind (some filter) c =
      as_rule filter_rule
        (new_filter_rule env regexps c.filter_mode c.match_mode c.pattern c.fields)
  build_kind (some dedup) c = ok (dedup_rule (new_dedup_rule env regexps c.key_fields))
  build_kind (some rename) c =
      as_rule rename_rule (new_rename_rule env regexps c.field c.match_mode c.pattern c.replacement)
  build_kind (some strip) c = as_rule strip_rule (new_strip_rule env regexps c.fields)
  build_kind (some timezone) c =
      as_rule timezone_rule (new_timezone_rule env parts regexps c.target c.default_tz)
  build_kind (some expire) c = as_rule expire_rule (new_expire_rule env regexps c.days)
  build_kind (some alarm) c =
      as_rule alarm_rule (new_alarm_rule env regexps c.minutes_before c.alarm_text)

  unfoldable pub build_rule : RuleConfig → Result Error (Rule E C)
  unfolding build_kind read_kind
  build_rule c = build_kind (read_kind c.type) c

  unfoldable pub add_rule :
      ℕ → Result Error (Rule E C) → Result Error (List (Rule E C)) → Result Error (List (Rule E C))
  add_rule i (err e) rest = err (at_rule i e)
  add_rule i (ok r) (err e) = err e
  add_rule i (ok r) (ok rs) = ok (r ∷ rs)

  -- One round of the loop: the first argument says whether the rule is enabled.
  unfoldable pub build_one :
      Bool → ℕ → RuleConfig → Result Error (List (Rule E C)) → Result Error (List (Rule E C))
  unfolding add_rule
  build_one false i c rest = rest
  build_one true i c rest = add_rule i (build_rule c) rest

  unfoldable pub build_from : ℕ → List RuleConfig → Result Error (List (Rule E C))
  unfolding build_one
  build_from i [] = ok []
  build_from i (c ∷ cs) = build_one (is_enabled c.enabled) i c (build_from (i + 1) cs)

  unfoldable pub build_pipeline : List RuleConfig → Result Error (List (Rule E C))
  unfolding build_from
  build_pipeline configs = build_from 0 configs

-- The error of a rule, with its name.
pub record RuleError : Type 0 where
  pub rule : Str
  pub message : Str

abbrev pub Report : Type 0
Report = Str × Option (List MatchedEvent)

abbrev pub Applied : Type 0 → Type 0 → Type 0
Applied E C = Result RuleError (List (Child E C) × List Report)

module _ {E C : Type 0} where
  abbrev pub with_report : Report → Applied E C → Applied E C
  with_report r (err e) = err e
  with_report r (ok (cs, rs)) = ok (cs, r ∷ rs)

  unfoldable pub apply_next :
      Str
      → (List (Child E C) → Applied E C)
      → Result Str (List (Child E C) × Option (List MatchedEvent))
      → Applied E C
  apply_next name rest (err e) = err (record { rule = name; message = e })
  apply_next name rest (ok (cs, m)) = with_report (name, m) (rest cs)

  -- `Pipeline.Apply`: the calendar, and what each rule has matched.
  unfoldable pub apply_rules : List (Rule E C) → List (Child E C) → Applied E C
  unfolding apply_next
  apply_rules [] cs = ok (cs, [])
  apply_rules (r ∷ rs) cs = apply_next r.name (apply_rules rs) (r.apply cs)

-- `Pipeline.Matches`
unfoldable pub matches : List Report → List RuleMatch
matches [] = []
matches ((name, none) ∷ rs) = matches rs
matches ((name, some []) ∷ rs) = matches rs
matches ((name, some (m ∷ ms)) ∷ rs) = record { rule = name; events = m ∷ ms } ∷ matches rs

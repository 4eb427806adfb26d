-- ===== src/Pipeline/Chain/Tests.antt =====
-- internal/pipeline: building rules, the alarm rule and the expire rule, on events that are the list of
-- their components; a component is whether it is an alarm.
use tidy_dav.Prelude.{
  ℕ, ◌+◌, ◌*◌, ◌≡◌, ◌⊎◌, refl, Str, str, Bool, true, false, none, some, List, [], ◌∷◌, arith,
  list_eq, nat_eq,
}
use tidy_dav.Prelude.Int.{pos, negsuc}
use tidy_dav.Prelude.Clock.{second}
use tidy_dav.Prelude.Result.{ok, err}
use tidy_dav.Ics.Recurrence
use tidy_dav.Ics.Recurrence.{last_occurrence}
use tidy_dav.Pipeline.{Child, event, Env}
use tidy_dav.Pipeline.Rules.{Parts, AlarmRule, alarm_event, apply_expire}
use tidy_dav.Pipeline.Rules.Alarms.{others, IsParts, count_alarms, alarm_event-one}
use tidy_dav.Pipeline.Rules.Expiry.{day, is_recent, apply_expire-only}
use tidy_dav.Pipeline.Filter.{only}
use tidy_dav.Pipeline.Config.{
  RuleConfig, Error, unknown_type, at_rule, Rule, Compiler, new_expire_rule, new_dedup_rule,
}
use tidy_dav.Pipeline.Chain.{Report, read_kind, build_kind, build_rule, build_pipeline, apply_rules}
use tidy_dav.Pipeline.Chain.Build.{AreBuilt, IsRefused}
use tidy_dav.Pipeline.Chain.Total.{build_pipeline-total}

abbrev env : Env (List Bool)
env = record {
  props = record {
    get = λ e f. none;
    set_text = λ e f v. e;
    del = λ e f. e;
    date_time_start = λ e. some (200000 * day);
    date_time_end = λ e. some (200000 * day + second);
    to_upper = λ s. s;
  };
  to_lower = λ s. s;
  trim_space = λ s. s;
  format_date = λ t. [];
}

abbrev recurrence : Recurrence.Env
recurrence = record { trim_space = λ s. s; equal_fold = λ s t. false; parse = λ layout s. none }

abbrev parts : Parts (List Bool) Bool Str
parts = record {
  children = λ e. e;
  set_children = λ e ks. ks;
  is_alarm = λ k. k;
  to_component = λ a. true;
  get_prop = λ e f. none;
  set_prop = λ e f p. e;
  date_time = λ p l. none;
  dated = λ f t l. record { value = []; params = [] };
  load_location = λ s. ok s;
  recurrence = recurrence;
  now = 200000 * day;
}

abbrev regexps : Compiler
regexps = record { compile = λ s. err s; quote_meta = λ s. s }

abbrev config : RuleConfig
config = record {
  type = str "dedup";
  enabled = none;
  match_mode = [];
  pattern = [];
  filter_mode = [];
  fields = [];
  field = [];
  replacement = [];
  key_fields = [];
  target = [];
  default_tz = [];
  days = pos 0;
  minutes_before = pos 0;
  alarm_text = [];
}

abbrev configs : List RuleConfig
configs =
    record config { type = str "nothing"; enabled = some false }
    ∷ config
    ∷ record config { type = str "other" }
    ∷ []

-- A rule that is off is not looked at, but it counts.
refused :
    build_pipeline {C = ℕ} env parts regexps configs ≡ err (at_rule 2 (unknown_type (str "other")))
unfolding build_pipeline build_rule build_kind read_kind new_dedup_rule list_eq nat_eq
refused = refl

abbrev events : List (Child (List Bool) ℕ)
events = event [] ∷ []

-- An event that ends a second after now, and an age of 200000 days: the age is negative.
overflow : new_expire_rule env regexps (pos 200000) ≡ ok (negsuc 1166744073709551615)
unfolding new_expire_rule
overflow = refl

dropped : apply_expire env parts (negsuc 1166744073709551615) events ≡ []
unfolding apply_expire last_occurrence
dropped = refl

build_pipeline-total_example :
    ((rs : List (Rule (List Bool) ℕ)) × (build_pipeline env parts regexps configs ≡ ok rs)
      × AreBuilt (build_rule env parts regexps) configs rs
      × ((cs : List (Child (List Bool) ℕ))
          → (out : List (Child (List Bool) ℕ)) × (reports : List Report) × (apply_rules rs cs
              ≡ ok (out, reports))))
    ⊎ ((i : ℕ) × (e : Error) × (build_pipeline {C = ℕ} env parts regexps configs
          ≡ err (at_rule i e))
        × IsRefused {R = Rule (List Bool) ℕ} (build_rule env parts regexps) configs i e)
build_pipeline-total_example = build_pipeline-total env parts regexps configs

laws : IsParts env parts
laws = record {
  children-set_children = λ e ks. refl;
  set_children-set_children = λ e ks ls. refl;
  get-set_children = λ e ks f. refl;
  is_alarm-to_component = λ a. refl;
}

abbrev rule : AlarmRule
rule = record { lead = pos second; text = [] }

alarm_event-one_example :
    (count_alarms env parts (alarm_event env parts rule (true ∷ false ∷ true ∷ [])) ≡ 1)
    × (others env parts (alarm_event env parts rule (true ∷ false ∷ true ∷ []))
        ≡ others env parts (true ∷ false ∷ true ∷ []))
    × (alarm_event env parts rule (alarm_event env parts rule (true ∷ false ∷ true ∷ []))
        ≡ alarm_event env parts rule (true ∷ false ∷ true ∷ []))
alarm_event-one_example = alarm_event-one env parts laws rule (true ∷ false ∷ true ∷ [])

apply_expire-only_example :
    (max_age : _) × (new_expire_rule env regexps (pos 30) ≡ ok max_age)
    × (apply_expire env parts max_age events
        ≡ only (λ e. is_recent (200000 * day) 30 (last_occurrence recurrence env.props e)) events)
apply_expire-only_example =
    apply_expire-only env parts regexps 30 events (omega arith) (omega arith)

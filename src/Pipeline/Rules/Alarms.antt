-- ===== src/Pipeline/Rules/Alarms.antt =====
-- internal/pipeline/rules.go: what the alarm rule leaves of an event.
use mathlib.Core.Bool.{Bool-discrete}
use mathlib.Core.List.{filter}
use mathlib.Core.Path.{ap₂}
use tidy_dav.Prelude.{
  ℕ, ◌+◌, ◌≡◌, refl, sym, Str, str, true, false, List, [], ◌∷◌, ◌++◌, arith, if◌then◌else◌, ap, ◌∙◌,
}
use tidy_dav.Ics.{text}
use tidy_dav.Pipeline.{Env}
use tidy_dav.Pipeline.Rules.{
  Parts, Alarm, AlarmRule, build_alarm, without_alarms, alarm_text, alarm_event,
}

-- What go-ical keeps of the components of an event.
pub record IsParts {E K L : Type 0} (env : Env E) (parts : Parts E K L) : Type 0 where
  pub children-set_children : (e : E) (ks : List K) → parts.children (parts.set_children e ks) ≡ ks
  pub set_children-set_children :
      (e : E) (ks ls : List K)
      → parts.set_children (parts.set_children e ks) ls ≡ parts.set_children e ls
  pub get-set_children :
      (e : E) (ks : List K) (f : Str)
      → env.props.get (parts.set_children e ks) f ≡ env.props.get e f
  pub is_alarm-to_component : (a : Alarm) → parts.is_alarm (parts.to_component a) ≡ true

module _ {E K L : Type 0} (env : Env E) (parts : Parts E K L) where
  abbrev pub count_alarms : List K → ℕ
  count_alarms [] = 0
  count_alarms (k ∷ ks) = let rest = count_alarms ks in if parts.is_alarm k then 1 + rest else rest

  -- The components that are no alarms, in their order.
  abbrev pub others : List K → List K
  others = filter (λ k. Bool-discrete (parts.is_alarm k) false)

  without_alarms-others : (ks : List K) → without_alarms env parts ks ≡ others ks
  unfolding without_alarms
  without_alarms-others [] = refl
  without_alarms-others (k ∷ ks) = ground (arith, without_alarms-others ks)

  count_alarms-added :
      (ks : List K) (k : K)
      → parts.is_alarm k ≡ true
      → count_alarms (without_alarms env parts ks ++ k ∷ []) ≡ 1
  unfolding without_alarms
  count_alarms-added [] k h = rw h refl
  count_alarms-added (j ∷ ks) k h = ground (arith, count_alarms-added ks k h)

  without_alarms-added :
      (ks : List K) (k : K)
      → parts.is_alarm k ≡ true
      → without_alarms env parts (without_alarms env parts ks ++ k ∷ [])
        ≡ without_alarms env parts ks
  unfolding without_alarms
  without_alarms-added [] k h = rw h refl
  without_alarms-added (j ∷ ks) k h = ground (arith, without_alarms-added ks k h)

module _ {E K L : Type 0} (env : Env E) (parts : Parts E K L) (laws : IsParts env parts)
    (r : AlarmRule) where
  alarm_text-set_children :
      (e : E) (ks : List K)
      → alarm_text env parts r (parts.set_children e ks) ≡ alarm_text env parts r e
  unfolding alarm_text text
  alarm_text-set_children e ks = rw (laws.get-set_children e ks (str "SUMMARY")) refl

  abbrev added : E → K
  added e = parts.to_component (build_alarm r.lead (alarm_text env parts r e))

  added-IsAlarm : (e : E) → parts.is_alarm (added e) ≡ true
  added-IsAlarm e = laws.is_alarm-to_component _

  abbrev changed : E → List K
  changed e = without_alarms env parts (parts.children e) ++ added e ∷ []

  alarm_event-children : (e : E) → parts.children (alarm_event env parts r e) ≡ changed e
  unfolding alarm_event
  alarm_event-children e = laws.children-set_children e _

  changed-again : (e : E) → changed (parts.set_children e (changed e)) ≡ changed e
  changed-again e =
      ap₂ (λ ks k. ks ++ k ∷ [])
        (ap (without_alarms env parts) (laws.children-set_children e (changed e))
          ∙ without_alarms-added env parts (parts.children e) (added e) (added-IsAlarm e))
        (ap (λ t. parts.to_component (build_alarm r.lead t))
          (alarm_text-set_children e (changed e)))

  alarm_event-again :
      (e : E) → alarm_event env parts r (alarm_event env parts r e) ≡ alarm_event env parts r e
  unfolding alarm_event
  alarm_event-again e =
      ap (parts.set_children (parts.set_children e (changed e))) (changed-again e)
      ∙ laws.set_children-set_children e (changed e) (changed e)

-- If the components of an event are those that were set last, setting them leaves its fields alone and
-- an alarm that is built is one, then after the alarm rule an event has one alarm, whatever alarms it
-- had, and all its other components in their order; applying the rule again changes nothing.
pub alarm_event-one :
    {E K L : Type 0} (env : Env E) (parts : Parts E K L) (laws : IsParts env parts) (r : AlarmRule)
    (e : E)
    → (count_alarms env parts (parts.children (alarm_event env parts r e)) ≡ 1)
      × (others env parts (parts.children (alarm_event env parts r e))
          ≡ others env parts (parts.children e))
      × (alarm_event env parts r (alarm_event env parts r e) ≡ alarm_event env parts r e)
alarm_event-one env parts laws r e = (
  rw (alarm_event-children env parts laws r e)
      (count_alarms-added env parts (parts.children e) _ (added-IsAlarm env parts laws r e)),
  sym (without_alarms-others env parts _)
      ∙ ap (without_alarms env parts) (alarm_event-children env parts laws r e)
      ∙ without_alarms-added env parts (parts.children e) _ (added-IsAlarm env parts laws r e)
      ∙ without_alarms-others env parts (parts.children e),
  alarm_event-again env parts laws r e,
)

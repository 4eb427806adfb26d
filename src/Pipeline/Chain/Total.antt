-- ===== src/Pipeline/Chain/Total.antt =====
-- internal/pipeline: the rules that are built never fail.
use tidy_dav.Prelude.{ℕ, ◌≡◌, ◌⊎◌, refl, subst, Option, none, some, List, [], ◌∷◌, inl, inr, All}
use tidy_dav.Prelude.Result.{Result, ok, err}
use tidy_dav.Notifier.{MatchedEvent}
use tidy_dav.Pipeline.{Child, Env}
use tidy_dav.Pipeline.Rules.{Parts}
use tidy_dav.Pipeline.Config.{RuleConfig, Error, at_rule, Rule, Compiler}
use tidy_dav.Pipeline.Chain.{
  Kind, filter, dedup, rename, strip, timezone, expire, alarm, filter_rule, dedup_rule, rename_rule,
  strip_rule, timezone_rule, expire_rule, alarm_rule, as_rule, build_kind, build_rule,
  build_pipeline, Report, apply_next, apply_rules,
}
use tidy_dav.Pipeline.Chain.Build.{AreBuilt, IsRefused, build_pipeline-Outcome}

module _ {E C : Type 0} where
  -- The rule gives a calendar whatever it is given.
  abbrev IsTotal : Rule E C → Type 0
  IsTotal r =
      (cs : List (Child E C))
      → (out : List (Child E C)) × (m : Option (List MatchedEvent)) × (r.apply cs ≡ ok (out, m))

  apply_rules-total :
      (rs : List (Rule E C)) (cs : List (Child E C))
      → All IsTotal rs
      → (out : List (Child E C)) × (reports : List Report) × (apply_rules rs cs ≡ ok (out, reports))
  unfolding apply_rules apply_next
  apply_rules-total [] cs t = (cs, [], refl)
  apply_rules-total (r ∷ rs) cs (t, ts) =
      let (next, m, e) = t cs in
      let (out, reports, e') = apply_rules-total rs next ts in
      (out, (r.name, m) ∷ reports, rw (e, e') refl)

  as_rule-IsTotal :
      {A : Type 0} (f : A → Rule E C) (res : Result Error A) (r : Rule E C)
      → ((a : A) → IsTotal (f a))
      → as_rule f res ≡ ok r
      → IsTotal r
  as_rule-IsTotal f (ok a) r t e = let same : f a ≡ r = cc in subst IsTotal same (t a)
  as_rule-IsTotal f (err x) r t e = cc

  is-IsTotal :
      (s r : Rule E C)
      → IsTotal s
      → let built : Result Error (Rule E C) = ok s in built ≡ ok r → IsTotal r
  is-IsTotal s r t e = let same : s ≡ r = cc in subst IsTotal same t

module _ {E C K L : Type 0} (env : Env E) (parts : Parts E K L) (regexps : Compiler) where
  build_kind-IsTotal :
      (k : Option Kind) (c : RuleConfig) (r : Rule E C)
      → build_kind env parts regexps k c ≡ ok r
      → IsTotal r
  unfolding build_kind filter_rule dedup_rule rename_rule strip_rule timezone_rule expire_rule
      alarm_rule
  build_kind-IsTotal none c r e = cc
  build_kind-IsTotal (some filter) c r e =
      as_rule-IsTotal (filter_rule env parts regexps) _ r (λ a cs. (_, _, refl)) e
  build_kind-IsTotal (some dedup) c r e = is-IsTotal _ r (λ cs. (_, _, refl)) e
  build_kind-IsTotal (some rename) c r e =
      as_rule-IsTotal (rename_rule env parts regexps) _ r (λ a cs. (_, _, refl)) e
  build_kind-IsTotal (some strip) c r e =
      as_rule-IsTotal (strip_rule env parts regexps) _ r (λ a cs. (_, _, refl)) e
  build_kind-IsTotal (some timezone) c r e =
      as_rule-IsTotal (timezone_rule env parts regexps) _ r (λ a cs. (_, _, refl)) e
  build_kind-IsTotal (some expire) c r e =
      as_rule-IsTotal (expire_rule env parts regexps) _ r (λ a cs. (_, _, refl)) e
  build_kind-IsTotal (some alarm) c r e =
      as_rule-IsTotal (alarm_rule env parts regexps) _ r (λ a cs. (_, _, refl)) e

  AreBuilt-IsTotal :
      (cs : List RuleConfig) (rs : List (Rule E C))
      → AreBuilt (build_rule env parts regexps) cs rs
      → All IsTotal rs
  unfolding build_rule
  AreBuilt-IsTotal [] [] h = tt
  AreBuilt-IsTotal [] (r ∷ rs) h = absurd h
  AreBuilt-IsTotal (c ∷ cs) [] h = tt
  AreBuilt-IsTotal (c ∷ cs) (r ∷ rs) (inl (on, built, h)) =
      (build_kind-IsTotal _ c r built, AreBuilt-IsTotal cs rs h)
  AreBuilt-IsTotal (c ∷ cs) (r ∷ rs) (inr (off, h)) = AreBuilt-IsTotal cs (r ∷ rs) h

  built-total :
      (configs : List RuleConfig) (rs : List (Rule E C))
      → AreBuilt (build_rule env parts regexps) configs rs
      → (cs : List (Child E C))
      → (out : List (Child E C)) × (reports : List Report) × (apply_rules rs cs ≡ ok (out, reports))
  built-total configs rs h cs = apply_rules-total rs cs (AreBuilt-IsTotal configs rs h)

-- Building a pipeline gives the rules of the enabled descriptions, in their order and each built by
-- its own description, and then the pipeline comes through on every calendar without an error; or
-- it gives the error of the first enabled description that cannot be built, with its index in the
-- whole list.
pub build_pipeline-total :
    {E C K L : Type 0} (env : Env E) (parts : Parts E K L) (regexps : Compiler)
    (configs : List RuleConfig)
    → ((rs : List (Rule E C)) × (build_pipeline env parts regexps configs ≡ ok rs)
        × AreBuilt (build_rule env parts regexps) configs rs
        × ((cs : List (Child E C))
            → (out : List (Child E C)) × (reports : List Report) × (apply_rules rs cs
                ≡ ok (out, reports))))
      ⊎ ((i : ℕ) × (e : Error) × (build_pipeline {C = C} env parts regexps configs
            ≡ err (at_rule i e))
          × IsRefused {R = Rule E C} (build_rule env parts regexps) configs i e)
build_pipeline-total {C} env parts regexps configs =
    elim (build_pipeline-Outcome {C = C} env parts regexps configs) [
      | inl (rs, e, h) ↦ inl (rs, e, h, built-total env parts regexps configs rs h)
      | inr refused ↦ inr refused
    ]

-- ===== src/Pipeline/Chain/Build.antt =====
-- internal/pipeline/config.go: what a pipeline is built of, and which rule is refused.
use tidy_dav.Prelude.{
  ℕ, zero, suc, ◌+◌, ◌≡◌, ◌⊎◌, refl, Bool, true, false, List, [], ◌∷◌, arith, inl, inr,
}
use tidy_dav.Prelude.Result.{Result, ok, err, Result-cases}
use tidy_dav.Pipeline.{Env}
use tidy_dav.Pipeline.Rules.{Parts}
use tidy_dav.Pipeline.Config.{RuleConfig, Error, at_rule, Rule, Compiler, is_enabled}
use tidy_dav.Pipeline.Chain.{build_rule, add_rule, build_one, build_from, build_pipeline}

-- The rules of a list of descriptions, where the build of a rule is given: one for each that is
-- enabled, in their order.
abbrev pub AreBuilt :
    {R : Type 0} → (RuleConfig → Result Error R) → List RuleConfig → List R → Type 0
AreBuilt build [] [] = Unit
AreBuilt build [] (r ∷ rs) = ⊥
AreBuilt build (c ∷ cs) [] = (is_enabled c.enabled ≡ false) × AreBuilt build cs []
AreBuilt build (c ∷ cs) (r ∷ rs) =
    ((is_enabled c.enabled ≡ true) × (build c ≡ ok r) × AreBuilt build cs rs)
    ⊎ ((is_enabled c.enabled ≡ false) × AreBuilt build cs (r ∷ rs))

-- The description at an index is enabled and cannot be built, with the error; those before it are
-- disabled or can be built.
abbrev pub IsRefused :
    {R : Type 0} → (RuleConfig → Result Error R) → List RuleConfig → ℕ → Error → Type 0
IsRefused build [] i e = ⊥
IsRefused build (c ∷ cs) zero e = (is_enabled c.enabled ≡ true) × (build c ≡ err e)
IsRefused {R} build (c ∷ cs) (suc i) e =
    ((is_enabled c.enabled ≡ false) ⊎ ((r : R) × (build c ≡ ok r))) × IsRefused build cs i e

-- What a build of the list, whose first index is `k`, comes to.
abbrev Outcome :
    {R : Type 0}
    → (RuleConfig → Result Error R)
    → ℕ
    → List RuleConfig
    → Result Error (List R)
    → Type 0
Outcome {R} build k cs result =
    ((rs : List R) × (result ≡ ok rs) × AreBuilt build cs rs)
    ⊎ ((i : ℕ) × (e : Error) × (result ≡ err (at_rule (k + i) e)) × IsRefused build cs i e)

module _ {E C K L : Type 0} (env : Env E) (parts : Parts E K L) (regexps : Compiler) where
  abbrev build : RuleConfig → Result Error (Rule E C)
  build = build_rule env parts regexps

  AreBuilt-skip :
      (c : RuleConfig) (cs : List RuleConfig) (rs : List (Rule E C))
      → is_enabled c.enabled ≡ false
      → AreBuilt build cs rs
      → AreBuilt build (c ∷ cs) rs
  AreBuilt-skip c cs [] off h = (off, h)
  AreBuilt-skip c cs (r ∷ rs) off h = inr (off, h)

  Outcome-off :
      (k : ℕ) (c : RuleConfig) (cs : List RuleConfig) (rest : Result Error (List (Rule E C)))
      → is_enabled c.enabled ≡ false
      → Outcome build (k + 1) cs rest
      → Outcome build k (c ∷ cs) (build_one env parts regexps false k c rest)
  unfolding build_one
  Outcome-off k c cs rest off (inl (rs, e, h)) = inl (rs, e, AreBuilt-skip c cs rs off h)
  Outcome-off k c cs rest off (inr (i, e, eq, h)) =
      let index : k + 1 + i ≡ k + suc i = omega arith in
      inr (suc i, e, rw (← index) eq, (inl off, h))

  Outcome-built :
      (k : ℕ) (c : RuleConfig) (cs : List RuleConfig) (rest : Result Error (List (Rule E C)))
      (r : Rule E C)
      → is_enabled c.enabled ≡ true
      → build c ≡ ok r
      → Outcome build (k + 1) cs rest
      → Outcome build k (c ∷ cs) (build_one env parts regexps true k c rest)
  unfolding build_one add_rule
  Outcome-built k c cs rest r on built (inl (rs, e, h)) =
      inl (r ∷ rs, rw (built, e) refl, inl (on, built, h))
  Outcome-built k c cs rest r on built (inr (i, e, eq, h)) =
      let index : k + 1 + i ≡ k + suc i = omega arith in
      inr (suc i, e, rw (built, eq, index) refl, (inr (r, built), h))

  Outcome-refused :
      (k : ℕ) (c : RuleConfig) (cs : List RuleConfig) (rest : Result Error (List (Rule E C)))
      (e : Error)
      → is_enabled c.enabled ≡ true
      → build c ≡ err e
      → Outcome build k (c ∷ cs) (build_one env parts regexps true k c rest)
  unfolding build_one add_rule
  Outcome-refused k c cs rest e on failed =
      let index : k + 0 ≡ k = omega arith in inr (0, e, rw (failed, index) refl, (on, failed))

  Outcome-step :
      (k : ℕ) (c : RuleConfig) (cs : List RuleConfig) (rest : Result Error (List (Rule E C)))
      (on : Bool)
      → is_enabled c.enabled ≡ on
      → Outcome build (k + 1) cs rest
      → Outcome build k (c ∷ cs) (build_one env parts regexps on k c rest)
  Outcome-step k c cs rest false off h = Outcome-off k c cs rest off h
  Outcome-step k c cs rest true on h = elim (Result-cases (build c)) [
    | inl (r, built) ↦ Outcome-built k c cs rest r on built h
    | inr (e, failed) ↦ Outcome-refused k c cs rest e on failed
  ]

  build_from-Outcome :
      (k : ℕ) (cs : List RuleConfig) → Outcome build k cs (build_from env parts regexps k cs)
  unfolding build_from
  build_from-Outcome k [] = inl ([], refl, tt)
  build_from-Outcome k (c ∷ cs) =
      Outcome-step k c cs _ (is_enabled c.enabled) refl (build_from-Outcome (k + 1) cs)

-- Building a pipeline gives the rules of the enabled descriptions, in their order and each built by
-- its own description, or the error of the first enabled description that cannot be built, with
-- its index in the whole list.
pub build_pipeline-Outcome :
    {E C K L : Type 0} (env : Env E) (parts : Parts E K L) (regexps : Compiler)
    (cs : List RuleConfig)
    → ((rs : List (Rule E C)) × (build_pipeline env parts regexps cs ≡ ok rs)
        × AreBuilt (build_rule env parts regexps) cs rs)
      ⊎ ((i : ℕ) × (e : Error) × (build_pipeline {C = C} env parts regexps cs ≡ err (at_rule i e))
          × IsRefused {R = Rule E C} (build_rule env parts regexps) cs i e)
unfolding build_pipeline
build_pipeline-Outcome {C} env parts regexps cs =
    elim (build_from-Outcome {C = C} env parts regexps 0 cs) [
      | inl built ↦ inl built
      | inr (i, e, eq, h) ↦ let index : 0 + i ≡ i = omega arith in inr (i, e, rw (← index) eq, h)
    ]

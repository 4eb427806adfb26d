-- ===== src/Pipeline/Rules/Expiry.antt =====
-- internal/pipeline/rules.go: which events the expire rule keeps.
use tidy_dav.Prelude.{
  ℕ, ◌+◌, ◌*◌, ◌^◌, ◌≡◌, ◌<◌, refl, ◌∙◌, Bool, true, false, Option, none, some, List, [], ◌∷◌, leb,
  arith,
}
use tidy_dav.Prelude.Clock.{Time, second, times, times-pos}
use tidy_dav.Prelude.Int.{ℤ, pos, leb_ℤ, minus}
use tidy_dav.Prelude.Result.{ok}
use tidy_dav.Ics.Recurrence.{last_occurrence}
use tidy_dav.Pipeline.{Child, event, other, Env, filter_events}
use tidy_dav.Pipeline.Filter.{only, cons_if-children}
use tidy_dav.Pipeline.Rules.{Parts, expire_keep, apply_expire, not_before}
use tidy_dav.Pipeline.Config.{Compiler, new_expire_rule}

abbrev pub day : ℕ
day = 24 * 3600 * second

-- Not more than so many days have passed since the end, if there is one.
abbrev pub is_recent : Time → ℕ → Option Time → Bool
is_recent now days none = true
is_recent now days (some end) = leb now (end + day * days)

module _ {E K L : Type 0} (env : Env E) (parts : Parts E K L) where
  expire_events-only :
      {C : Type 0} (cutoff : Time) (cs : List (Child E C))
      → (filter_events (expire_keep env parts cutoff) tt cs).0
        ≡ only (λ e. not_before env parts cutoff (last_occurrence parts.recurrence env.props e)) cs
  unfolding filter_events expire_keep
  expire_events-only cutoff [] = refl
  expire_events-only cutoff (other c ∷ cs) = rw (expire_events-only cutoff cs) refl
  expire_events-only cutoff (event e ∷ cs) =
      rw (cons_if-children (expire_keep env parts cutoff), expire_events-only cutoff cs) refl

  only-same :
      {C : Type 0} (p q : E → Bool) (cs : List (Child E C))
      → ((e : E) → p e ≡ q e)
      → only p cs ≡ only q cs
  only-same p q [] h = refl
  only-same p q (other c ∷ cs) h = rw (only-same p q cs h) refl
  only-same p q (event e ∷ cs) h = rw (h e, only-same p q cs h) refl

  not_before-recent :
      (days : ℕ) (end : Option Time)
      → not_before env parts (minus parts.now (pos (day * days))) end ≡ is_recent parts.now days end
  not_before-recent days none = refl
  not_before-recent days (some end) = ground arith

-- With a number of days whose nanoseconds fit in 63 bits, the expire rule can be built, and it
-- keeps all other components and just the events whose last occurrence has no end, or ended at
-- most so many days ago, in their order.
pub apply_expire-only :
    {E C K L : Type 0} (env : Env E) (parts : Parts E K L) (regexps : Compiler) (days : ℕ)
    (cs : List (Child E C))
    → 0 < days
    → day * days < 2 ^ 63
    → (max_age : ℤ) × (new_expire_rule env regexps (pos days) ≡ ok max_age)
      × (apply_expire env parts max_age cs
          ≡ only (λ e. is_recent parts.now days (last_occurrence parts.recurrence env.props e)) cs)
unfolding new_expire_rule apply_expire
apply_expire-only env parts regexps days cs some_days fits =
    let wide : times day (pos days) ≡ pos (day * days) = times-pos day days fits in
    let positive : leb_ℤ (pos days) (pos 0) ≡ false = ground arith in
    (
      pos (day * days),
      rw (positive, wide) refl,
      expire_events-only env parts (minus parts.now (pos (day * days))) cs
          ∙ only-same env parts _ _ cs (λ e.
            not_before-recent env parts days (last_occurrence parts.recurrence env.props e)),
    )

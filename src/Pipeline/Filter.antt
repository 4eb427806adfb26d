-- ===== src/Pipeline/Filter.antt =====
-- internal/pipeline/rules.go: what the filter rule leaves.
use tidy_dav.Prelude.{
  ℕ, ◌+◌, ◌≡◌, refl, Bool, true, false, not, List, [], ◌∷◌, arith, if◌then◌else◌,
}
use tidy_dav.Notifier.{MatchedEvent}
use tidy_dav.Pipeline.{
  Child, event, other, Env, FilterMode, blacklist, whitelist, FilterRule, rule_matches, filter_keep,
  matched_event, kept, cons_if, filter_events, apply_filter,
}

module _ {E C : Type 0} where
  -- The children but for the events that the test refuses.
  abbrev pub only : (E → Bool) → List (Child E C) → List (Child E C)
  only p [] = []
  only p (other c ∷ cs) = other c ∷ only p cs
  only p (event e ∷ cs) = let rest = only p cs in if p e then event e ∷ rest else rest

  abbrev pub count_events : List (Child E C) → ℕ
  count_events [] = 0
  count_events (other c ∷ cs) = count_events cs
  count_events (event e ∷ cs) = 1 + count_events cs

module _ {E C S : Type 0} (keep : S → E → Bool × S) where
  pub cons_if-children :
      (b : Bool) (e : E) (q : List (Child E C) × S)
      → (cons_if keep b e q).0 ≡ (if b then event e ∷ q.0 else q.0)
  cons_if-children true e q = refl
  cons_if-children false e q = refl

module _ {E : Type 0} (env : Env E) (r : FilterRule) where
  -- What a mode keeps.
  abbrev pub stays : FilterMode → E → Bool
  stays whitelist e = rule_matches env r e
  stays blacklist e = not (rule_matches env r e)

  stays-kept : (m : FilterMode) (e : E) → kept env m (rule_matches env r e) ≡ stays m e
  stays-kept whitelist e = refl
  stays-kept blacklist e = refl

module _ {E C : Type 0} (env : Env E) (r : FilterRule) where
  filter_events-only :
      (ms : List MatchedEvent) (cs : List (Child E C))
      → (filter_events (filter_keep env r) ms cs).0 ≡ only (stays env r r.mode) cs
  unfolding filter_events filter_keep
  filter_events-only ms [] = refl
  filter_events-only ms (other c ∷ cs) = rw (filter_events-only ms cs) refl
  filter_events-only ms (event e ∷ cs) =
      rw
        (
          cons_if-children (filter_keep env r),
          stays-kept env r r.mode e,
          filter_events-only (if rule_matches env r e then matched_event env e ∷ ms else ms) cs,
        )
        refl

  apply_filter-only :
      (cs : List (Child E C)) → (apply_filter env r cs).0 ≡ only (stays env r r.mode) cs
  unfolding apply_filter
  apply_filter-only cs = filter_events-only [] cs

module _ {E C : Type 0} where
  only-count :
      (p : E → Bool) (cs : List (Child E C))
      → count_events (only p cs) + count_events (only (λ e. not (p e)) cs) ≡ count_events cs
  only-count p [] = omega arith
  only-count p (other c ∷ cs) = only-count p cs
  only-count p (event e ∷ cs) = ground (arith, only-count p cs)

-- The two modes of a filter split the events: with the same matcher and fields, a whitelist leaves
-- the events that match, a blacklist those that do not, each in their order and with all other
-- components, and together they have as many events as the calendar.
pub apply_filter-partition :
    {E C : Type 0} (env : Env E) (r : FilterRule) (cs : List (Child E C))
    → ((apply_filter env (record r { mode = whitelist }) cs).0 ≡ only (rule_matches env r) cs)
      × ((apply_filter env (record r { mode = blacklist }) cs).0
          ≡ only (λ e. not (rule_matches env r e)) cs)
      × (count_events (apply_filter env (record r { mode = whitelist }) cs).0
            + count_events (apply_filter env (record r { mode = blacklist }) cs).0
          ≡ count_events cs)
unfolding rule_matches
apply_filter-partition env r cs =
    let white : (apply_filter env (record r { mode = whitelist }) cs).0
        ≡ only (rule_matches env r) cs =
      apply_filter-only env (record r { mode = whitelist }) cs in
    let black : (apply_filter env (record r { mode = blacklist }) cs).0
        ≡ only (λ e. not (rule_matches env r e)) cs =
      apply_filter-only env (record r { mode = blacklist }) cs in
    (white, black, rw (white, black) (only-count (rule_matches env r) cs))

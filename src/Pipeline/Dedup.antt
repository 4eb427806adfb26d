-- ===== src/Pipeline/Dedup.antt =====
-- internal/pipeline/rules.go: what the dedup rule leaves.
use tidy_dav.Prelude.{
  ◌≡◌, refl, inl, inr, Str, false, List, [], ◌∷◌, contains, list_eq, nat_eq, Bool-cases,
}
use tidy_dav.Pipeline.{Child, event, other, Env, dedup_key, dedup_keep, filter_events, apply_dedup}

module _ {E C : Type 0} (env : Env E) (fields : List Str) where
  -- The keys of the events.
  abbrev pub keys_of : List (Child E C) → List Str
  keys_of [] = []
  keys_of (other c ∷ cs) = keys_of cs
  keys_of (event e ∷ cs) = dedup_key env fields e ∷ keys_of cs

  -- No key stands twice, and none is among those given.
  abbrev pub IsFresh : List Str → List (Child E C) → Type 0
  IsFresh seen [] = Unit
  IsFresh seen (other c ∷ cs) = IsFresh seen cs
  IsFresh seen (event e ∷ cs) =
      (contains seen (dedup_key env fields e) ≡ false) × IsFresh (dedup_key env fields e ∷ seen) cs

module _ {E C : Type 0} (env : Env E) (fields : List Str) where
  abbrev dedup : List Str → List (Child E C) → List (Child E C) × List Str
  dedup seen cs = filter_events (dedup_keep env fields) seen cs

  dedup-IsFresh :
      (seen : List Str) (cs : List (Child E C)) → IsFresh env fields seen (dedup seen cs).0
  unfolding filter_events dedup_keep
  dedup-IsFresh seen [] = tt
  dedup-IsFresh seen (other c ∷ cs) = dedup-IsFresh seen cs
  dedup-IsFresh seen (event e ∷ cs) = elim (Bool-cases (contains seen (dedup_key env fields e))) [
    | inl t ↦ rw (dedup_keep, t) (dedup-IsFresh seen cs)
    | inr f ↦ rw (dedup_keep, f) (f, dedup-IsFresh (dedup_key env fields e ∷ seen) cs)
  ]

  dedup-same :
      (seen : List Str) (cs : List (Child E C))
      → IsFresh env fields seen cs
      → (dedup seen cs).0 ≡ cs
  unfolding filter_events dedup_keep
  dedup-same seen [] h = refl
  dedup-same seen (other c ∷ cs) h = rw (dedup-same seen cs h) refl
  dedup-same seen (event e ∷ cs) (new, rest) =
      rw (new, dedup-same (dedup_key env fields e ∷ seen) cs rest) refl

-- After the dedup rule no two events have the same key, and the rule applied once more changes
-- nothing.
pub apply_dedup-IsFresh :
    {E C : Type 0} (env : Env E) (fields : List Str) (cs : List (Child E C))
    → IsFresh env fields [] (apply_dedup env fields cs)
      × (apply_dedup env fields (apply_dedup env fields cs) ≡ apply_dedup env fields cs)
unfolding apply_dedup
apply_dedup-IsFresh env fields cs = (
  dedup-IsFresh env fields [] cs,
  dedup-same env fields [] (filter_events (dedup_keep env fields) [] cs).0
      (dedup-IsFresh env fields [] cs),
)

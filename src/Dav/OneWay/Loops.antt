-- ===== src/Dav/OneWay/Loops.antt =====
-- internal/dav/sync.go: invariants of the loops of `syncOneWay`.
use tidy_dav.Prelude.{Bool, true, false, List, [], ◌∷◌, Among, inl, inr, subst, if◌then◌else◌}
use tidy_dav.Dav.OneWay.Vars.{Run, Step, next, stop, each}

module _ {ℓ} {St : Type 0} (P : Run St → Type ℓ) where
  -- Of the variables as they are left, whether the loop goes on or returns.
  abbrev pub Holds : Step St → Type ℓ
  Holds (next r) = P r
  Holds (stop r e) = P r

module _ {ℓ κ} {A : Type κ} {St : Type 0} (P : Run St → Type ℓ) (step : Run St → A → Step St) where
  each-Holds_step :
      (s : Step St) (xs : List A)
      → Holds P s
      → ((r : Run St) → P r → Holds P (each step xs r))
      → Holds P (elim s [ next r ↦ each step xs r | stop r e ↦ stop r e ])
  each-Holds_step (next r) xs h rest = rest r h
  each-Holds_step (stop r e) xs h rest = h

  pub each-Holds :
      ((r : Run St) (x : A) → P r → Holds P (step r x))
      → (xs : List A) (r : Run St) → P r
      → Holds P (each step xs r)
  unfolding each
  each-Holds keep [] r h = h
  each-Holds keep (x ∷ xs) r h =
      each-Holds_step (step r x) xs (keep r x h) (λ r'. each-Holds keep xs r')

module _ {ℓ} {St : Type 0} (P : Run St → Type ℓ) where
  pub Holds-if : (b : Bool) (s t : Step St) → Holds P s → Holds P t → Holds P (if b then s else t)
  Holds-if true s t p q = p
  Holds-if false s t p q = q

pub Holds-map {ℓ κ} :
    {St : Type 0} (P : Run St → Type ℓ) (Q : Run St → Type κ)
    → ((r : Run St) → P r → Q r)
    → (s : Step St) → Holds P s
    → Holds Q s
Holds-map P Q f (next r) h = f r h
Holds-map P Q f (stop r e) h = f r h

module _ {ℓ} {St : Type 0} (P : Run St → Type ℓ) where
  -- Of the variables where the loop goes on.
  abbrev pub Next : Step St → Type ℓ
  Next (next r) = P r
  Next (stop r e) = Unit

  pub Next-of_Holds : (s : Step St) → Holds P s → Next s
  Next-of_Holds (next r) h = h
  Next-of_Holds (stop r e) h = tt

module _ {ℓ κ} {A : Type 0} {St : Type 0} (I : Run St → Type κ) (Q : Run St → Type ℓ)
    (step : Run St → A → Step St) (keep_inv : (r : Run St) (x : A) → I r → Holds I (step r x))
    (keep : (r : Run St) (x : A) → Q r → Holds Q (step r x)) (a : A)
    (make : (r : Run St) → I r → Next Q (step r a)) where
  each-Next_made :
      (s : Step St) (xs : List A)
      → Next Q s
      → Next Q (elim s [ next r ↦ each step xs r | stop r e ↦ stop r e ])
  each-Next_made (next r) xs h = Next-of_Holds Q (each step xs r) (each-Holds Q step keep xs r h)
  each-Next_made (stop r e) xs h = tt

  each-Next_later :
      (s : Step St) (xs : List A)
      → Holds I s
      → ((r : Run St) → I r → Next Q (each step xs r))
      → Next Q (elim s [ next r ↦ each step xs r | stop r e ↦ stop r e ])
  each-Next_later (next r) xs h rest = rest r h
  each-Next_later (stop r e) xs h rest = tt

  -- What one element brings about holds at the end of the loop, unless it stops.
  pub each-Next : (xs : List A) → Among a xs → (r : Run St) → I r → Next Q (each step xs r)
  unfolding each
  each-Next [] m r h = elim m [ ]
  each-Next (x ∷ xs) (inl e) r h =
      each-Next_made (step r x) xs (subst (λ y. Next Q (step r y)) e (make r h))
  each-Next (x ∷ xs) (inr m) r h =
      each-Next_later (step r x) xs (keep_inv r x h) (λ r' h'. each-Next xs m r' h')

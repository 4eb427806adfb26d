-- ===== src/Prelude/Equality.antt =====
-- Go's `==`, for every type whose equality can be decided. A proof splits on a test and has the
-- equation or its negation.
use Prim.Native.Nat.{ℕ}
use mathlib.Core.Path.{◌≡◌, refl, ap, ap₂}
use mathlib.Core.Logic.{◌≢◌, ite, dite}
use mathlib.Core.Bool.{Bool, true, false, ◌||◌}
use mathlib.Core.List.{List, [], ◌∷◌}
use native.Mathlib.Decide.{ℕ_discrete}
use native.Mathlib.Omega.{arith}

pub record Eq {ℓ} (A : Type ℓ) : Type ℓ where
  pub dec : Discrete A

instance unfoldable pub nat_eq : Eq ℕ
unfolding ℕ_discrete
nat_eq = record { dec = ℕ_discrete }

module _ {ℓ} {A : Type ℓ} ⦃e : Eq A⦄ where
  infix 50 ◌==◌
  abbrev pub ◌==◌ : A → A → Bool
  a == b = ite (e.dec a b) true false

  abbrev pub contains : List A → A → Bool
  contains [] a = false
  contains (x ∷ xs) a = a == x || contains xs a

  pub ==_self : (a : A) → (a == a) ≡ true
  ==_self a = ground arith

  pub ==_ne : (a b : A) → a ≢ b → (a == b) ≡ false
  ==_ne a b h = ground arith

  pub contains-cons_self : (a : A) (xs : List A) → contains (a ∷ xs) a ≡ true
  contains-cons_self a xs = ground arith

  pub contains-cons_of : (a x : A) (xs : List A) → contains xs a ≡ true → contains (x ∷ xs) a ≡ true
  contains-cons_of a x xs h = ground arith

  pub eq_of_== : (a b : A) → (a == b) ≡ true → a ≡ b
  eq_of_== a b h = ground arith

module _ {ℓ} {A : Type ℓ} where
  nil-ne-cons : (x : A) (xs : List A) → [] ≢ x ∷ xs
  nil-ne-cons x xs p = cc

  cons-ne-nil : (x : A) (xs : List A) → x ∷ xs ≢ []
  cons-ne-nil x xs p = cc

  head_eq : (x y : A) (xs ys : List A) → x ∷ xs ≡ y ∷ ys → x ≡ y
  head_eq x y xs ys p = cc

  tail_eq : (x y : A) (xs ys : List A) → x ∷ xs ≡ y ∷ ys → xs ≡ ys
  tail_eq x y xs ys p = cc

  list_dec : Discrete A → Discrete (List A)
  list_dec d [] [] = yes refl
  list_dec d [] (y ∷ ys) = no (nil-ne-cons y ys)
  list_dec d (x ∷ xs) [] = no (cons-ne-nil x xs)
  list_dec d (x ∷ xs) (y ∷ ys) =
      let rest = list_dec d xs ys in
      dite (d x y)
        (λ p. dite rest (λ q. yes (ap₂ ◌∷◌ p q)) (λ n. no (λ e. n (tail_eq x y xs ys e))))
        (λ n. no (λ e. n (head_eq x y xs ys e)))

instance unfoldable pub list_eq {ℓ} : {A : Type ℓ} ⦃e : Eq A⦄ → Eq (List A)
unfolding list_dec nil-ne-cons cons-ne-nil head_eq tail_eq
list_eq ⦃e⦄ = record { dec = list_dec e.dec }

module _ {ℓ κ} {A : Type ℓ} {B : Type κ} where
  pair_dec : Discrete A → Discrete B → Discrete (A × B)
  pair_dec d f (a, b) (a', b') =
      dite (d a a')
        (λ p.
          dite (f b b') (λ q. yes (ap₂ (λ x y. (x, y)) p q)) (λ n. no (λ e. n (ap (λ x. x.1) e))))
        (λ n. no (λ e. n (ap (λ x. x.0) e)))

instance unfoldable pub pair_eq {ℓ κ} : {A : Type ℓ} {B : Type κ} ⦃e : Eq A⦄ ⦃f : Eq B⦄ → Eq (A × B)
unfolding pair_dec
pair_eq ⦃e⦄ ⦃f⦄ = record { dec = pair_dec e.dec f.dec }

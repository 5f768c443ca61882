-- ===== src/Base/Equality.antt =====
-- Go's `==` and map keys, for every type whose equality can be decided.
use Prim.Native.Nat.{ℕ}
use mathlib.Core.Path.{◌≡◌, refl, ap}
use mathlib.Core.Logic.{ite, dite}
use mathlib.Core.Bool.{Bool, true, false, ◌||◌, Bool-discrete}
use mathlib.Core.List.{List, [], ◌∷◌, ◌++◌}
use native.Mathlib.Decide.{ℕ_discrete}
use native.Mathlib.Omega.{arith}

pub record Eq {ℓ} (A : Type ℓ) : Type ℓ where
  pub dec : Discrete A

module _ {ℓ} {A : Type ℓ} ⦃e : Eq A⦄ where
  infix 50 ◌==◌
  abbrev pub ◌==◌ : A → A → Bool
  a == b = ite (e.dec a b) true false

  -- Membership in a slice, as a loop that compares.
  abbrev pub contains : A → List A → Bool
  contains a [] = false
  contains a (x ∷ xs) = a == x || contains a xs

  -- No element stands twice.
  abbrev pub IsNodup : List A → Type 0
  IsNodup [] = Unit
  IsNodup (x ∷ xs) = (contains x xs ≡ false) × IsNodup xs

  -- How often an element stands.
  abbrev pub count : A → List A → ℕ
  count a [] = 0
  count a (x ∷ xs) = ite (e.dec a x) (ℕ.suc (count a xs)) (count a xs)

  pub ==_refl : (a : A) → (a == a) ≡ true
  ==_refl a = ground arith

  pub ==→≡ : (a b : A) → (a == b) ≡ true → a ≡ b
  ==→≡ a b h = ground arith

  pub contains-append :
      (a : A) (xs ys : List A) → contains a (xs ++ ys) ≡ (contains a xs || contains a ys)
  contains-append a [] ys = refl
  contains-append a (x ∷ xs) ys = ground (arith, contains-append a xs ys)

module _ {ℓ} {A : Type ℓ} ⦃e : Eq A⦄ where
  pub IsNodup-concat :
      (a : A) (xs : List A) → contains a xs ≡ false → IsNodup xs → IsNodup (xs ++ a ∷ [])
  IsNodup-concat a [] h u = ground arith
  IsNodup-concat a (x ∷ xs) h (fresh, u) =
      ground (arith, IsNodup-concat a xs, contains-append x xs (a ∷ []))

  count_of_lacking : (a : A) (xs : List A) → contains a xs ≡ false → count a xs ≡ 0
  count_of_lacking a [] h = refl
  count_of_lacking a (x ∷ xs) h = ground (arith, count_of_lacking a xs)

  pub count_of_IsNodup :
      (a : A) (xs : List A) → IsNodup xs → count a xs ≡ ite (Bool-discrete (contains a xs) true) 1 0
  count_of_IsNodup a [] u = refl
  count_of_IsNodup a (x ∷ xs) (fresh, u) =
      ground (arith, count_of_IsNodup a xs u, count_of_lacking a xs)

-- Shut in proofs, where a split on `a == b` yields the equation or its negation.
instance unfoldable pub nat_eq : Eq ℕ
unfolding ℕ_discrete
nat_eq = record { dec = ℕ_discrete }

-- Comparable arrays of two, as map keys.
pair_dec {ℓ} : {A B : Type ℓ} ⦃e : Eq A⦄ ⦃e' : Eq B⦄ → Discrete (A × B)
pair_dec ⦃e⦄ ⦃e'⦄ (a, b) (c, d) =
    dite (e.dec a c)
      (λ p.
        dite (e'.dec b d) (λ q. yes (λ i. (p i, q i)))
          (λ differ. no (λ r. differ (ap (λ x. x.1) r))))
      (λ differ. no (λ r. differ (ap (λ x. x.0) r)))

instance unfoldable pub pair_eq {ℓ} : {A B : Type ℓ} ⦃e : Eq A⦄ ⦃e' : Eq B⦄ → Eq (A × B)
unfolding pair_dec
pair_eq = record { dec = pair_dec }

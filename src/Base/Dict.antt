-- ===== src/Base/Dict.antt =====
-- Go maps as association lists. Proofs elsewhere go by the laws, which speak of lookups only.
use mathlib.Core.Path.{◌≡◌, refl}
use mathlib.Core.Bool.{Bool, true, false}
use mathlib.Core.Option.{Option, none, some}
use mathlib.Core.List.{List, [], ◌∷◌}
use native.Mathlib.Omega.{arith}
use rewsr_maxfields.Base.Equality.{Eq, ◌==◌}
use rewsr_maxfields.Base.Tests.{if◌then◌else◌}

abbrev pub Dict {ℓ κ} : Type ℓ → Type κ → Type (ℓ ⊔ κ)
Dict K V = List (K × V)

abbrev pub keys {ℓ κ} : {K : Type ℓ} {V : Type κ} → Dict K V → List K
keys [] = []
keys ((k, _) ∷ d) = k ∷ keys d

module _ {ℓ κ} {K : Type ℓ} {V : Type κ} ⦃e : Eq K⦄ where
  unfoldable pub lookup : K → Dict K V → Option V
  lookup k [] = none
  lookup k ((j, v) ∷ d) = if k == j then some v else lookup k d

  -- `_, ok := m[k]`
  abbrev pub has : K → Dict K V → Bool
  has k d = elim (lookup k d) [ none ↦ false | some _ ↦ true ]

  -- `m[k]`, with the zero value for a missing key
  abbrev pub at : V → K → Dict K V → V
  at d₀ k d = elim (lookup k d) [ none ↦ d₀ | some v ↦ v ]

  -- `m[k] = v`
  unfoldable pub insert : K → V → Dict K V → Dict K V
  insert k v [] = (k, v) ∷ []
  insert k v ((j, w) ∷ d) = if k == j then (k, v) ∷ d else (j, w) ∷ insert k v d

  pub lookup-nil : (k : K) → lookup k [] ≡ none
  unfolding lookup
  lookup-nil k = refl

  pub lookup-insert :
      (j k : K) (v : V) (d : Dict K V)
      → lookup j (insert k v d) ≡ (if j == k then some v else lookup j d)
  unfolding insert lookup
  lookup-insert j k v [] = ground arith
  lookup-insert j k v ((i, w) ∷ d) = ground (arith, lookup-insert j k v d)

  pub at-nil : (d₀ : V) (k : K) → at d₀ k [] ≡ d₀
  unfolding lookup
  at-nil d₀ k = refl

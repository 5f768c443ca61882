-- ===== src/Facts/Infer/Health.antt =====
-- The three answers of `InferHealth`, each with the exact condition under which it is given.
use rewsr_maxfields.Base.{
  refl, ◌≡◌, ◌≢◌, ◌↔◌, true, false, not, ◌&&◌, ◌||◌, some, [], arith, Str, str, is_empty, Bool, ltb,
}
use rewsr_maxfields.Base.Int.{ℤ, pos, negsuc}
use rewsr_maxfields.Text.Case.{equal_fold}
use rewsr_maxfields.Facts.Types.{ServerFacts}
use rewsr_maxfields.Facts.Infer.{has_hardware_facts, infer_health}

abbrev pub above_zero : ℤ → Bool
above_zero (pos n) = ltb 0 n
above_zero (negsuc n) = false

abbrev pub has_failed : Str → Bool
has_failed p = equal_fold p (str "failed") || equal_fold p (str "error")

-- The power state is known, and other than "on".
abbrev pub is_off : Str → Bool
is_off p = not (is_empty p) && not (equal_fold p (str "on"))

healthy_ne_degraded : str "healthy" ≢ str "degraded"
unfolding str
healthy_ne_degraded = ground arith

healthy_ne_unknown : str "healthy" ≢ str "unknown"
unfolding str
healthy_ne_unknown = ground arith

degraded_ne_unknown : str "degraded" ≢ str "unknown"
unfolding str
degraded_ne_unknown = ground arith

empty_not_failed : has_failed [] ≡ false
unfolding equal_fold str
empty_not_failed = refl

-- What a health says of the hardware facts, the power state and the provisioning state that are known.
abbrev pub HealthOf : Bool → Str → Str → Str → Type 0
HealthOf hardware power provisioning health =
    ((health ≡ str "healthy")
      ↔ ((hardware ≡ true) × (is_off power ≡ false) × (has_failed provisioning ≡ false)))
    × ((health ≡ str "unknown") ↔ ((hardware ≡ false) × (power ≡ []) × (provisioning ≡ [])))
    × ((health ≡ str "degraded") ↔ (
        (has_failed provisioning
          || is_off power
          || not hardware && not (is_empty power && is_empty provisioning))
        ≡ true))

module _ {V : Type 0} (f : ServerFacts V) where
  abbrev pub knows_hardware : Bool
  knows_hardware =
      above_zero f.cpu.cores
      || above_zero f.memory_gb
      || not (is_empty f.disks)
      || not (is_empty f.nics)

  pub infer_health_lem :
      HealthOf knows_hardware f.power_state f.provisioning (infer_health (some f))
  unfolding infer_health has_hardware_facts
  infer_health_lem =
      ground (arith, healthy_ne_degraded, healthy_ne_unknown, degraded_ne_unknown, empty_not_failed)

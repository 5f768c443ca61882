-- ===== src/Facts/Build/Health.antt =====
-- The health of a built server, by what the collectors report.
use rewsr_maxfields.Base.{Bool, not, ◌||◌, List, map, is_empty, any}
use rewsr_maxfields.Base.Int.{pos, is_zero}
use rewsr_maxfields.Facts.Types.{ServerFacts}
use rewsr_maxfields.Facts.Infer.Health.{above_zero}
use rewsr_maxfields.Facts.Build.Gaps.{first_set}

module _ {V : Type 0} where
  -- The first number of cores or the first memory that is not zero is positive, or some report has a disk
  -- or a NIC.
  abbrev pub reports_hardware : List (ServerFacts V) → Bool
  reports_hardware fs =
      above_zero (first_set is_zero (pos 0) (map (λ f. f.cpu.cores) fs))
      || above_zero (first_set is_zero (pos 0) (map (λ f. f.memory_gb) fs))
      || any (λ f. not (is_empty f.disks)) fs
      || any (λ f. not (is_empty f.nics)) fs

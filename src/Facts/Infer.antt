-- ===== src/Facts/Infer.antt =====
-- facts/infer.go: the capability list and the health of a server.
pub mod Capabilities
pub mod Health
use rewsr_maxfields.Base.{
  Bool, true, false, not, ◌&&◌, ◌||◌, Option, none, some, List, [], ◌∷◌, ◌++◌, Str, str, ◌==◌,
  str_eq, contains, is_empty, any, if◌then◌else◌,
}
use rewsr_maxfields.Base.Int.{pos, ltb_ℤ, is_pos}
use rewsr_maxfields.Text.Case.{to_lower, equal_fold}
use rewsr_maxfields.Text.Sort.{sort}
use rewsr_maxfields.Facts.Types.{ServerFacts, DiskFacts, NicFacts}

-- The closure `add`. The map `seen` holds exactly the elements of `out`, and is read off it.
unfoldable pub add : Str → List Str → List Str
add cap out = if is_empty cap || contains cap out then out else out ++ cap ∷ []

-- `for _, c := range f.Capabilities { add(c) }`
unfoldable pub add_all : List Str → List Str → List Str
add_all [] out = out
add_all (c ∷ cs) out = add_all cs (add c out)

unfoldable pub is_nvme : DiskFacts → Bool
is_nvme d = equal_fold d.type (str "nvme")

-- The loop over the disks breaks at the first NVMe drive.
unfoldable pub add_disks : List DiskFacts → List Str → List Str
add_disks [] out = out
add_disks (d ∷ ds) out =
    let rest = add_disks ds out in if is_nvme d then add (str "local_nvme") out else rest

-- The `switch` on a feature in lower case.
unfoldable pub add_feature : Str → List Str → List Str
add_feature feat out =
    if feat == str "sriov" || feat == str "sr-iov"
    then add (str "sriov") out
    else if feat == str "rdma"
    then add (str "rdma") out
    else out

unfoldable pub add_features : List Str → List Str → List Str
add_features [] out = out
add_features (feat ∷ feats) out = add_features feats (add_feature (to_lower feat) out)

-- `n.SpeedGbps >= 25`
unfoldable pub is_fast : NicFacts → Bool
is_fast n = not (ltb_ℤ n.speed_gbps (pos 25))

unfoldable pub add_nics : List NicFacts → List Str → List Str
add_nics [] out = out
add_nics (n ∷ ns) out =
    add_nics ns (
      add_features n.features
        (if is_fast n then add (str "high_bandwidth_networking") out else out))

module _ {V : Type 0} where
  unfoldable pub infer_capabilities : Option (ServerFacts V) → List Str
  infer_capabilities none = []
  infer_capabilities (some f) =
      let out = add_nics f.nics (add_disks f.disks (add_all f.capabilities [])) in
      sort (if is_empty f.power_state then out else add (str "power_control") out)

  unfoldable pub has_hardware_facts : ServerFacts V → Bool
  has_hardware_facts f =
      is_pos f.cpu.cores || is_pos f.memory_gb || not (is_empty f.disks) || not (is_empty f.nics)

  unfoldable pub infer_health : Option (ServerFacts V) → Str
  infer_health none = str "unknown"
  infer_health (some f) =
      if not (has_hardware_facts f) && is_empty f.power_state && is_empty f.provisioning
      then str "unknown"
      else if equal_fold f.provisioning (str "failed") || equal_fold f.provisioning (str "error")
      then str "degraded"
      else if not (is_empty f.power_state) && not (equal_fold f.power_state (str "on"))
      then str "degraded"
      else if not (has_hardware_facts f)
      then str "degraded"
      else str "healthy"

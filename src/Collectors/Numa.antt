-- ===== src/Collectors/Numa.antt =====
-- collectors/linux_numa.go: numactl first, then sysfs.
pub mod Multi
mod Tests
use rewsr_maxfields.Base.{
  ℕ, Bool, true, false, Option, none, some, List, [], ◌∷◌, ◌++◌, Str, str, length, ltb,
  if◌then◌else◌,
}
use rewsr_maxfields.Facts.Types.{ServerFacts}
use rewsr_maxfields.Collectors.Host.{Host, observed}
use rewsr_maxfields.Collectors.Sections.{NumaNode, NumaTopology, Section, numa}
use rewsr_maxfields.Collectors.Numactl.{parse_numactl_hardware}
use rewsr_maxfields.Collectors.NodeDirs.{read_sysfs_topology}

-- A topology without a node is as good as none.
unfoldable pub usable : Option NumaTopology → Option NumaTopology
usable none = none
usable (some topo) = elim topo.nodes [ [] ↦ none | _ ∷ _ ↦ some topo ]

-- The facts for the topology that was found.
unfoldable pub report_numa :
    Host → Str → Option NumaTopology → Option (ServerFacts Section) × Option Str
report_numa h server_id none = (
  some (observed (str "linux_numa") h server_id),
  some (
      str "numa collector: neither numactl nor "
      ++ (h.joined (str "sys/devices/system/node") ++ str " usable")),
)
report_numa h server_id (some topo) = (
  some (record (observed (str "linux_numa") h server_id) {
    capabilities = if ltb 1 (length topo.nodes) then str "multi_numa" ∷ [] else [];
    raw = some ((str "numa", numa topo) ∷ []);
  }),
  none,
)

module _ (moves : ℕ → Bool) (h : Host) where
  unfoldable pub numactl_topology : Option NumaTopology
  numactl_topology = elim (h.runs (str "numactl") (str "--hardware" ∷ [])) [
    | none ↦ none
    | some out ↦ some (parse_numactl_hardware moves out)
  ]

  unfoldable pub find_topology : Option NumaTopology
  find_topology = elim (usable numactl_topology) [
    | some topo ↦ some topo
    | none ↦ usable (read_sysfs_topology h)
  ]

  unfoldable pub collect_numa : Str → Option (ServerFacts Section) × Option Str
  collect_numa server_id = report_numa h server_id find_topology

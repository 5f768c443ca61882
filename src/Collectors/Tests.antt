-- ===== src/Collectors/Tests.antt =====
-- A host in memory that follows the fixtures of collectors/*_test.go, and the theorems at its data.
use rewsr_maxfields.Base.{
  ◌≡◌, ◌≢◌, ◌↔◌, refl, true, false, ◌&&◌, ◌||◌, none, some, [], ◌∷◌, ◌++◌, arith, Str, str, ◌==◌,
  str_eq, nat_eq, contains, IsNodup, keep, any, ltb, if◌then◌else◌,
}
use rewsr_maxfields.Base.Dict
use rewsr_maxfields.Text.Cut.{cut}
use rewsr_maxfields.Text.Split.{split}
use rewsr_maxfields.Text.Space.{trim_space, fields}
use rewsr_maxfields.Facts.Types.{ServerFacts}
use rewsr_maxfields.Collectors.Host.{Host, add_cap}
use rewsr_maxfields.Collectors.Sections.{Section}
use rewsr_maxfields.Collectors.Tee.{
  flags_of_lines, cpuinfo_flag_set, sev_enabled, tee_features, tee_capabilities, cpu_flags,
  collect_tee,
}
use rewsr_maxfields.Collectors.Tee.Sources.{has_source, tee_of}
use rewsr_maxfields.Collectors.Tee.Capable.{collect_tee_lem}
use rewsr_maxfields.Collectors.Iommu.{iommu_groups, cmdline_scan, collect_iommu}
use rewsr_maxfields.Collectors.Iommu.Passthrough.{
  sees_iommu, tokens, is_iommu_flag, asks_passthrough, collect_iommu_lem,
}
use rewsr_maxfields.Collectors.Hugepages.{read_sysfs_sizes, collect_hugepages}
use rewsr_maxfields.Collectors.Hugepages.Reserved.{
  sees_hugepages, total, is_hugepages_capability, collect_hugepages_lem,
}

-- The second generation of SEV is off in the kernel.
abbrev files : Dict.Dict Str Str
files =
    (str "proc/cpuinfo", str "processor\t: 0\nflags\t\t: fpu sev sev_es sgx\n")
    ∷ (str "sys/module/kvm_amd/parameters/sev", str "Y\n")
    ∷ (str "sys/module/kvm_amd/parameters/sev_es", str "N\n")
    ∷ (str "proc/cmdline", str "quiet intel_iommu=on iommu=pt")
    ∷ (str "proc/meminfo", str "MemTotal: 8 kB\nHugePages_Total:    1024\n")
    ∷ (str "proc/modules", str "vfio_pci 16384 0 - Live\nloop 4 0\n")
    ∷ []

abbrev box : Host
box = record {
  root = str "/";
  joined = λ path. str "/" ++ path;
  now = 7;
  read_file = λ path. Dict.lookup path files;
  read_dir = λ path.
      if path == str "sys/kernel/iommu_groups"
      then some (record { name = str "0"; is_dir = true } ∷ [])
      else none;
  stat = λ path. path == str "dev/sev";
  runs = λ command args. none;
}

flags_are : cpu_flags box ≡ str "fpu" ∷ str "sev" ∷ str "sev_es" ∷ str "sgx" ∷ []
unfolding cpu_flags cpuinfo_flag_set flags_of_lines cut split trim_space fields str str_eq
    Dict.lookup
flags_are = refl

tee_is :
    tee_capabilities
      (str "sev" ∷ str "sev_es" ∷ str "sgx" ∷ [])
      ((str "sev", true) ∷ (str "sev_es", false) ∷ [])
      []
    ≡ str "sev" ∷ str "sgx" ∷ str "tee_capable" ∷ []
unfolding tee_capabilities tee_features sev_enabled add_cap Dict.lookup str str_eq
tee_is = refl

collect_tee_example :
    (f : ServerFacts Section) × ((collect_tee box (str "srv-1")).0 ≡ some f)
    × (((collect_tee box (str "srv-1")).1 ≡ none) ↔ (has_source box ≡ true))
    × ((c : Str) → contains c f.capabilities ≡ (has_source box && tee_of box c))
    × IsNodup f.capabilities
collect_tee_example = collect_tee_lem box (str "srv-1")

collect_iommu_example :
    (f : ServerFacts Section) × ((collect_iommu box (str "srv-1")).0 ≡ some f)
    × (((collect_iommu box (str "srv-1")).1 ≡ none) ↔ (sees_iommu box ≡ true))
    × ((c : Str)
        → contains c f.capabilities ≡ (
            ltb 0 (iommu_groups box)
            && (c == str "iommu"
                || c == str "iommu_passthrough" && any asks_passthrough (tokens box))))
    × ((cmdline_scan box).0 ≡ keep is_iommu_flag (tokens box))
collect_iommu_example = collect_iommu_lem box (str "srv-1")

collect_hugepages_example :
    (f : ServerFacts Section) × ((collect_hugepages box (str "srv-1")).0 ≡ some f)
    × (((collect_hugepages box (str "srv-1")).1 ≡ none) ↔ (sees_hugepages box ≡ true))
    × ((c : Str)
        → contains c f.capabilities ≡ is_hugepages_capability c (total box) (read_sysfs_sizes box))
    × IsNodup f.capabilities
collect_hugepages_example = collect_hugepages_lem box (str "srv-1")

named : str "srv-1" ≢ []
unfolding str
named = ground arith

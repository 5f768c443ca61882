-- ===== src/Collectors/Wiring/Silent.antt =====
-- The collectors that report neither a power state, a provisioning state nor a failure domain.
use rewsr_maxfields.Base.{ℕ, ◌≡◌, Bool, Option, none, some, List, [], arith, Str}
use rewsr_maxfields.Base.Float.{Float64}
use rewsr_maxfields.Facts.Types.{ServerFacts}
use rewsr_maxfields.Facts.Build.{Result}
use rewsr_maxfields.Collectors.Host.{Host, Tools, observed}
use rewsr_maxfields.Collectors.Sections.{Section}
use rewsr_maxfields.Collectors.Pci.{report_pci, collect_pci}
use rewsr_maxfields.Collectors.Rdma.{RdmaLinkEntry, report_rdma, collect_rdma}
use rewsr_maxfields.Collectors.Numa.{report_numa, collect_numa}
use rewsr_maxfields.Collectors.Hugepages.{collect_hugepages}
use rewsr_maxfields.Collectors.Iommu.{collect_iommu}
use rewsr_maxfields.Collectors.Tee.{collect_tee}
use rewsr_maxfields.Collectors.NicOffload.{
  IpLinkEntry, report_offload, answer_offload, collect_offload,
}
use rewsr_maxfields.Collectors.Bond.{Link, answer_links, report_links, collect_net_topology}
use rewsr_maxfields.Collectors.Kernel.{collect_kernel}
use rewsr_maxfields.Collectors.Smbios.{collect_smbios}
use rewsr_maxfields.Collectors.Nvme.{NvmeEntry, report_nvme, collect_nvme}
use rewsr_maxfields.Collectors.Gpu.{collect_gpu}
use rewsr_maxfields.Collectors.Cpu.{collect_cpu}
use rewsr_maxfields.Collectors.Disk.{collect_disks}
use rewsr_maxfields.Collectors.Nic.{collect_nics}
use rewsr_maxfields.Collectors.LinuxHost.{HostInputs, collect_linux_host}

-- What facts say of the three states that decide how a server may be used.
abbrev pub States : Type 0
States = Str × Str × Str

abbrev pub states_of : Option (ServerFacts Section) → Option States
states_of none = none
states_of (some f) = some (f.power_state, f.provisioning, f.failure_domain)

-- There are facts, and they say nothing.
abbrev pub IsSilent : Option (ServerFacts Section) × Option Str → Type 0
IsSilent r = states_of r.0 ≡ some ([], [], [])

module _ (h : Host) (id : Str) where
  pub IsSilent-tee : IsSilent (collect_tee h id)
  unfolding collect_tee observed
  IsSilent-tee = ground arith

  pub IsSilent-iommu : IsSilent (collect_iommu h id)
  unfolding collect_iommu observed
  IsSilent-iommu = ground arith

  pub IsSilent-hugepages : IsSilent (collect_hugepages h id)
  unfolding collect_hugepages observed
  IsSilent-hugepages = ground arith

  pub IsSilent-kernel : IsSilent (collect_kernel h id)
  unfolding collect_kernel observed
  IsSilent-kernel = ground arith

  pub IsSilent-smbios : (stat_error : Str → Str) → IsSilent (collect_smbios stat_error h id)
  unfolding collect_smbios observed
  IsSilent-smbios stat_error = ground arith

  pub IsSilent-gpu : (has_runner : Bool) (t : Tools) → IsSilent (collect_gpu has_runner t h id)
  unfolding collect_gpu observed
  IsSilent-gpu has_runner t = ground arith

  pub IsSilent-pci :
      (parse_float : Str → Option Float64) (t : Option Tools)
      → IsSilent (collect_pci parse_float t h id)
  unfolding collect_pci report_pci observed
  IsSilent-pci parse_float t = ground arith

  pub IsSilent-rdma :
      (decode : Str → Result (List RdmaLinkEntry)) (t : Option Tools)
      → IsSilent (collect_rdma decode t h id)
  unfolding collect_rdma report_rdma observed
  IsSilent-rdma decode t = ground arith

  pub IsSilent-numa : (moves : ℕ → Bool) → IsSilent (collect_numa moves h id)
  unfolding collect_numa report_numa observed
  IsSilent-numa moves = ground arith

  pub IsSilent-offload :
      (decode : Str → Result (List IpLinkEntry)) (t : Tools)
      → IsSilent (collect_offload decode (some t) h id)
  unfolding collect_offload answer_offload report_offload observed
  IsSilent-offload decode t = ground arith

  pub IsSilent-net_topology :
      (decode : Str → Result (List Link)) (t : Option Tools)
      → IsSilent (collect_net_topology decode t h id)
  unfolding collect_net_topology answer_links report_links observed
  IsSilent-net_topology decode t = ground arith

  pub IsSilent-nvme :
      (decode : Str → Result (List NvmeEntry)) (t : Option Tools)
      → IsSilent (collect_nvme decode t h id)
  unfolding collect_nvme report_nvme observed
  IsSilent-nvme decode t = ground arith

  pub IsSilent-linux_host :
      (inputs : HostInputs) (t : Tools) → IsSilent (collect_linux_host inputs (some t) h id)
  unfolding collect_linux_host collect_cpu collect_disks collect_nics observed
  IsSilent-linux_host inputs t = ground arith

-- ===== src/Collectors/Wiring.antt =====
-- collectors/wave2.go, and `buildCollectors` and the list of `runScan` in cmd/rewsr-maxfields/main.go: which
-- collectors run, and in which order.
pub mod Silent
pub mod States
pub mod Authority
pub mod Wave2
pub mod Fixture
mod Tests
use rewsr_maxfields.Base.{ℕ, Bool, true, Option, some, List, [], ◌∷◌, ◌++◌, Str, str}
use rewsr_maxfields.Base.Float.{Float64}
use rewsr_maxfields.Facts.Types.{Collector, Time}
use rewsr_maxfields.Facts.Build.{Result}
use rewsr_maxfields.Serve.{env_or}
use rewsr_maxfields.Collectors.Host.{Host, Tools}
use rewsr_maxfields.Collectors.Sections.{Section}
use rewsr_maxfields.Collectors.Pci.{collect_pci}
use rewsr_maxfields.Collectors.Rdma.{RdmaLinkEntry, collect_rdma}
use rewsr_maxfields.Collectors.Numa.{collect_numa}
use rewsr_maxfields.Collectors.Hugepages.{collect_hugepages}
use rewsr_maxfields.Collectors.Iommu.{collect_iommu}
use rewsr_maxfields.Collectors.Tee.{collect_tee}
use rewsr_maxfields.Collectors.NicOffload.{IpLinkEntry, collect_offload}
use rewsr_maxfields.Collectors.Bond.{Link, collect_net_topology}
use rewsr_maxfields.Collectors.Lldp.{Members, collect_lldp}
use rewsr_maxfields.Collectors.Kernel.{collect_kernel}
use rewsr_maxfields.Collectors.Smbios.{collect_smbios}
use rewsr_maxfields.Collectors.Nvme.{NvmeEntry, collect_nvme}
use rewsr_maxfields.Collectors.Ipmi.{collect_ipmi}
use rewsr_maxfields.Collectors.Gpu.{collect_gpu}
use rewsr_maxfields.Collectors.LinuxHost.{HostInputs, collect_linux_host}
use rewsr_maxfields.Collectors.Redfish.{Http, collect_redfish}
use rewsr_maxfields.Collectors.Provisioned.{collect_provisioning}

-- What the collectors of one machine are given: the host, its commands, and the standard library's part.
pub record Machine : Type 0 where
  pub host : Host
  pub tools : Tools
  pub inputs : HostInputs
  pub parse_float : Str → Option Float64
  pub moves : ℕ → Bool
  pub stat_error : Str → Str
  pub rdma_links : Str → Result (List RdmaLinkEntry)
  pub ip_details : Str → Result (List Link)
  pub lldp : Str → Result Members
  pub nvme_list : Str → Result (List NvmeEntry)

-- The local runner is there, so no collector is without one.
unfoldable pub wave2_collectors : Machine → List (Collector Section)
wave2_collectors m =
    collect_pci m.parse_float (some m.tools) m.host
    ∷ collect_rdma m.rdma_links (some m.tools) m.host
    ∷ collect_numa m.moves m.host
    ∷ collect_hugepages m.host
    ∷ collect_iommu m.host
    ∷ collect_tee m.host
    ∷ collect_offload m.inputs.ip_link (some m.tools) m.host
    ∷ collect_net_topology m.ip_details (some m.tools) m.host
    ∷ collect_lldp m.lldp (some m.tools) m.host
    ∷ collect_kernel m.host
    ∷ collect_smbios m.stat_error m.host
    ∷ collect_nvme m.nvme_list (some m.tools) m.host
    ∷ collect_ipmi m.parse_float (some m.tools) m.host
    ∷ collect_gpu true m.tools m.host
    ∷ []

-- The collectors of `serve`. `get` is what `GetProvisioning` of the store answers.
unfoldable pub build_collectors :
    (Str → Str) → Http → (Str → Result (Str × Str)) → Machine → List (Collector Section)
build_collectors env http get m =
    collect_linux_host m.inputs (some m.tools) m.host
    ∷ collect_redfish http
        (env_or env (str "REWSR_MAXFIELDS_REDFISH_BASE_URL") (str "https://localhost:8443"))
        (env (str "REWSR_MAXFIELDS_REDFISH_TOKEN")) m.host.now
    ∷ collect_provisioning m.host.now (some get)
    ∷ wave2_collectors m

-- The collectors of `scan`.
unfoldable pub scan_collectors : Machine → List (Collector Section)
scan_collectors m = collect_linux_host m.inputs (some m.tools) m.host ∷ wave2_collectors m

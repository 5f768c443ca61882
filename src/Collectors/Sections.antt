-- ===== src/Collectors/Sections.antt =====
-- The values that the collectors put into `Raw`, one record for each section.
use rewsr_maxfields.Base.{ℕ, Bool, Option, List, Str}
use rewsr_maxfields.Base.Dict.{Dict}
use rewsr_maxfields.Base.Int.{ℤ}
use rewsr_maxfields.Base.Float.{Float64}

-- A missing key of a section is `none`.
pub record TeeRaw : Type 0 where
  pub cpu_flags : Option (List Str)
  pub kvm_params : Option (Dict Str Bool)
  pub devices : Option (List Str)

pub record IommuRaw : Type 0 where
  pub groups : ℕ
  pub units : Option (List Str)
  pub cmdline_flags : Option (List Str)

pub record HugepageSize : Type 0 where
  pub size_kb : ℤ
  pub nr : ℤ
  pub free : ℤ

pub record HugepagesRaw : Type 0 where
  pub counters : Dict Str ℤ
  pub sizes : Option (List HugepageSize)

pub record KernelRaw : Type 0 where
  pub release : Option Str
  pub cmdline : Option Str
  pub modules : Option (List Str)
  pub sysctls : Option (Dict Str Str)

pub record NumaNode : Type 0 where
  pub id : ℤ
  pub cpus : ℤ
  pub size_mb : ℤ
  pub free_mb : ℤ

pub record NumaTopology : Type 0 where
  pub nodes : List NumaNode
  pub distances : List (List ℤ)

-- A field that the bonding driver does not print is the empty text.
pub record BondSlave : Type 0 where
  pub name : Str
  pub mii_status : Str
  pub speed_mbps : ℤ

pub record BondFacts : Type 0 where
  pub name : Str
  pub mode : Str
  pub hash_policy : Str
  pub mii_status : Str
  pub lacp_active : Str
  pub lacp_rate : Str
  pub slaves : List BondSlave

pub record NetTopology : Type 0 where
  pub bonds : Option (List BondFacts)
  pub vlans : Option (List Str)
  pub bridges : Option (List Str)

-- Names with the ids that `lspci` prints behind them, and what sysfs adds.
pub record PciDevice : Type 0 where
  pub address : Str
  pub class_name : Str
  pub class_id : Str
  pub vendor_name : Str
  pub vendor_id : Str
  pub device_name : Str
  pub device_id : Str
  pub revision : Str
  pub cur_link_gts : Float64
  pub max_link_gts : Float64
  pub cur_link_x : ℤ
  pub max_link_x : ℤ
  pub sriov_total : ℤ
  pub sriov_active : ℤ

pub record PciRaw : Type 0 where
  pub total_functions : ℕ
  pub devices : List PciDevice

pub record GpuDevice : Type 0 where
  pub address : Str
  pub vendor_id : Str
  pub device_id : Str
  pub class_id : Str
  pub kind : Str

pub record NvidiaSmiGpu : Type 0 where
  pub name : Str
  pub driver_version : Str
  pub memory_total : Str

pub record GpuRaw : Type 0 where
  pub pci_functions : Option (List GpuDevice)
  pub nvidia_smi : Option (List NvidiaSmiGpu)
  pub peermem_module : Bool

pub record RdmaDevice : Type 0 where
  pub device : Str
  pub port : ℤ
  pub state : Str
  pub physical_state : Str
  pub netdev : Str
  pub link_layer : Str
  pub transport : Str
  pub firmware_ver : Str

pub record LldpNeighbor : Type 0 where
  pub local_port : Str
  pub chassis_name : Str
  pub chassis_descr : Str
  pub mgmt_ip : Str
  pub port_id : Str
  pub port_descr : Str

pub record BmcSensors : Type 0 where
  pub temps_c : Dict Str Float64
  pub fans_rpm : Dict Str ℤ
  pub power_watts : Float64
  pub sensor_count : ℕ
  pub not_ok : List Str

-- The `phc_index` is -1 without a clock. A map that is nil is empty.
pub record NicOffloadFacts : Type 0 where
  pub driver : Dict Str Str
  pub rings_max : Dict Str ℤ
  pub rings_current : Dict Str ℤ
  pub channels_max : Dict Str ℤ
  pub channels_current : Dict Str ℤ
  pub timestamp_caps : List Str
  pub phc_index : ℤ

pub record NvmeDevice : Type 0 where
  pub device_path : Str
  pub model : Str
  pub firmware : Str
  pub serial : Str
  pub size_gb : ℤ

pub data Section : Type 0 where
  tee : TeeRaw → Section
  iommu : IommuRaw → Section
  hugepages : HugepagesRaw → Section
  kernel : KernelRaw → Section
  numa : NumaTopology → Section
  net_topology : NetTopology → Section
  pci : PciRaw → Section
  gpu : GpuRaw → Section
  rdma : List RdmaDevice → Section
  lldp_neighbors : List LldpNeighbor → Section
  bmc_sensors : BmcSensors → Section
  nic_offload : Dict Str NicOffloadFacts → Section
  nvme : List NvmeDevice → Section
  dmi : Dict Str Str → Section
  words : Str → Section
  switched : Bool → Section

-- ===== src/Api.antt =====
-- api/views.go and api/handlers.go: the curated views of the facts, and the handlers that serve them.
pub mod Handlers
pub mod Machine
pub mod Networks
pub mod Privacy
mod Tests
use rewsr_maxfields.Base.{
  ℕ, ◌<◌, Bool, true, false, not, ◌&&◌, ◌||◌, Option, none, some, List, [], ◌∷◌, ◌++◌, map, Str,
  str, ◌==◌, str_eq, contains, is_empty, keep, ltb, if◌then◌else◌,
}
use rewsr_maxfields.Base.Int.{ℤ, pos, add_int, ltb_ℤ, is_pos, is_zero}
use rewsr_maxfields.Text.Case.{equal_fold}
use rewsr_maxfields.Text.Decimal.{itoa}
use rewsr_maxfields.Facts.Types.{ServerFacts, CpuFacts, DiskFacts, NicFacts}

pub record PublicNetwork : Type 0 where
  pub public_ipv4 : Bool
  pub private_networks : List Str
  pub bandwidth_gbps : ℤ
  pub features : List Str

pub record PublicCapabilities : Type 0 where
  pub local_nvme : Bool
  pub sriov : Bool
  pub rdma : Bool
  pub secure_boot : Bool

pub record PublicLifecycle : Type 0 where
  pub provisioning : Str
  pub health : Str
  pub rescue_mode : Bool

pub record PublicServer : Type 0 where
  pub server_id : Str
  pub state : Str
  pub machine_type : Str
  pub region : Str
  pub network : PublicNetwork
  pub capabilities : PublicCapabilities
  pub lifecycle : PublicLifecycle

-- `networkFeatureCapabilities`
unfoldable pub is_network_feature : Str → Bool
is_network_feature c = c == str "sriov" || c == str "rdma" || c == str "high_bandwidth_networking"

-- `hasCapability` and `hasNetworkMode` are the same loop.
unfoldable pub has_capability : List Str → Str → Bool
has_capability [] name = false
has_capability (c ∷ cs) name = c == name || has_capability cs name

unfoldable pub private_networks : List Str → List Str
private_networks modes = keep (λ m. not (m == str "public_ipv4")) modes

unfoldable pub bandwidth_loop : List NicFacts → ℤ → ℤ
bandwidth_loop [] total = total
bandwidth_loop (n ∷ nics) total = bandwidth_loop nics (add_int total n.speed_gbps)

unfoldable pub total_bandwidth_gbps : List NicFacts → ℤ
total_bandwidth_gbps nics = bandwidth_loop nics (pos 0)

-- A key that the map lacks has rank 0.
unfoldable pub rank : Str → ℕ
rank type =
    if type == str "hdd"
    then 1
    else if type == str "ssd"
    then 2
    else if type == str "nvme"
    then 3
    else 0

unfoldable pub best_disk : List DiskFacts → Str → Str
best_disk [] best = best
best_disk (d ∷ disks) best =
    best_disk disks (if ltb (rank best) (rank d.type) then d.type else best)

unfoldable pub primary_disk_type : List DiskFacts → Str
primary_disk_type disks = best_disk disks []

unfoldable pub disk_suffix : Str → Str
disk_suffix type =
    if type == str "nvme"
    then str "-nvme"
    else if type == str "ssd"
    then str "-ssd"
    else if type == str "hdd"
    then str "-hdd"
    else []

abbrev pub zero_public : PublicServer
zero_public = record {
  server_id = [];
  state = [];
  machine_type = [];
  region = [];
  network = record {
    public_ipv4 = false;
    private_networks = [];
    bandwidth_gbps = pos 0;
    features = [];
  };
  capabilities = record { local_nvme = false; sriov = false; rdma = false; secure_boot = false };
  lifecycle = record { provisioning = []; health = []; rescue_mode = false };
}

module _ {V : Type 0} where
  unfoldable pub derive_state : ServerFacts V → Str
  derive_state f =
      if equal_fold f.provisioning (str "provisioning")
      then str "provisioning"
      else if equal_fold f.health (str "healthy")
      then str "active"
      else if equal_fold f.health (str "degraded")
      then str "degraded"
      else str "unknown"

  unfoldable pub derive_machine_type : ServerFacts V → Str
  derive_machine_type f =
      if is_zero f.cpu.cores && is_zero f.memory_gb
      then str "unknown"
      else itoa f.cpu.cores
        ++ (str "c-" ++ (itoa f.memory_gb ++ (str "gb" ++ disk_suffix (primary_disk_type f.disks))))

  unfoldable pub public_view : Option (ServerFacts V) → PublicServer
  public_view none = zero_public
  public_view (some f) = record {
    server_id = f.server_id;
    state = derive_state f;
    machine_type = derive_machine_type f;
    region = f.failure_domain;
    network = record {
      public_ipv4 = has_capability f.network_modes (str "public_ipv4");
      private_networks = private_networks f.network_modes;
      bandwidth_gbps = total_bandwidth_gbps f.nics;
      features = keep is_network_feature f.capabilities;
    };
    capabilities = record {
      local_nvme = has_capability f.capabilities (str "local_nvme");
      sriov = has_capability f.capabilities (str "sriov");
      rdma = has_capability f.capabilities (str "rdma");
      secure_boot = has_capability f.capabilities (str "secure_boot");
    };
    lifecycle = record {
      provisioning = f.provisioning;
      health = f.health;
      rescue_mode = equal_fold f.provisioning (str "rescue");
    };
  }

pub record HardwareCpu : Type 0 where
  pub model : Str
  pub sockets : ℤ
  pub cores : ℤ

pub record HardwareNic : Type 0 where
  pub name : Str
  pub speed_gbps : ℤ
  pub features : List Str

pub record HardwareNuma : Type 0 where
  pub available : Bool
  pub topology_exposed : Bool

pub record HardwareServer : Type 0 where
  pub server_id : Str
  pub cpu : HardwareCpu
  pub memory_gb : ℤ
  pub nics : List HardwareNic
  pub numa : HardwareNuma

unfoldable pub derive_numa : CpuFacts → HardwareNuma
derive_numa cpu = record {
  available = ltb_ℤ (pos 1) cpu.sockets;
  topology_exposed = is_pos cpu.sockets && is_pos cpu.cores && is_pos cpu.threads;
}

abbrev pub hardware_nic : NicFacts → HardwareNic
hardware_nic n = record { name = n.name; speed_gbps = n.speed_gbps; features = n.features }

abbrev pub zero_hardware : HardwareServer
zero_hardware = record {
  server_id = [];
  cpu = record { model = []; sockets = pos 0; cores = pos 0 };
  memory_gb = pos 0;
  nics = [];
  numa = record { available = false; topology_exposed = false };
}

unfoldable pub hardware_view : {V : Type 0} → Option (ServerFacts V) → HardwareServer
hardware_view none = zero_hardware
hardware_view (some f) = record {
  server_id = f.server_id;
  cpu = record { model = f.cpu.model; sockets = f.cpu.sockets; cores = f.cpu.cores };
  memory_gb = f.memory_gb;
  nics = map hardware_nic f.nics;
  numa = derive_numa f.cpu;
}

-- ===== src/Api/Privacy.antt =====
-- What the views read of the facts, and what they do not.
use rewsr_maxfields.Base.{◌≡◌, refl, ap, false, none, some, List, [], ◌∷◌, map, Str}
use rewsr_maxfields.Base.Int.{ℤ, pos, add_int}
use rewsr_maxfields.Facts.Types.{ServerFacts, DiskFacts, NicFacts, zero_cpu}
use rewsr_maxfields.Api.{
  public_view, hardware_view, hardware_nic, bandwidth_loop, total_bandwidth_gbps, best_disk,
  primary_disk_type, derive_state, derive_machine_type, derive_numa,
}

-- A NIC of which only the speed is left.
abbrev pub redact_nic : NicFacts → NicFacts
redact_nic n = record { name = []; mac = []; speed_gbps = n.speed_gbps; driver = []; features = [] }

-- A disk of which only the type is left.
abbrev pub redact_disk : DiskFacts → DiskFacts
redact_disk d = record { name = []; type = d.type; size_gb = pos 0; rotational = false }

-- A NIC without its address and driver.
abbrev pub redact_address : NicFacts → NicFacts
redact_address n = record n { mac = []; driver = [] }

bandwidth-redact :
    (nics : List NicFacts) (total : ℤ)
    → bandwidth_loop (map redact_nic nics) total ≡ bandwidth_loop nics total
unfolding bandwidth_loop
bandwidth-redact [] total = refl
bandwidth-redact (n ∷ nics) total = bandwidth-redact nics (add_int total n.speed_gbps)

best_disk-redact :
    (disks : List DiskFacts) (best : Str)
    → best_disk (map redact_disk disks) best ≡ best_disk disks best
unfolding best_disk
best_disk-redact [] best = refl
best_disk-redact (d ∷ disks) best = best_disk-redact disks _

hardware_nic-redact :
    (nics : List NicFacts) → map hardware_nic (map redact_address nics) ≡ map hardware_nic nics
hardware_nic-redact [] = refl
hardware_nic-redact (n ∷ nics) = ap (◌∷◌ (hardware_nic n)) (hardware_nic-redact nics)

module _ {V : Type 0} (f : ServerFacts V) where
  -- The facts with nothing but what `PublicView` reads: the id, the provisioning and health states, the
  -- cores, the memory, the types of the disks, the speeds of the NICs, the capabilities, the network
  -- modes and the failure domain.
  abbrev pub read_by_public : ServerFacts V
  read_by_public = record f {
    observed_at = 0;
    source = [];
    power_state = [];
    cpu = record zero_cpu { cores = f.cpu.cores };
    disks = map redact_disk f.disks;
    nics = map redact_nic f.nics;
    raw = none;
  }

  -- `PublicView` does not change when these are taken from the facts: `Raw`, the source and the time of
  -- the observation, the power state, the CPU's vendor, model, sockets and threads, the names, sizes and
  -- media of disks, and the names, addresses, drivers and features of NICs. It hands on the failure
  -- domain as the region, as it is, also where that names a switch.
  pub public_view-read_by_public :
      (public_view (some f) ≡ public_view (some read_by_public))
      × ((public_view (some f)).region ≡ f.failure_domain)
  unfolding public_view total_bandwidth_gbps primary_disk_type derive_state derive_machine_type
  public_view-read_by_public = (simp (bandwidth-redact, best_disk-redact), refl)

  -- The facts without `Raw`, the source and time of the observation, the power, provisioning and
  -- health states, the CPU's vendor, the disks, the addresses and drivers of NICs, the capabilities,
  -- the network modes and the failure domain.
  abbrev pub redact_hardware : ServerFacts V
  redact_hardware = record f {
    observed_at = 0;
    source = [];
    power_state = [];
    provisioning = [];
    health = [];
    cpu = record f.cpu { vendor = [] };
    disks = [];
    nics = map redact_address f.nics;
    capabilities = [];
    network_modes = [];
    failure_domain = [];
    raw = none;
  }

  -- `HardwareView` is the same for the facts with and without MAC addresses, driver names, `Raw`, the
  -- failure domain and the other fields named above.
  pub hardware_view-redact : hardware_view (some f) ≡ hardware_view (some redact_hardware)
  unfolding hardware_view derive_numa
  hardware_view-redact = simp hardware_nic-redact

-- ===== src/Fleet/Tests.antt =====
-- Runs that follow fleet/fleet_test.go, and the theorems at their data.
use rewsr_maxfields.Base.{
  ◌≡◌, ◌≢◌, refl, false, not, ◌&&◌, Option, none, some, List, [], ◌∷◌, ◌++◌, arith, Str, str, ◌==◌,
  str_eq, pair_eq, contains, count,
}
use rewsr_maxfields.Base.Dict
use rewsr_maxfields.Base.Dict.{Dict, at}
use rewsr_maxfields.Base.Int.{ℤ, pos, int_eq, add_int, wrap, ◌+ℤ◌}
use rewsr_maxfields.Text.Sort.{sort, IsSorted}
use rewsr_maxfields.Facts.Types.{ServerFacts, zero_facts, zero_cpu}
use rewsr_maxfields.Fleet.{
  bump, bump_all, bump_ports, add_disk_sizes, add_nic_speeds, domain_of, aggregate_one,
  aggregate_loop, sort_domains, aggregate, is_capable, capable_ids, find_capable,
}
use rewsr_maxfields.Fleet.Capable.{count_servers, holds_all, find_capable_lem}
use rewsr_maxfields.Fleet.Counts.{sum_servers, count_ports, has_model, aggregate_counts}
use rewsr_maxfields.Fleet.Totals.{sum_ℤ, aggregate_totals}
use rewsr_maxfields.Fleet.Domains.{members, aggregate_domains}
use rewsr_maxfields.Fleet.Firmware.{
  bump_version, bump_keys, nvme_keys, nic_keys, spread_one, spread_loop, firmware_spread,
}
use rewsr_maxfields.Fleet.Firmware.Spread.{at_version, nvme_rows, nic_rows, firmware_spread_lem}

-- A value in `Raw` is what it decodes to.
abbrev Value : Type 0
Value = List (Str × Str)

abbrev drives : Value
drives = (str "PM9A3", str "GDC5") ∷ (str "PM9A3", str "GDC5") ∷ []

abbrev a : ServerFacts Value
a = record zero_facts {
  server_id = str "srv-b";
  health = str "healthy";
  power_state = str "on";
  cpu = record zero_cpu { model = str "EPYC"; cores = pos 32 };
  nics =
      record { name = []; mac = []; speed_gbps = pos 100; driver = []; features = [] }
      ∷ record { name = []; mac = []; speed_gbps = pos 0; driver = []; features = [] }
      ∷ [];
  capabilities = str "rdma" ∷ str "sriov" ∷ [];
  raw = some ((str "nvme", drives) ∷ []);
}

abbrev b : ServerFacts Value
b = record zero_facts {
  server_id = str "srv-a";
  health = str "odd";
  cpu = record zero_cpu { cores = pos 16 };
  capabilities = str "rdma" ∷ [];
}

abbrev fleet : List (Option (ServerFacts Value))
fleet = some a ∷ none ∷ some b ∷ []

fleet_summary : aggregate fleet ≡ record {
  servers = 2;
  healthy = 1;
  degraded = 0;
  unknown = 1;
  powered_on = 1;
  total_cores = pos 48;
  total_threads = pos 0;
  total_memory_gb = pos 0;
  total_disk_gb = pos 0;
  total_nic_gbps = pos 100;
  capability_counts = (str "rdma", 2) ∷ (str "sriov", 1) ∷ [];
  network_mode_counts = [];
  nic_speed_ports = (pos 100, 1) ∷ [];
  cpu_models = (str "EPYC", 1) ∷ [];
  failure_domains = (str "unassigned", str "srv-a" ∷ str "srv-b" ∷ []) ∷ [];
}
unfolding aggregate aggregate_loop aggregate_one sort_domains domain_of bump bump_all bump_ports
    add_disk_sizes add_nic_speeds add_int wrap ◌+ℤ◌ Dict.lookup Dict.insert sort str str_eq int_eq
fleet_summary = refl

capable : find_capable fleet (str "rdma" ∷ []) ≡ str "srv-a" ∷ str "srv-b" ∷ []
unfolding find_capable capable_ids is_capable sort str str_eq
capable = refl

find_capable_example :
    ((id : Str)
      → count id (find_capable fleet (str "sriov" ∷ []))
        ≡ count_servers (λ f. id == f.server_id && holds_all (str "sriov" ∷ []) f) fleet)
    × IsSorted (find_capable fleet (str "sriov" ∷ []))
find_capable_example = find_capable_lem fleet (str "sriov" ∷ [])

aggregate_counts_example :
    let s = aggregate fleet in
    (s.servers ≡ 2)
    × (s.healthy ≡ count_servers (λ f. f.health == str "healthy") fleet)
    × (s.degraded ≡ count_servers (λ f. f.health == str "degraded") fleet)
    × (s.unknown
        ≡ count_servers
            (λ f. not (f.health == str "healthy") && not (f.health == str "degraded"))
            fleet)
    × (s.powered_on ≡ count_servers (λ f. f.power_state == str "on") fleet)
    × ((c : Str) → at 0 c s.capability_counts ≡ sum_servers (λ f. count c f.capabilities) fleet)
    × ((c : Str) → at 0 c s.network_mode_counts ≡ sum_servers (λ f. count c f.network_modes) fleet)
    × ((v : ℤ) → at 0 v s.nic_speed_ports ≡ sum_servers (λ f. count_ports v f.nics) fleet)
    × ((m : Str) → at 0 m s.cpu_models ≡ count_servers (has_model m) fleet)
aggregate_counts_example = aggregate_counts fleet

distinct : (contains (str "rdma") (str "sriov" ∷ []) ≡ false)
unfolding str str_eq
distinct = refl

aggregate_totals_example :
    let s = aggregate fleet in
    (s.total_cores ≡ wrap (sum_ℤ (pos 32 ∷ pos 16 ∷ []) (pos 0)))
    × (s.total_threads ≡ wrap (sum_ℤ (pos 0 ∷ pos 0 ∷ []) (pos 0)))
    × (s.total_memory_gb ≡ wrap (sum_ℤ (pos 0 ∷ pos 0 ∷ []) (pos 0)))
    × (s.total_disk_gb ≡ wrap (sum_ℤ [] (pos 0)))
    × (s.total_nic_gbps ≡ wrap (sum_ℤ (pos 100 ∷ pos 0 ∷ []) (pos 0)))
aggregate_totals_example = aggregate_totals fleet

aggregate_domains_example :
    at [] (str "unassigned") (aggregate fleet).failure_domains
    ≡ sort (members (str "unassigned") fleet)
aggregate_domains_example = aggregate_domains fleet (str "unassigned")

abbrev decode_nvme : Value → Option (List (Str × Str))
decode_nvme = some

abbrev decode_nics : Value → Option (Dict Str (Dict Str Str))
decode_nics _ = none

-- Two equal drives of one server are one data point.
spread_of_fleet :
    firmware_spread decode_nvme decode_nics fleet ≡ (str "nvme:PM9A3", (str "GDC5", 1) ∷ []) ∷ []
unfolding firmware_spread spread_loop spread_one nvme_keys nic_keys bump_keys bump_version bump
    Dict.lookup Dict.insert str str_eq pair_eq
spread_of_fleet = refl

gdc5_nonempty : str "GDC5" ≢ []
unfolding str
gdc5_nonempty = ground arith

firmware_spread_example :
    (at_version
        (str "nvme:" ++ str "PM9A3")
        (str "GDC5")
        (firmware_spread decode_nvme decode_nics fleet)
      ≡ count_servers
          (λ f. contains (str "PM9A3", str "GDC5") (nvme_rows decode_nvme decode_nics f))
          fleet)
    × (at_version
          (str "nic:" ++ str "PM9A3")
          (str "GDC5")
          (firmware_spread decode_nvme decode_nics fleet)
        ≡ count_servers
            (λ f. contains (str "PM9A3", str "GDC5") (nic_rows decode_nvme decode_nics f))
            fleet)
firmware_spread_example =
    firmware_spread_lem decode_nvme decode_nics fleet (str "PM9A3") (str "GDC5") gdc5_nonempty

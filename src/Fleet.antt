-- ===== src/Fleet.antt =====
-- fleet/fleet.go: the rollup over the facts of many servers. Counters count elements of slices and
-- are plain numbers; totals of reported values are machine integers that wrap.
pub mod Capable
pub mod Counts
pub mod Domains
pub mod Firmware
pub mod Totals
mod Tests
use rewsr_maxfields.Base.{
  ℕ, suc, ◌+◌, Bool, true, false, not, ◌&&◌, Option, none, some, List, [], ◌∷◌, ◌++◌, Str, str,
  ◌==◌, str_eq, contains, is_empty, all, if◌then◌else◌,
}
use rewsr_maxfields.Base.Dict.{Dict, lookup, at, insert}
use rewsr_maxfields.Base.Int.{ℤ, pos, int_eq, add_int, is_pos}
use rewsr_maxfields.Base.{Eq}
use rewsr_maxfields.Text.Sort.{sort}
use rewsr_maxfields.Facts.Types.{ServerFacts, DiskFacts, NicFacts}

pub record Summary : Type 0 where
  pub servers : ℕ
  pub healthy : ℕ
  pub degraded : ℕ
  pub unknown : ℕ
  pub powered_on : ℕ
  pub total_cores : ℤ
  pub total_threads : ℤ
  pub total_memory_gb : ℤ
  pub total_disk_gb : ℤ
  pub total_nic_gbps : ℤ
  pub capability_counts : Dict Str ℕ
  pub network_mode_counts : Dict Str ℕ
  pub nic_speed_ports : Dict ℤ ℕ
  pub cpu_models : Dict Str ℕ
  pub failure_domains : Dict Str (List Str)

abbrev pub empty_summary : Summary
empty_summary = record {
  servers = 0;
  healthy = 0;
  degraded = 0;
  unknown = 0;
  powered_on = 0;
  total_cores = pos 0;
  total_threads = pos 0;
  total_memory_gb = pos 0;
  total_disk_gb = pos 0;
  total_nic_gbps = pos 0;
  capability_counts = [];
  network_mode_counts = [];
  nic_speed_ports = [];
  cpu_models = [];
  failure_domains = [];
}

-- `m[k]++`
unfoldable pub bump {ℓ} : {K : Type ℓ} ⦃e : Eq K⦄ → K → Dict K ℕ → Dict K ℕ
bump k d = insert k (suc (at 0 k d)) d

-- `for _, k := range ks { m[k]++ }`
unfoldable pub bump_all : List Str → Dict Str ℕ → Dict Str ℕ
bump_all [] d = d
bump_all (k ∷ ks) d = bump_all ks (bump k d)

unfoldable pub add_disk_sizes : List DiskFacts → ℤ → ℤ
add_disk_sizes [] total = total
add_disk_sizes (d ∷ ds) total = add_disk_sizes ds (add_int total d.size_gb)

unfoldable pub add_nic_speeds : List NicFacts → ℤ → ℤ
add_nic_speeds [] total = total
add_nic_speeds (n ∷ ns) total = add_nic_speeds ns (add_int total n.speed_gbps)

unfoldable pub bump_ports : List NicFacts → Dict ℤ ℕ → Dict ℤ ℕ
bump_ports [] d = d
bump_ports (n ∷ ns) d = bump_ports ns (if is_pos n.speed_gbps then bump n.speed_gbps d else d)

-- The domain under which a server is listed.
unfoldable pub domain_of : Str → Str
domain_of domain = if is_empty domain then str "unassigned" else domain

abbrev pub incr : Bool → ℕ → ℕ
incr b n = if b then suc n else n

module _ {V : Type 0} where
  -- One round of the loop over the servers.
  unfoldable pub aggregate_one : ServerFacts V → Summary → Summary
  aggregate_one f s = record {
    servers = suc s.servers;
    healthy = incr (f.health == str "healthy") s.healthy;
    degraded = incr (not (f.health == str "healthy") && f.health == str "degraded") s.degraded;
    unknown = incr (not (f.health == str "healthy") && not (f.health == str "degraded")) s.unknown;
    powered_on = incr (f.power_state == str "on") s.powered_on;
    total_cores = add_int s.total_cores f.cpu.cores;
    total_threads = add_int s.total_threads f.cpu.threads;
    total_memory_gb = add_int s.total_memory_gb f.memory_gb;
    total_disk_gb = add_disk_sizes f.disks s.total_disk_gb;
    total_nic_gbps = add_nic_speeds f.nics s.total_nic_gbps;
    capability_counts = bump_all f.capabilities s.capability_counts;
    network_mode_counts = bump_all f.network_modes s.network_mode_counts;
    nic_speed_ports = bump_ports f.nics s.nic_speed_ports;
    cpu_models = if is_empty f.cpu.model then s.cpu_models else bump f.cpu.model s.cpu_models;
    failure_domains =
        let domain = domain_of f.failure_domain in
        insert domain (at [] domain s.failure_domains ++ f.server_id ∷ []) s.failure_domains;
  }

  -- Nil entries are skipped.
  unfoldable pub aggregate_loop : List (Option (ServerFacts V)) → Summary → Summary
  aggregate_loop [] s = s
  aggregate_loop (none ∷ fs) s = aggregate_loop fs s
  aggregate_loop (some f ∷ fs) s = aggregate_loop fs (aggregate_one f s)

-- `for _, ids := range s.FailureDomains { sort.Strings(ids) }`
unfoldable pub sort_domains : Dict Str (List Str) → Dict Str (List Str)
sort_domains [] = []
sort_domains ((k, ids) ∷ d) = (k, sort ids) ∷ sort_domains d

module _ {V : Type 0} where
  unfoldable pub aggregate : List (Option (ServerFacts V)) → Summary
  aggregate fs =
      let s = aggregate_loop fs empty_summary in
      record s { failure_domains = sort_domains s.failure_domains }

  -- The loop over `required` stops at the first that is missing.
  unfoldable pub is_capable : List Str → ServerFacts V → Bool
  is_capable required f = all (λ r. contains r f.capabilities) required

  unfoldable pub capable_ids : List (Option (ServerFacts V)) → List Str → List Str
  capable_ids [] required = []
  capable_ids (none ∷ fs) required = capable_ids fs required
  capable_ids (some f ∷ fs) required =
      let rest = capable_ids fs required in
      if is_capable required f then f.server_id ∷ rest else rest

  unfoldable pub find_capable : List (Option (ServerFacts V)) → List Str → List Str
  find_capable fs required = sort (capable_ids fs required)

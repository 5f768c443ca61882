-- ===== src/Facts/Tests.antt =====
-- Runs that follow facts/infer_test.go and facts/merge_test.go, and the theorems at their data.
use rewsr_maxfields.Base.{
  ℕ, ◌≡◌, refl, true, false, not, ◌&&◌, ◌||◌, none, some, List, [], ◌∷◌, arith, Str, str, nat_eq,
  str_eq, All, contains, is_empty, any, IsNodup,
}
use rewsr_maxfields.Base.Dict
use rewsr_maxfields.Base.Int.{pos}
use rewsr_maxfields.Text.Case.{to_lower, equal_fold}
use rewsr_maxfields.Text.Sort.{sort, IsSorted}
use rewsr_maxfields.Text.Split.{split, join, Lacks}
use rewsr_maxfields.Facts.Types.{ServerFacts, Collector, zero_facts}
use rewsr_maxfields.Facts.Infer.{
  add, add_all, add_disks, add_nics, add_features, add_feature, is_nvme, is_fast,
  infer_capabilities, infer_health, has_hardware_facts,
}
use rewsr_maxfields.Facts.Infer.Capabilities.{is_inferred, infer_capabilities_lem}
use rewsr_maxfields.Facts.Merge.{
  merge_into, merge_cpu, merge_source, merge_raw, fill_raw, union_strings, union_loop,
}
use rewsr_maxfields.Facts.Merge.Union.{union_strings_lem}
use rewsr_maxfields.Facts.Build.{
  ok, err, join_errors, run_collectors, complete, finish, build_server_facts,
}
use rewsr_maxfields.Facts.Build.Outcomes.{outcome, build_server_facts_lem}
use rewsr_maxfields.Facts.Build.Gaps.{IsFirst, build_server_facts-IsFirst}
use rewsr_maxfields.Facts.Build.Unions.{is_reported, build_server_facts-ok}

abbrev box : ServerFacts ℕ
box = record zero_facts {
  power_state = str "on";
  disks =
      record { name = []; type = str "hdd"; size_gb = pos 0; rotational = true }
      ∷ record { name = []; type = str "NVMe"; size_gb = pos 500; rotational = false }
      ∷ [];
  nics =
      record { name = []; mac = []; speed_gbps = pos 10; driver = []; features = [] }
      ∷ record {
        name = [];
        mac = [];
        speed_gbps = pos 100;
        driver = [];
        features = str "RDMA" ∷ str "sr-iov" ∷ [];
      }
      ∷ [];
}

box_capabilities :
    infer_capabilities (some box)
    ≡ str "high_bandwidth_networking"
      ∷ str "local_nvme"
      ∷ str "power_control"
      ∷ str "rdma"
      ∷ str "sriov"
      ∷ []
unfolding infer_capabilities add add_all add_disks add_nics add_features add_feature is_nvme is_fast
    str_eq str to_lower equal_fold sort
box_capabilities = refl

box_health : infer_health (some box) ≡ str "healthy"
unfolding infer_health has_hardware_facts equal_fold str
box_health = refl

infer_capabilities_example :
    ((c : Str) → contains c (infer_capabilities (some box)) ≡ is_inferred box c)
    × IsSorted (infer_capabilities (some box))
    × IsNodup (infer_capabilities (some box))
infer_capabilities_example = infer_capabilities_lem box

abbrev host : ServerFacts ℕ
host = record zero_facts {
  source = str "linux_host";
  power_state = str "on";
  memory_gb = pos 64;
  capabilities = str "sev" ∷ [];
  raw = some ((str "a", 1) ∷ []);
}

abbrev bmc : ServerFacts ℕ
bmc = record zero_facts {
  source = str "redfish";
  power_state = str "off";
  failure_domain = str "fd-1";
  raw = some ((str "a", 2) ∷ (str "b", 3) ∷ []);
}

-- The host answers with an error beside its facts, a third collector with an error alone.
abbrev collectors : List (Collector ℕ)
collectors =
    (λ _. (some host, some (str "no lsblk")))
    ∷ (λ _. (none, some (str "boom")))
    ∷ (λ _. (some bmc, none))
    ∷ []

abbrev merged : ServerFacts ℕ
merged = record zero_facts {
  server_id = str "srv-1";
  observed_at = 7;
  source = str "linux_host+redfish";
  power_state = str "on";
  health = str "healthy";
  memory_gb = pos 64;
  capabilities = str "power_control" ∷ str "sev" ∷ [];
  failure_domain = str "fd-1";
  raw = some ((str "a", 1) ∷ (str "b", 3) ∷ []);
}

built : build_server_facts 7 (str "srv-1") collectors ≡ ok merged
unfolding build_server_facts run_collectors finish complete merge_into merge_cpu merge_source
    merge_raw fill_raw union_strings union_loop Dict.lookup Dict.insert infer_capabilities
    infer_health has_hardware_facts add add_all add_disks add_nics str_eq str equal_fold sort split
built = refl

all_fail :
    build_server_facts {V = ℕ} 7
      (str "srv-1")
      ((λ _. (none, some (str "boom"))) ∷ (λ _. (none, some (str "bang"))) ∷ [])
    ≡ err (str "all collectors failed for server srv-1: boom; bang")
unfolding build_server_facts run_collectors finish join_errors str join
all_fail = refl

build_server_facts_example :
    build_server_facts 7 (str "srv-1") collectors
    ≡ outcome 7 (str "srv-1") (host ∷ bmc ∷ []) (str "no lsblk" ∷ str "boom" ∷ [])
build_server_facts_example = build_server_facts_lem 7 (str "srv-1") collectors

build_server_facts-IsFirst_example : IsFirst (host ∷ bmc ∷ []) merged
build_server_facts-IsFirst_example = build_server_facts-IsFirst 7 (str "srv-1") collectors built

no_plus : All (λ f. Lacks b'+' f.source) (host ∷ bmc ∷ [])
unfolding str nat_eq
no_plus = ground arith

build_server_facts-ok_example :
    (merged.server_id ≡ str "srv-1")
    × (merged.observed_at ≡ 7)
    × ((c : Str) → contains c merged.capabilities ≡ is_reported c (host ∷ bmc ∷ []) merged)
    × IsSorted merged.capabilities
    × IsNodup merged.capabilities
    × ((c : Str)
        → contains c merged.network_modes
          ≡ (any (λ f. contains c f.network_modes) (host ∷ bmc ∷ []) && not (is_empty c)))
    × IsNodup merged.network_modes
    × (merged.health ≡ infer_health (some merged))
build_server_facts-ok_example = build_server_facts-ok 7 (str "srv-1") collectors built

union_strings_example :
    let u = union_strings (str "a" ∷ []) (str "b" ∷ str "a" ∷ []) in
    ((c : Str)
      → contains c u
        ≡ (contains c (str "a" ∷ []) || contains c (str "b" ∷ str "a" ∷ []) && not (is_empty c)))
    × ((more : List Str) × (u ≡ str "a" ∷ more))
    × (IsNodup (str "a" ∷ []) → IsNodup u)
union_strings_example = union_strings_lem (str "a" ∷ []) (str "b" ∷ str "a" ∷ [])

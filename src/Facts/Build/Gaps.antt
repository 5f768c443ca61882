-- ===== src/Facts/Build/Gaps.antt =====
-- Gaps are filled and nothing is overwritten: in a successful build each field holds the first value
-- that a collector set.
use mathlib.Core.List.{foldl}
use rewsr_maxfields.Base.{
  ◌≡◌, ◌∙◌, sym, refl, Bool, true, Option, none, some, List, [], ◌∷◌, arith, Str, str_eq, is_empty,
  map, if◌then◌else◌,
}
use rewsr_maxfields.Base.Dict.{lookup-nil}
use rewsr_maxfields.Base.Int.{ℤ, pos, negsuc, is_zero}
use rewsr_maxfields.Facts.Types.{ServerFacts, Collector, Time, zero_facts}
use rewsr_maxfields.Facts.Merge.{fill_gap, merge_into, merge_cpu}
use rewsr_maxfields.Facts.Merge.Raw.{lookup_raw, first_of_two, lookup-merge_raw}
use rewsr_maxfields.Facts.Build.{ok, complete, build_server_facts}
use rewsr_maxfields.Facts.Build.Outcomes.{
  reported, errors_of, merge_all, outcome, build_server_facts_lem,
}

-- The first value that is set, or the default.
abbrev pub first_set {ℓ} : {A : Type ℓ} → (A → Bool) → A → List A → A
first_set is_unset d [] = d
first_set is_unset d (x ∷ xs) = if is_unset x then first_set is_unset d xs else x

-- The first binding among the maps.
abbrev pub first_bound {ℓ} : {A : Type ℓ} → List (Option A) → Option A
first_bound [] = none
first_bound (none ∷ xs) = first_bound xs
first_bound (some a ∷ xs) = some a

module _ {V : Type 0} where
  -- A field that `merge_into` fills where it is unset.
  first_wins :
      {A : Type 0} (is_unset : A → Bool) (d : A) (field : ServerFacts V → A)
      → ((x : A) → is_unset x ≡ true → x ≡ d)
      → ((dst src : ServerFacts V)
          → field (merge_into dst src) ≡ fill_gap is_unset (field dst) (field src))
      → (fs : List (ServerFacts V)) (m : ServerFacts V)
      → field (foldl merge_into m fs)
        ≡ fill_gap is_unset (field m) (first_set is_unset d (map field fs))
  first_wins is_unset d field unset law [] m = ground (arith, unset (field m))
  first_wins is_unset d field unset law (f ∷ fs) m =
      ground
        (arith, first_wins is_unset d field unset law fs (merge_into m f), law m f, unset (field f))

empty_unset {ℓ} : {A : Type ℓ} (xs : List A) → is_empty xs ≡ true → xs ≡ []
empty_unset [] h = refl
empty_unset (x ∷ xs) h = ground arith

zero_unset : (a : ℤ) → is_zero a ≡ true → a ≡ pos 0
zero_unset (pos n) h = ground arith
zero_unset (negsuc n) h = ground arith

module _ {V : Type 0} where
  -- Each field is the first set value of the reports, and each key of `Raw` has its first binding.
  pub record IsFirst (fs : List (ServerFacts V)) (m : ServerFacts V) : Type 0 where
    pub power_state : m.power_state ≡ first_set is_empty [] (map (λ f. f.power_state) fs)
    pub provisioning : m.provisioning ≡ first_set is_empty [] (map (λ f. f.provisioning) fs)
    pub failure_domain : m.failure_domain ≡ first_set is_empty [] (map (λ f. f.failure_domain) fs)
    pub vendor : m.cpu.vendor ≡ first_set is_empty [] (map (λ f. f.cpu.vendor) fs)
    pub model : m.cpu.model ≡ first_set is_empty [] (map (λ f. f.cpu.model) fs)
    pub sockets : m.cpu.sockets ≡ first_set is_zero (pos 0) (map (λ f. f.cpu.sockets) fs)
    pub cores : m.cpu.cores ≡ first_set is_zero (pos 0) (map (λ f. f.cpu.cores) fs)
    pub threads : m.cpu.threads ≡ first_set is_zero (pos 0) (map (λ f. f.cpu.threads) fs)
    pub memory_gb : m.memory_gb ≡ first_set is_zero (pos 0) (map (λ f. f.memory_gb) fs)
    pub disks : m.disks ≡ first_set is_empty [] (map (λ f. f.disks) fs)
    pub nics : m.nics ≡ first_set is_empty [] (map (λ f. f.nics) fs)
    pub raw : (k : Str) → lookup_raw k m.raw ≡ first_bound (map (λ f. lookup_raw k f.raw) fs)

  lookup-merge_all :
      (k : Str) (fs : List (ServerFacts V)) (m : ServerFacts V)
      → lookup_raw k (foldl merge_into m fs).raw
        ≡ first_of_two (lookup_raw k m.raw) (first_bound (map (λ f. lookup_raw k f.raw) fs))
  unfolding merge_into
  lookup-merge_all k [] m = ground arith
  lookup-merge_all k (f ∷ fs) m =
      ground (arith, lookup-merge_all k fs (merge_into m f), lookup-merge_raw k m.raw f.raw)

  merge_all-IsFirst :
      (server_id : Str) (fs : List (ServerFacts V)) → IsFirst fs (merge_all server_id fs)
  unfolding merge_into merge_cpu
  merge_all-IsFirst server_id fs =
      let m : ServerFacts V = record zero_facts { server_id = server_id; raw = some [] } in
      record {
        power_state = first_wins is_empty [] (λ f. f.power_state) empty_unset (λ d s. refl) fs m;
        provisioning = first_wins is_empty [] (λ f. f.provisioning) empty_unset (λ d s. refl) fs m;
        failure_domain =
            first_wins is_empty [] (λ f. f.failure_domain) empty_unset (λ d s. refl) fs m;
        vendor = first_wins is_empty [] (λ f. f.cpu.vendor) empty_unset (λ d s. refl) fs m;
        model = first_wins is_empty [] (λ f. f.cpu.model) empty_unset (λ d s. refl) fs m;
        sockets = first_wins is_zero (pos 0) (λ f. f.cpu.sockets) zero_unset (λ d s. refl) fs m;
        cores = first_wins is_zero (pos 0) (λ f. f.cpu.cores) zero_unset (λ d s. refl) fs m;
        threads = first_wins is_zero (pos 0) (λ f. f.cpu.threads) zero_unset (λ d s. refl) fs m;
        memory_gb = first_wins is_zero (pos 0) (λ f. f.memory_gb) zero_unset (λ d s. refl) fs m;
        disks = first_wins is_empty [] (λ f. f.disks) empty_unset (λ d s. ground arith) fs m;
        nics = first_wins is_empty [] (λ f. f.nics) empty_unset (λ d s. ground arith) fs m;
        raw = λ k. lookup-merge_all k fs m ∙ rw lookup-nil;
      }

  outcome_ok :
      (now : Time) (server_id : Str) (fs : List (ServerFacts V)) (errs : List Str)
      {m : ServerFacts V}
      → outcome now server_id fs errs ≡ ok m
      → m ≡ complete now server_id (merge_all server_id fs)
  outcome_ok now server_id [] errs h = ground arith
  outcome_ok now server_id (f ∷ fs) errs h = ground arith

  pub build_ok :
      (now : Time) (server_id : Str) (cs : List (Collector V)) {m : ServerFacts V}
      → build_server_facts now server_id cs ≡ ok m
      → m ≡ complete now server_id (merge_all server_id (reported cs server_id))
  build_ok now server_id cs h =
      outcome_ok now server_id (reported cs server_id) (errors_of cs server_id)
        (sym (build_server_facts_lem now server_id cs) ∙ h)

  complete-IsFirst :
      (now : Time) (server_id : Str) (fs : List (ServerFacts V)) (m : ServerFacts V)
      → IsFirst fs m
      → IsFirst fs (complete now server_id m)
  unfolding complete
  complete-IsFirst now server_id fs m h = record {
    power_state = h.power_state;
    provisioning = h.provisioning;
    failure_domain = h.failure_domain;
    vendor = h.vendor;
    model = h.model;
    sockets = h.sockets;
    cores = h.cores;
    threads = h.threads;
    memory_gb = h.memory_gb;
    disks = h.disks;
    nics = h.nics;
    raw = h.raw;
  }

  -- In a successful build the power state, the provisioning state, the failure domain, each CPU fact,
  -- the memory, the disks, the NICs and each entry of `Raw` are those of the first collector, in
  -- order, that reported them; a later collector never overwrites an earlier one.
  pub build_server_facts-IsFirst :
      (now : Time) (server_id : Str) (cs : List (Collector V)) {m : ServerFacts V}
      → build_server_facts now server_id cs ≡ ok m
      → IsFirst (reported cs server_id) m
  build_server_facts-IsFirst now server_id cs h =
      rw (build_ok now server_id cs h)
        (complete-IsFirst now server_id _ _ (merge_all-IsFirst server_id (reported cs server_id)))

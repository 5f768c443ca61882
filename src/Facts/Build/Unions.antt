-- ===== src/Facts/Build/Unions.antt =====
-- The list fields of a successful build, its source string, and the fields set behind the loop.
use mathlib.Core.List.{foldl}
use rewsr_maxfields.Base.{
  ◌≡◌, ◌∙◌, refl, ap, Bool, not, ◌&&◌, ◌||◌, some, List, [], ◌∷◌, arith, Str, str, ◌==◌, str_eq,
  is_empty, contains, any, map, All, IsNodup,
}
use rewsr_maxfields.Text.Split.{Lacks}
use rewsr_maxfields.Text.Sort.{IsSorted}
use rewsr_maxfields.Facts.Types.{ServerFacts, Collector, Time, zero_facts}
use rewsr_maxfields.Facts.Infer.{infer_health, has_hardware_facts}
use rewsr_maxfields.Facts.Infer.Capabilities.{nvme_drive, nic_adds, infer_capabilities_lem}
use rewsr_maxfields.Facts.Merge.{merge_into, union_loop, union_strings}
use rewsr_maxfields.Facts.Merge.Source.{names, names-merge_source}
use rewsr_maxfields.Facts.Merge.Union.{union_strings_lem}
use rewsr_maxfields.Facts.Build.{ok, complete, build_server_facts}
use rewsr_maxfields.Facts.Build.Outcomes.{reported, merge_all}
use rewsr_maxfields.Facts.Build.Gaps.{build_ok}

union_loop-append_src :
    (s : Str) (src out : List Str)
    → union_loop src (union_loop (s ∷ []) out) ≡ union_loop (s ∷ src) out
unfolding union_loop
union_loop-append_src s src out = refl

module _ {V : Type 0} where
  -- A list field that `merge_into` unites holds what some report holds, empty texts aside.
  contains-united :
      (field : ServerFacts V → List Str)
      → ((dst src : ServerFacts V)
          → field (merge_into dst src) ≡ union_strings (field dst) (field src))
      → (c : Str) (fs : List (ServerFacts V)) (m : ServerFacts V)
      → contains c (field (foldl merge_into m fs))
        ≡ (contains c (field m) || any (λ f. contains c (field f)) fs && not (is_empty c))
  contains-united field law c [] m = ground arith
  contains-united field law c (f ∷ fs) m = ground (
    arith,
    contains-united field law c fs (merge_into m f),
    law m f,
    (union_strings_lem (field m) (field f)).0 c,
  )

  united-IsNodup :
      (field : ServerFacts V → List Str)
      → ((dst src : ServerFacts V)
          → field (merge_into dst src) ≡ union_strings (field dst) (field src))
      → (fs : List (ServerFacts V)) (m : ServerFacts V) → IsNodup (field m)
      → IsNodup (field (foldl merge_into m fs))
  united-IsNodup field law [] m u = u
  united-IsNodup field law (f ∷ fs) m u =
      united-IsNodup field law fs (merge_into m f)
        (rw (law m f) ((union_strings_lem (field m) (field f)).2 u))

  names-united :
      (fs : List (ServerFacts V)) (m : ServerFacts V)
      → All (λ f. Lacks b'+' f.source) fs
      → names (foldl merge_into m fs).source ≡ union_loop (map (λ f. f.source) fs) (names m.source)
  unfolding merge_into
  names-united [] m h = unfold union_loop in refl
  names-united (f ∷ fs) m (h, hs) =
      names-united fs (merge_into m f) hs
      ∙ ap (union_loop (map (λ f. f.source) fs)) (names-merge_source m.source f.source h)
      ∙ union_loop-append_src f.source (map (λ f. f.source) fs) (names m.source)

  -- The source string of a successful build names the collectors that returned facts, each once, in
  -- the order of their first report and without empty names, if no collector's own name holds a "+".
  pub names-build_server_facts :
      (now : Time) (server_id : Str) (cs : List (Collector V)) {m : ServerFacts V}
      → build_server_facts now server_id cs ≡ ok m
      → All (λ f. Lacks b'+' f.source) (reported cs server_id)
      → names m.source ≡ union_loop (map (λ f. f.source) (reported cs server_id)) []
  unfolding complete
  names-build_server_facts now server_id cs h lacks =
      rw (build_ok now server_id cs h) (names-united (reported cs server_id) _ lacks)

  -- What a capability of the merged facts rests on.
  abbrev pub is_reported : Str → List (ServerFacts V) → ServerFacts V → Bool
  is_reported c fs m =
      any (λ f. contains c f.capabilities) fs && not (is_empty c)
      || c == str "local_nvme" && any nvme_drive m.disks
      || any (nic_adds c) m.nics
      || c == str "power_control" && not (is_empty m.power_state)

  -- A successful build is of the requested server and observed now. Its capabilities are ascending,
  -- without repetition, and exactly those that a collector reported under a name that is not empty or
  -- that its disks, NICs or power state give; its network modes are those that a collector reported
  -- under a name that is not empty, without repetition; and its
  -- health is what is inferred from it.
  pub build_server_facts-ok :
      (now : Time) (server_id : Str) (cs : List (Collector V)) {m : ServerFacts V}
      → build_server_facts now server_id cs ≡ ok m
      → (m.server_id ≡ server_id)
        × (m.observed_at ≡ now)
        × ((c : Str) → contains c m.capabilities ≡ is_reported c (reported cs server_id) m)
        × IsSorted m.capabilities
        × IsNodup m.capabilities
        × ((c : Str)
            → contains c m.network_modes
              ≡ (any (λ f. contains c f.network_modes) (reported cs server_id) && not (is_empty c)))
        × IsNodup m.network_modes
        × (m.health ≡ infer_health (some m))
  unfolding complete
  build_server_facts-ok now server_id cs h =
      let fs = reported cs server_id in
      let m₀ : ServerFacts V = record zero_facts { server_id = server_id; raw = some [] } in
      let m₁ : ServerFacts V = record (merge_all server_id fs) {
        server_id = server_id;
        observed_at = now;
      } in
      let (caps, sorted, distinct) = infer_capabilities_lem m₁ in
      rw (build_ok now server_id cs h) (
        refl,
        refl,
        λ c. ground (
          arith,
          caps c,
          contains-united (λ f. f.capabilities) (λ d s. unfold merge_into in refl) c fs m₀,
        ),
        sorted,
        distinct,
        λ c. contains-united (λ f. f.network_modes) (λ d s. unfold merge_into in refl) c fs m₀,
        united-IsNodup (λ f. f.network_modes) (λ d s. unfold merge_into in refl) fs m₀ tt,
        unfold infer_health has_hardware_facts in refl,
      )

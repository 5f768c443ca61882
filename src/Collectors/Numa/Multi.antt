-- ===== src/Collectors/Numa/Multi.antt =====
-- What the NUMA collector reports of the topology that it finds.
use rewsr_maxfields.Base.{
  ℕ, ◌≡◌, ◌↔◌, refl, Bool, true, false, ◌&&◌, ◌||◌, Option, none, some, List, [], ◌∷◌, arith, Str,
  str, ◌==◌, str_eq, length, contains, ltb, Option-cases, inl, inr, if◌then◌else◌,
}
use rewsr_maxfields.Facts.Types.{ServerFacts}
use rewsr_maxfields.Collectors.Host.{Host, observed}
use rewsr_maxfields.Collectors.Sections.{NumaNode, NumaTopology, Section}
use rewsr_maxfields.Collectors.NodeDirs.{read_sysfs_topology}
use rewsr_maxfields.Collectors.Numa.{
  usable, numactl_topology, find_topology, report_numa, collect_numa,
}

abbrev pub node_count : Option NumaTopology → ℕ
node_count none = 0
node_count (some topo) = length topo.nodes

abbrev pub has_nodes : Option NumaTopology → Bool
has_nodes topo = ltb 0 (node_count topo)

-- The first of two topologies if it has a node, else the second.
abbrev pub chosen : Option NumaTopology → Option NumaTopology → Option NumaTopology
chosen a b = if has_nodes a then a else b

usable_lem : (topo : Option NumaTopology) → usable topo ≡ (if has_nodes topo then topo else none)
unfolding usable
usable_lem none = refl
usable_lem (some topo) = go topo.nodes
  where
    go :
        (nodes : List NumaNode)
        → ◌≡◌ {A = Option NumaTopology}
            (elim nodes [ [] ↦ none | _ ∷ _ ↦ some topo ])
            (if ltb 0 (length nodes) then some topo else none)
    go [] = refl
    go (n ∷ nodes) = ground arith

module _ (moves : ℕ → Bool) (h : Host) where
  abbrev pub from_numactl : Option NumaTopology
  from_numactl = numactl_topology moves h

  abbrev pub from_sysfs : Option NumaTopology
  from_sysfs = read_sysfs_topology h

  find_none :
      find_topology moves h ≡ none → (has_nodes from_numactl || has_nodes from_sysfs) ≡ false
  unfolding find_topology
  find_none e =
      ground (arith, e, usable_lem (numactl_topology moves h), usable_lem (read_sysfs_topology h))

  find_some :
      (topo : NumaTopology)
      → find_topology moves h ≡ some topo
      → ((has_nodes from_numactl || has_nodes from_sysfs) ≡ true)
        × (chosen from_numactl from_sysfs ≡ some topo)
  unfolding find_topology
  find_some topo e =
      ground (arith, e, usable_lem (numactl_topology moves h), usable_lem (read_sysfs_topology h))

  -- The NUMA collector always returns facts, with an error exactly when neither numactl nor sysfs gives
  -- a topology with a node. It takes the topology of numactl if that has a node, and that of sysfs
  -- otherwise, and reports "multi_numa", and no other capability, exactly when it has several nodes.
  pub collect_numa_lem :
      (id : Str)
      → (f : ServerFacts Section) × ((collect_numa moves h id).0 ≡ some f)
        × (((collect_numa moves h id).1 ≡ none)
            ↔ ((has_nodes from_numactl || has_nodes from_sysfs) ≡ true))
        × ((c : Str)
            → contains c f.capabilities
              ≡ (c == str "multi_numa" && ltb 1 (node_count (chosen from_numactl from_sysfs))))
  unfolding collect_numa report_numa
  collect_numa_lem id = elim (Option-cases (find_topology moves h)) [
    | inl e ↦ rw e (
      _,
      refl,
      (λ z. ground arith, λ z. ground (arith, find_none e, z)),
      λ c. unfold observed in nothing c (find_none e),
    )
    | inr (topo, e) ↦
        let (there, which) = find_some topo e in
        rw e (_, refl, (λ _. there, λ _. refl), λ c. ground (arith, which))
  ]
    where
      nothing :
          (c : Str)
          → (has_nodes from_numactl || has_nodes from_sysfs) ≡ false
          → false ≡ (c == str "multi_numa" && ltb 1 (node_count (chosen from_numactl from_sysfs)))
      nothing c e = ground (arith, e)

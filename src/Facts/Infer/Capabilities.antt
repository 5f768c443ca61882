-- ===== src/Facts/Infer/Capabilities.antt =====
-- What stands in the list of `InferCapabilities`, and in which order.
use rewsr_maxfields.Base.{
  ◌≡◌, ◌≢◌, refl, Bool, false, not, ◌&&◌, ◌||◌, some, List, [], ◌∷◌, arith, Str, str, ◌==◌, str_eq,
  is_empty, contains, contains-append, IsNodup, IsNodup-concat, any, leb, if◌then◌else◌,
}
use rewsr_maxfields.Base.Int.{ℤ, pos, negsuc}
use rewsr_maxfields.Text.Case.{to_lower, equal_fold}
use rewsr_maxfields.Text.Sort.{sort-IsSorted, sort-IsNodup, contains-sort, IsSorted}
use rewsr_maxfields.Facts.Types.{ServerFacts, DiskFacts, NicFacts}
use rewsr_maxfields.Facts.Infer.{
  add, add_all, is_nvme, add_disks, add_feature, add_features, is_fast, add_nics,
  infer_capabilities,
}

pub contains-add :
    (c cap : Str) (out : List Str)
    → contains c (add cap out) ≡ (contains c out || c == cap && not (is_empty cap))
unfolding add
contains-add c [] out = ground arith
contains-add c (x ∷ cap) out = ground (arith, contains-append c out ((x ∷ cap) ∷ []))

pub add-IsNodup : (cap : Str) (out : List Str) → IsNodup out → IsNodup (add cap out)
unfolding add
add-IsNodup cap out u = ground (arith, IsNodup-concat cap out)

contains-add_all :
    (c : Str) (cs out : List Str)
    → contains c (add_all cs out) ≡ (contains c out || contains c cs && not (is_empty c))
unfolding add_all
contains-add_all c [] out = ground arith
contains-add_all c (x ∷ cs) out =
    ground (arith, contains-add_all c cs (add x out), contains-add c x out)

-- The literals that are added are no empty texts.
nonempty :
    (is_empty (str "local_nvme") ≡ false)
    × (is_empty (str "high_bandwidth_networking") ≡ false)
    × (is_empty (str "sriov") ≡ false)
    × (is_empty (str "rdma") ≡ false)
    × (is_empty (str "power_control") ≡ false)
unfolding str
nonempty = (refl, refl, refl, refl, refl)

-- A drive whose type is nvme in any case.
abbrev pub nvme_drive : DiskFacts → Bool
nvme_drive d = equal_fold d.type (str "nvme")

-- A speed of 25 Gbps or more.
abbrev pub reaches_25 : ℤ → Bool
reaches_25 (pos n) = leb 25 n
reaches_25 (negsuc n) = false

is_fast_lem : (n : NicFacts) → is_fast n ≡ reaches_25 n.speed_gbps
unfolding is_fast
is_fast_lem n = ground arith

contains-add_disks :
    (c : Str) (ds : List DiskFacts) (out : List Str)
    → contains c (add_disks ds out) ≡ (contains c out || c == str "local_nvme" && any nvme_drive ds)
unfolding add_disks is_nvme
contains-add_disks c [] out = ground arith
contains-add_disks c (d ∷ ds) out =
    ground (arith, contains-add_disks c ds out, contains-add c (str "local_nvme") out, nonempty.0)

abbrev pub is_sriov : Str → Bool
is_sriov feat = to_lower feat == str "sriov" || to_lower feat == str "sr-iov"

abbrev pub is_rdma : Str → Bool
is_rdma feat = to_lower feat == str "rdma"

rdma_not_sriov : (str "rdma" ≢ str "sriov") × (str "rdma" ≢ str "sr-iov")
unfolding str
rdma_not_sriov = ground arith

contains-add_feature :
    (c feat : Str) (out : List Str)
    → contains c (add_feature (to_lower feat) out)
      ≡ (contains c out || c == str "sriov" && is_sriov feat || c == str "rdma" && is_rdma feat)
unfolding add_feature
contains-add_feature c feat out = ground (
  arith,
  contains-add c (str "sriov") out,
  contains-add c (str "rdma") out,
  nonempty,
  rdma_not_sriov,
)

contains-add_features :
    (c : Str) (feats out : List Str)
    → contains c (add_features feats out) ≡ (
        contains c out
        || c == str "sriov" && any is_sriov feats
        || c == str "rdma" && any is_rdma feats)
unfolding add_features
contains-add_features c [] out = ground arith
contains-add_features c (feat ∷ feats) out = ground (
  arith,
  contains-add_features c feats (add_feature (to_lower feat) out),
  contains-add_feature c feat out,
)

abbrev pub nic_adds : Str → NicFacts → Bool
nic_adds c n =
    c == str "high_bandwidth_networking" && reaches_25 n.speed_gbps
    || c == str "sriov" && any is_sriov n.features
    || c == str "rdma" && any is_rdma n.features

contains-add_nics :
    (c : Str) (ns : List NicFacts) (out : List Str)
    → contains c (add_nics ns out) ≡ (contains c out || any (nic_adds c) ns)
unfolding add_nics
contains-add_nics c [] out = ground arith
contains-add_nics c (n ∷ ns) out =
    let out' = if is_fast n then add (str "high_bandwidth_networking") out else out in
    ground (
      arith,
      contains-add_nics c ns (add_features n.features out'),
      contains-add_features c n.features out',
      contains-add c (str "high_bandwidth_networking") out,
      is_fast_lem n,
      nonempty,
    )

add_all-IsNodup : (cs out : List Str) → IsNodup out → IsNodup (add_all cs out)
unfolding add_all
add_all-IsNodup [] out u = u
add_all-IsNodup (c ∷ cs) out u = add_all-IsNodup cs (add c out) (add-IsNodup c out u)

add_disks-IsNodup :
    (ds : List DiskFacts) (out : List Str) → IsNodup out → IsNodup (add_disks ds out)
unfolding add_disks
add_disks-IsNodup [] out u = u
add_disks-IsNodup (d ∷ ds) out u =
    ground (arith, add_disks-IsNodup ds out u, add-IsNodup (str "local_nvme") out u)

add_feature-IsNodup : (feat : Str) (out : List Str) → IsNodup out → IsNodup (add_feature feat out)
unfolding add_feature
add_feature-IsNodup feat out u =
    ground (arith, add-IsNodup (str "sriov") out u, add-IsNodup (str "rdma") out u)

add_features-IsNodup : (feats out : List Str) → IsNodup out → IsNodup (add_features feats out)
unfolding add_features
add_features-IsNodup [] out u = u
add_features-IsNodup (feat ∷ feats) out u =
    add_features-IsNodup feats _ (add_feature-IsNodup (to_lower feat) out u)

add_nics-IsNodup : (ns : List NicFacts) (out : List Str) → IsNodup out → IsNodup (add_nics ns out)
unfolding add_nics
add_nics-IsNodup [] out u = u
add_nics-IsNodup (n ∷ ns) out u = add_nics-IsNodup ns _ (
    add_features-IsNodup n.features _
      (ground (arith, add-IsNodup (str "high_bandwidth_networking") out u)))

module _ {V : Type 0} (f : ServerFacts V) where
  -- What a capability rests on.
  abbrev pub is_inferred : Str → Bool
  is_inferred c =
      contains c f.capabilities && not (is_empty c)
      || c == str "local_nvme" && any nvme_drive f.disks
      || any (nic_adds c) f.nics
      || c == str "power_control" && not (is_empty f.power_state)

  -- `InferCapabilities` lists a capability exactly when a collector reported it under a name that
  -- is not empty, or what follows gives it: "local_nvme" a disk of type nvme, "high_bandwidth_networking"
  -- a NIC of 25 Gbps or more, "sriov" and "rdma" a NIC feature of the name (for the first also "sr-iov"),
  -- all in any case, and "power_control" a known power state. The list is ascending and holds nothing
  -- twice.
  pub infer_capabilities_lem :
      ((c : Str) → contains c (infer_capabilities (some f)) ≡ is_inferred c)
      × IsSorted (infer_capabilities (some f))
      × IsNodup (infer_capabilities (some f))
  unfolding infer_capabilities
  infer_capabilities_lem =
      let out : List Str = add_nics f.nics (add_disks f.disks (add_all f.capabilities [])) in
      let u : IsNodup out =
        add_nics-IsNodup f.nics _
          (add_disks-IsNodup f.disks _ (add_all-IsNodup f.capabilities [] tt)) in
      (
        λ c. ground (
          arith,
          contains-sort c out,
          contains-sort c (add (str "power_control") out),
          contains-add c (str "power_control") out,
          contains-add_nics c f.nics (add_disks f.disks (add_all f.capabilities [])),
          contains-add_disks c f.disks (add_all f.capabilities []),
          contains-add_all c f.capabilities [],
          nonempty,
        ),
        sort-IsSorted _,
        sort-IsNodup _ (ground (arith, u, add-IsNodup (str "power_control") out u)),
      )

-- ===== src/Api/Networks.antt =====
-- The network part of `PublicView`.
use rewsr_maxfields.Base.{
  ◌≡◌, ◌≢◌, ◌∙◌, refl, ap, Bool, false, not, some, List, [], ◌∷◌, arith, Str, str, ◌==◌, str_eq,
  contains, count, keep, map, if◌then◌else◌,
}
use rewsr_maxfields.Base.Int.{ℤ, pos, add_int-wrap, wrap, ◌+ℤ◌}
use rewsr_maxfields.Facts.Types.{ServerFacts, NicFacts}
use rewsr_maxfields.Fleet.Totals.{sum_ℤ, zero_wrap}
use rewsr_maxfields.Api.{
  has_capability, private_networks, is_network_feature, bandwidth_loop, total_bandwidth_gbps,
  public_view,
}

has_capability-contains : (cs : List Str) (name : Str) → has_capability cs name ≡ contains name cs
unfolding has_capability
has_capability-contains [] name = refl
has_capability-contains (c ∷ cs) name = ground (arith, has_capability-contains cs name)

count-keep :
    (p : Str → Bool) (a : Str) (xs : List Str)
    → count a (keep p xs) ≡ (if p a then count a xs else 0)
count-keep p a [] = ground arith
count-keep p a (x ∷ xs) = ground (arith, count-keep p a xs)

bandwidth_loop-sum :
    (nics : List NicFacts) (t : ℤ)
    → bandwidth_loop nics (wrap t) ≡ wrap (sum_ℤ (map (λ n. n.speed_gbps) nics) t)
unfolding bandwidth_loop
bandwidth_loop-sum [] t = refl
bandwidth_loop-sum (n ∷ nics) t =
    rw (add_int-wrap t n.speed_gbps) (bandwidth_loop-sum nics (t +ℤ n.speed_gbps))

module _ {V : Type 0} (f : ServerFacts V) where
  -- The public network view splits the modes: "public_ipv4" becomes a flag, set exactly when the mode
  -- is there, and every other mode is a private network, as often as it stands. The features are the
  -- capabilities of the allowlist, as often as they stand. The bandwidth is the exact sum of the NIC
  -- speeds wrapped into an `int`. The four capability flags say whether the capability is listed.
  pub public_view-network :
      let v = public_view (some f) in
      (v.network.public_ipv4 ≡ contains (str "public_ipv4") f.network_modes)
      × ((m : Str)
          → m ≢ str "public_ipv4"
          → count m v.network.private_networks ≡ count m f.network_modes)
      × (contains (str "public_ipv4") v.network.private_networks ≡ false)
      × ((c : Str)
          → count c v.network.features
            ≡ (if is_network_feature c then count c f.capabilities else 0))
      × (v.network.bandwidth_gbps ≡ wrap (sum_ℤ (map (λ n. n.speed_gbps) f.nics) (pos 0)))
      × (v.capabilities.local_nvme ≡ contains (str "local_nvme") f.capabilities)
      × (v.capabilities.sriov ≡ contains (str "sriov") f.capabilities)
      × (v.capabilities.rdma ≡ contains (str "rdma") f.capabilities)
      × (v.capabilities.secure_boot ≡ contains (str "secure_boot") f.capabilities)
  unfolding public_view private_networks total_bandwidth_gbps
  public_view-network = (
    has_capability-contains f.network_modes (str "public_ipv4"),
    λ m h. ground (arith, count-keep (λ m. not (m == str "public_ipv4")) m f.network_modes),
    no_public f.network_modes,
    λ c. count-keep is_network_feature c f.capabilities,
    ap (bandwidth_loop f.nics) zero_wrap ∙ bandwidth_loop-sum f.nics (pos 0),
    has_capability-contains f.capabilities (str "local_nvme"),
    has_capability-contains f.capabilities (str "sriov"),
    has_capability-contains f.capabilities (str "rdma"),
    has_capability-contains f.capabilities (str "secure_boot"),
  )
    where
      no_public :
          (modes : List Str)
          → contains (str "public_ipv4") (keep (λ m. not (m == str "public_ipv4")) modes) ≡ false
      no_public [] = refl
      no_public (m ∷ modes) = ground (arith, no_public modes)

-- ===== src/Collectors/Rdma/Ports.antt =====
-- Which RDMA capabilities and network modes a host reports.
use rewsr_maxfields.Text.Space.{trim_space}
use rewsr_maxfields.Text.Decimal.{itoa}
use rewsr_maxfields.Base.{
  ◌++◌, ◌∙◌, ◌≡◌, refl, Bool, not, ◌&&◌, ◌||◌, Option, none, some, List, [], ◌∷◌, arith, map, Str,
  str, ◌==◌, str_eq, contains, any, is_empty,
}
use rewsr_maxfields.Text.Case.{equal_fold}
use rewsr_maxfields.Facts.Types.{ServerFacts}
use rewsr_maxfields.Facts.Build.{Result, ok, err}
use rewsr_maxfields.Collectors.Host.{Host, Tools, observed, contains-add_cap}
use rewsr_maxfields.Collectors.Sections.{RdmaDevice, Section}
use rewsr_maxfields.Collectors.Rdma.Listing.{Lists, list_devices-Lists}
use rewsr_maxfields.Collectors.Rdma.{
  RdmaLinkEntry, enrich_from_sysfs, SeenLinks, see_link, see_links, no_links, rdma_capabilities,
  report_rdma, list_devices, collect_rdma, fill,
}

abbrev pub has_layer : Str → RdmaDevice → Bool
has_layer layer d = d.link_layer == layer

abbrev pub is_active : RdmaDevice → Bool
is_active d = equal_fold d.state (str "ACTIVE")

see_links_lem :
    (ds : List RdmaDevice) (s : SeenLinks)
    → ((see_links ds s).saw_ib ≡ (s.saw_ib || any (has_layer (str "InfiniBand")) ds))
      × ((see_links ds s).saw_roce ≡ (s.saw_roce || any (has_layer (str "Ethernet")) ds))
      × ((see_links ds s).saw_active ≡ (s.saw_active || any is_active ds))
unfolding see_links see_link
see_links_lem [] s = ground arith
see_links_lem (d ∷ ds) s = ground (arith, see_links_lem ds (see_link d s))

-- The link layer of a port: what the tool prints, and otherwise the file of the port, if it is readable.
abbrev pub layer_of : Host → RdmaDevice → Str
layer_of h d = elim d.link_layer [
  | [] ↦
      elim (h.read_file (
        str "sys/class/infiniband/"
        ++ (d.device ++ (str "/" ++ (str "ports/" ++ (itoa d.port ++ str "/link_layer")))))) [
          | none ↦ []
          | some text ↦ trim_space text
        ]
  | c ∷ s ↦ c ∷ s
]

abbrev pub any_layer : Host → Str → List RdmaDevice → Bool
any_layer h layer ds = any (λ d. layer_of h d == layer) ds

-- What the ports that a tool lists say of a capability.
abbrev pub is_rdma_capability : Host → Str → List RdmaDevice → Bool
is_rdma_capability h c ds =
    not (is_empty ds)
    && (c == str "rdma"
        || c == str "infiniband" && any_layer h (str "InfiniBand") ds
        || c == str "roce" && any_layer h (str "Ethernet") ds
        || c == str "rdma_active" && any (λ d. equal_fold d.state (str "ACTIVE")) ds)

layer_of_lem :
    (h : Host) (d : RdmaDevice)
    → ((enrich_from_sysfs h d).link_layer ≡ layer_of h d)
      × ((enrich_from_sysfs h d).state ≡ d.state)
unfolding enrich_from_sysfs fill
layer_of_lem h d = go d.link_layer
  where
    path : Str
    path =
        str "sys/class/infiniband/"
        ++ (d.device ++ (str "/" ++ (str "ports/" ++ (itoa d.port ++ str "/link_layer"))))

    go :
        (s : Str)
        → (fill h s path ≡ (elim s [
          | [] ↦ elim (h.read_file path) [ none ↦ [] | some text ↦ trim_space text ]
          | c ∷ s ↦ c ∷ s
        ]))
          × (d.state ≡ d.state)
    go [] = (refl, refl)
    go (c ∷ s) = (refl, refl)

enriched :
    (h : Host) (layer : Str) (ds : List RdmaDevice)
    → (any (has_layer layer) (map (enrich_from_sysfs h) ds) ≡ any_layer h layer ds)
      × (any is_active (map (enrich_from_sysfs h) ds) ≡ any is_active ds)
      × (is_empty (map (enrich_from_sysfs h) ds) ≡ is_empty ds)
enriched h layer [] = (refl, refl, refl)
enriched h layer (d ∷ ds) =
    let (same, state) = layer_of_lem h d in
    let (layers, active, _) = enriched h layer ds in
    (rw (same, layers) refl, rw (state, active) refl, refl)

contains-rdma_capabilities :
    (h : Host) (c : Str) (d : RdmaDevice) (ds : List RdmaDevice)
    → contains c (rdma_capabilities (map (enrich_from_sysfs h) (d ∷ ds)))
      ≡ is_rdma_capability h c (d ∷ ds)
unfolding rdma_capabilities
contains-rdma_capabilities h c d ds =
    let (ib, roce, active) = see_links_lem (map (enrich_from_sysfs h) (d ∷ ds)) no_links in
    let (ibs, actives, _) = enriched h (str "InfiniBand") (d ∷ ds) in
    let (roces, _, _) = enriched h (str "Ethernet") (d ∷ ds) in
    simp (contains-add_cap, ib ∙ ibs, roce ∙ roces, active ∙ actives) (ground arith)

module _ (decode : Str → Result (List RdmaLinkEntry)) (t : Tools) (h : Host) where
  -- What the collector returns, by the ports that a tool lists or the error.
  abbrev pub RdmaReported :
      Result (List RdmaDevice)
      → Option (ServerFacts Section) × Option Str
      → ServerFacts Section
      → Type 0
  RdmaReported (err e) r f = (r.1 ≡ some e) × (f.capabilities ≡ []) × (f.network_modes ≡ [])
  RdmaReported (ok found) r f =
      (r.1 ≡ none)
      × ((c : Str) → contains c f.capabilities ≡ is_rdma_capability h c found)
      × ((m : Str) → contains m f.network_modes ≡ (m == str "rdma" && not (is_empty found)))

  -- The RDMA collector, with a runner, always returns facts. The ports are those that `rdma` lists where it
  -- is installed, and those of `ibv_devinfo` where only that is; where neither is, and also where the tool
  -- that is asked fails or its text is not decoded, the collector returns the error, no network mode and no
  -- capability. Otherwise it returns no error, the network mode "rdma" exactly when there is a port, and, of
  -- the ports with their link layer read from sysfs where the tool does not print it, "rdma" exactly when
  -- there is one, "infiniband" and "roce" exactly when one has the link layer InfiniBand or Ethernet,
  -- "rdma_active" exactly when one is active, and nothing else.
  pub collect_rdma_lem :
      (id : Str)
      → (r : Result (List RdmaDevice)) × Lists decode t r
        × ((f : ServerFacts Section) × ((collect_rdma decode (some t) h id).0 ≡ some f)
            × RdmaReported r (collect_rdma decode (some t) h id) f)
  unfolding collect_rdma
  collect_rdma_lem id =
      (list_devices decode (some t), list_devices-Lists decode t, go (list_devices decode (some t)))
    where
      bare :
          ((observed {V = Section} (str "linux_rdma") h id).capabilities ≡ [])
          × ((observed {V = Section} (str "linux_rdma") h id).network_modes ≡ [])
      bare = unfold observed in (refl, refl)

      go :
          (r : Result (List RdmaDevice))
          → (f : ServerFacts Section) × ((report_rdma h id r).0 ≡ some f)
            × RdmaReported r (report_rdma h id r) f
      go (err e) = unfold report_rdma in (_, refl, (refl, bare.0, bare.1))
      go (ok []) =
          unfold report_rdma in
          (_, refl, (refl, (λ c. rw bare.0 refl), (λ m. rw bare.1 (ground arith))))
      go (ok (d ∷ found)) =
          unfold report_rdma in
          (_, refl, (refl, (λ c. contains-rdma_capabilities h c d found), (λ m. ground arith)))

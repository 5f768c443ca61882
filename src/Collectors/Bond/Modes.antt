-- ===== src/Collectors/Bond/Modes.antt =====
-- The network modes that the collector reports, and the slaves of a bond.
use rewsr_maxfields.Base.{
  ◌≡◌, ◌∙◌, refl, sym, Bool, false, not, ◌&&◌, ◌||◌, Option, none, some, List, [], ◌∷◌, ◌++◌,
  append_assoc, append-nil, arith, Str, str, ◌==◌, str_eq, is_empty, any, contains, contains-append,
  keep, map, if◌then◌else◌,
}
use rewsr_maxfields.Facts.Types.{ServerFacts}
use rewsr_maxfields.Facts.Build.{Result, ok, err}
use rewsr_maxfields.Collectors.Host.{Host, Tools, observed}
use rewsr_maxfields.Collectors.Sections.{BondFacts, Section}
use rewsr_maxfields.Collectors.Bond.{
  Link, Links, read_bond, add_link, add_links, no_links, is_lacp, lacp_mode, network_modes,
  report_links, list_links, answer_links, collect_net_topology,
}

abbrev pub is_kind : Str → Link → Bool
is_kind kind link = link.info_kind == kind

kinds_differ :
    ((str "vlan" == str "bond") ≡ false)
    × ((str "bridge" == str "bond") ≡ false)
    × ((str "bridge" == str "vlan") ≡ false)
unfolding str str_eq
kinds_differ = (refl, refl, refl)

abbrev pub bonds_of : Host → List Link → List BondFacts
bonds_of h links = map (λ l. read_bond h l.if_name) (keep (is_kind (str "bond")) links)

contains-lacp_mode :
    (m : Str) (bonds : List BondFacts)
    → contains m (lacp_mode bonds) ≡ (m == str "lacp" && any is_lacp bonds)
unfolding lacp_mode
contains-lacp_mode m [] = ground arith
contains-lacp_mode m (b ∷ bonds) = ground (arith, contains-lacp_mode m bonds)

abbrev pub names_of : Str → List Link → List Str
names_of kind links = map (λ l. l.if_name) (keep (is_kind kind) links)

module _ (h : Host) where
  add_link-bonds :
      (link : Link) (links : List Link) (ls : Links)
      → (add_link h link ls).bonds ++ bonds_of h links ≡ ls.bonds ++ bonds_of h (link ∷ links)
  unfolding add_link
  add_link-bonds link links ls =
      ground (arith, append_assoc ls.bonds (read_bond h link.if_name ∷ []) (bonds_of h links))

  add_link-vlans :
      (link : Link) (links : List Link) (ls : Links)
      → (add_link h link ls).vlans ++ names_of (str "vlan") links
        ≡ ls.vlans ++ names_of (str "vlan") (link ∷ links)
  unfolding add_link
  add_link-vlans link links ls =
      ground (
        arith,
        kinds_differ,
        append_assoc ls.vlans (link.if_name ∷ []) (names_of (str "vlan") links),
      )

  add_link-bridges :
      (link : Link) (links : List Link) (ls : Links)
      → (add_link h link ls).bridges ++ names_of (str "bridge") links
        ≡ ls.bridges ++ names_of (str "bridge") (link ∷ links)
  unfolding add_link
  add_link-bridges link links ls = ground (
    arith,
    kinds_differ,
    append_assoc ls.bridges (link.if_name ∷ []) (names_of (str "bridge") links),
  )

  -- Each kind of link is gathered in order.
  add_links_lem :
      (links : List Link) (ls : Links)
      → ((add_links h links ls).bonds ≡ ls.bonds ++ bonds_of h links)
        × ((add_links h links ls).vlans ≡ ls.vlans ++ names_of (str "vlan") links)
        × ((add_links h links ls).bridges ≡ ls.bridges ++ names_of (str "bridge") links)
  unfolding add_links
  add_links_lem [] ls =
      (sym (append-nil ls.bonds), sym (append-nil ls.vlans), sym (append-nil ls.bridges))
  add_links_lem (link ∷ links) ls =
      let (bonds, vlans, bridges) = add_links_lem links (add_link h link ls) in
      (
        bonds ∙ add_link-bonds link links ls,
        vlans ∙ add_link-vlans link links ls,
        bridges ∙ add_link-bridges link links ls,
      )

is_empty-map :
    {A : Type 0} (f : Link → A) (kind : Str) (links : List Link)
    → is_empty (map f (keep (is_kind kind) links)) ≡ not (any (is_kind kind) links)
is_empty-map f kind [] = refl
is_empty-map f kind (link ∷ links) = ground (arith, is_empty-map f kind links)

contains-network_modes :
    (m : Str) (ls : Links)
    → contains m (network_modes ls) ≡ (
        m == str "bonded" && not (is_empty ls.bonds)
        || m == str "lacp" && any is_lacp ls.bonds
        || m == str "vlan_tagged" && not (is_empty ls.vlans)
        || m == str "bridged" && not (is_empty ls.bridges))
unfolding network_modes
contains-network_modes m ls = go ls.bonds
  where
    tail : List Str
    tail =
        (if is_empty ls.vlans then [] else str "vlan_tagged" ∷ [])
        ++ (if is_empty ls.bridges then [] else str "bridged" ∷ [])

    tail_lem : contains m tail ≡ (
        m == str "vlan_tagged" && not (is_empty ls.vlans)
        || m == str "bridged" && not (is_empty ls.bridges))
    tail_lem = ground arith

    go :
        (bonds : List BondFacts)
        → contains m ((if is_empty bonds then [] else str "bonded" ∷ lacp_mode bonds) ++ tail) ≡ (
            m == str "bonded" && not (is_empty bonds)
            || m == str "lacp" && any is_lacp bonds
            || m == str "vlan_tagged" && not (is_empty ls.vlans)
            || m == str "bridged" && not (is_empty ls.bridges))
    go [] = ground (arith, tail_lem)
    go (b ∷ bonds) = ground (
      arith,
      tail_lem,
      contains-lacp_mode m (b ∷ bonds),
      contains-append m (lacp_mode (b ∷ bonds)) tail,
    )

module _ (decode : Str → Result (List Link)) (t : Option Tools) (h : Host) where
  -- What the links say of a mode.
  abbrev pub is_mode : Str → List Link → Bool
  is_mode m links =
      m == str "bonded" && any (is_kind (str "bond")) links
      || m == str "lacp" && any is_lacp (bonds_of h links)
      || m == str "vlan_tagged" && any (is_kind (str "vlan")) links
      || m == str "bridged" && any (is_kind (str "bridge")) links

  report_links-modes :
      (m : Str) (links : List Link) (f : ServerFacts Section)
      → f.network_modes ≡ []
      → contains m (report_links (add_links h links no_links) f).network_modes ≡ is_mode m links
  unfolding report_links
  report_links-modes m links f e =
      let (bonds, vlans, bridges) = add_links_lem h links no_links in
      ground (
        arith,
        e,
        bonds,
        vlans,
        bridges,
        contains-network_modes m (add_links h links no_links),
        is_empty-map (λ l. read_bond h l.if_name) (str "bond") links,
        is_empty-map (λ l. l.if_name) (str "vlan") links,
        is_empty-map (λ l. l.if_name) (str "bridge") links,
      )

  -- What the collector returns, by the links or the error.
  abbrev pub Reported :
      Result (List Link) → Option (ServerFacts Section) × Option Str → ServerFacts Section → Type 0
  Reported (err e) r f = (r.1 ≡ some e) × (f.network_modes ≡ [])
  Reported (ok links) r f =
      (r.1 ≡ none) × ((m : Str) → contains m f.network_modes ≡ is_mode m links)

  -- Where the links can be listed, the collector returns no error and reports exactly these modes:
  -- "bonded", "vlan_tagged" and "bridged" when a link is of the kind, and "lacp" when the file of a bond
  -- names the mode 802.3ad. Where they cannot, it returns the error and facts without a mode.
  pub collect_net_topology_lem :
      (id : Str)
      → (f : ServerFacts Section) × ((collect_net_topology decode t h id).0 ≡ some f)
        × Reported (list_links decode t) (collect_net_topology decode t h id) f
  unfolding collect_net_topology
  collect_net_topology_lem id = go (list_links decode t)
    where
      empty : (observed {V = Section} (str "linux_net_topology") h id).network_modes ≡ []
      empty = unfold observed in refl

      go :
          (r : Result (List Link))
          → (f : ServerFacts Section) × ((answer_links h id r).0 ≡ some f)
            × Reported r (answer_links h id r) f
      go (err e) = unfold answer_links in (_, refl, (refl, empty))
      go (ok links) =
          unfold answer_links in (_, refl, (refl, λ m. report_links-modes m links _ empty))

-- ===== src/Collectors/Lldp/Tests.antt =====
-- A host behind one switch, and one behind two, that follow collectors/linux_lldp_test.go.
use rewsr_maxfields.Base.{◌≡◌, refl, some, List, [], ◌∷◌, Str, str, str_eq}
use rewsr_maxfields.Facts.Types.{ServerFacts}
use rewsr_maxfields.Facts.Build.{Result, ok}
use rewsr_maxfields.Collectors.Fixtures.{fixture, toolbox}
use rewsr_maxfields.Collectors.Host.{Host, Tools}
use rewsr_maxfields.Collectors.Sections.{LldpNeighbor, Section}
use rewsr_maxfields.Collectors.Lldp.{
  Members, one_chassis, switch_domain, list_neighbors, collect_lldp, document_neighbors,
}
use rewsr_maxfields.Collectors.Lldp.Documents.{document, collapsed, document_neighbors-document}
use rewsr_maxfields.Collectors.Lldp.Domain.{LldpReported, collect_lldp_lem}

abbrev neighbor : Str → LldpNeighbor
neighbor chassis = record {
  local_port = str "ens1f0np0";
  chassis_name = chassis;
  chassis_descr = str "SONiC";
  mgmt_ip = str "10.0.0.11";
  port_id = str "swp1";
  port_descr = str "to-server";
}

abbrev one_switch : List LldpNeighbor
one_switch = neighbor (str "leaf01") ∷ neighbor [] ∷ neighbor (str "leaf01") ∷ []

abbrev two_switches : List LldpNeighbor
two_switches = neighbor (str "leaf01") ∷ neighbor (str "leaf02") ∷ []

domains : (switch_domain one_switch ≡ str "switch:leaf01") × (switch_domain two_switches ≡ [])
unfolding switch_domain one_chassis str str_eq
domains = (refl, refl)

abbrev decode : Str → Result Members
decode out = ok (document one_switch)

abbrev tools : Tools
tools = toolbox ((str "lldpctl", str "{}") ∷ [])

abbrev box : Host
box = fixture [] []

document_neighbors-document_example :
    (document_neighbors (document one_switch) ≡ one_switch)
    × ((n : LldpNeighbor) → document_neighbors (collapsed n) ≡ n ∷ [])
document_neighbors-document_example = document_neighbors-document one_switch

collect_lldp_example :
    (f : ServerFacts Section) × ((collect_lldp decode (some tools) box (str "srv-1")).0 ≡ some f)
    × LldpReported decode
        (some tools)
        box
        (list_neighbors decode (some tools))
        (collect_lldp decode (some tools) box (str "srv-1"))
        f
collect_lldp_example = collect_lldp_lem decode (some tools) box (str "srv-1")

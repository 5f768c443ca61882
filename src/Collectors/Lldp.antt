-- ===== src/Collectors/Lldp.antt =====
-- collectors/linux_lldp.go: the switch ports that a host is wired to, and its failure domain. The decoding
-- of the JSON that `lldpctl` prints is a parameter; an object is the list of its members in the order in
-- which the run ranges over the map.
pub mod Documents
pub mod Domain
mod Tests
use rewsr_maxfields.Base.{
  Bool, true, false, not, Option, none, some, List, [], ◌∷◌, ◌++◌, Str, str, ◌==◌, str_eq, is_empty,
  if◌then◌else◌,
}
use rewsr_maxfields.Facts.Types.{ServerFacts}
use rewsr_maxfields.Facts.Build.{Result, ok, err}
use rewsr_maxfields.Collectors.Host.{Host, Tools, observed, run_tool}
use rewsr_maxfields.Collectors.Sections.{LldpNeighbor, Section, lldp_neighbors}

-- A decoded JSON value. The numbers are never looked at.
mutual
  pub data Value : Type 0 where
    null : Value
    boolean : Bool → Value
    number : Str → Value
    text : Str → Value
    array : Values → Value
    object : Members → Value

  pub data Values : Type 0 where
    vnil : Values
    vcons : Value → Values → Values

  pub data Members : Type 0 where
    mnil : Members
    mcons : Str → Value → Members → Members

-- `m[key]`, nil where the key is missing.
unfoldable pub member : Str → Members → Value
member key mnil = null
member key (mcons k v m) = if key == k then v else member key m

-- `v.(map[string]any)`, with none for a value of another type.
abbrev pub as_object : Value → Option Members
as_object (object m) = some m
as_object _ = none

-- `s, _ = v.(string)`
abbrev pub as_text : Value → Str
as_text (text s) = s
as_text _ = []

-- `asObjectList`
unfoldable pub object_elements : Values → List Members
object_elements vnil = []
object_elements (vcons v vs) =
    let rest = object_elements vs in elim (as_object v) [ none ↦ rest | some m ↦ m ∷ rest ]

unfoldable pub as_object_list : Value → List Members
as_object_list (object m) = m ∷ []
as_object_list (array vs) = object_elements vs
as_object_list _ = []

-- The address is a text, or the first of an array.
unfoldable pub mgmt_ip : Value → Str
mgmt_ip (text ip) = ip
mgmt_ip (array (vcons v vs)) = as_text v
mgmt_ip _ = []

-- The loop over the chassis breaks behind the first.
unfoldable pub set_chassis : Value → LldpNeighbor → LldpNeighbor
set_chassis (object (mcons name chassis _)) n = elim (as_object chassis) [
  | none ↦ record n { chassis_name = name }
  | some m ↦ record n {
    chassis_name = name;
    chassis_descr = as_text (member (str "descr") m);
    mgmt_ip = mgmt_ip (member (str "mgmt-ip") m);
  }
]
set_chassis _ n = n

unfoldable pub set_port : Value → LldpNeighbor → LldpNeighbor
set_port port n = elim (as_object port) [
  | none ↦ n
  | some m ↦ elim (as_object (member (str "id") m)) [
    | none ↦ record n { port_descr = as_text (member (str "descr") m) }
    | some id ↦ record n {
      port_descr = as_text (member (str "descr") m);
      port_id = as_text (member (str "value") id);
    }
  ]
]

abbrev pub new_neighbor : Str → LldpNeighbor
new_neighbor local_port = record {
  local_port = local_port;
  chassis_name = [];
  chassis_descr = [];
  mgmt_ip = [];
  port_id = [];
  port_descr = [];
}

-- The neighbors of one interface object; an entry that is no object is skipped.
unfoldable pub interface_neighbors : Members → List LldpNeighbor
interface_neighbors mnil = []
interface_neighbors (mcons local_port v more) =
    let rest = interface_neighbors more in
    elim (as_object v) [
      | none ↦ rest
      | some entry ↦
          set_port (member (str "port") entry)
            (set_chassis (member (str "chassis") entry) (new_neighbor local_port))
          ∷ rest
    ]

unfoldable pub neighbors_of : List Members → List LldpNeighbor
neighbors_of [] = []
neighbors_of (m ∷ ms) = interface_neighbors m ++ neighbors_of ms

-- `parseLldpctlJSON` behind the decoding.
unfoldable pub document_neighbors : Members → List LldpNeighbor
document_neighbors doc = elim (as_object (member (str "lldp") doc)) [
  | none ↦ []
  | some lldp ↦ neighbors_of (as_object_list (member (str "interface") lldp))
]

-- The loop over the neighbors: the chassis, and whether it is the only one. It breaks at the second.
unfoldable pub one_chassis : List LldpNeighbor → Str → Str × Bool
one_chassis [] chassis = (chassis, true)
one_chassis (n ∷ ns) chassis =
    let same = one_chassis ns chassis in
    let first = one_chassis ns n.chassis_name in
    if is_empty n.chassis_name
    then same
    else if is_empty chassis
    then first
    else if not (chassis == n.chassis_name)
    then (chassis, false)
    else same

unfoldable pub switch_domain : List LldpNeighbor → Str
switch_domain ns =
    let (chassis, single) = one_chassis ns [] in
    if single then (if is_empty chassis then [] else str "switch:" ++ chassis) else []

-- Facts without a neighbor carry nothing.
unfoldable pub report_lldp :
    Host → Str → Result (List LldpNeighbor) → Option (ServerFacts Section) × Option Str
report_lldp h server_id (err e) = (some (observed (str "linux_lldp") h server_id), some e)
report_lldp h server_id (ok neighbors) =
    let f = observed (str "linux_lldp") h server_id in
    (
      some (
          if is_empty neighbors then f else record f {
            raw = some ((str "lldp_neighbors", lldp_neighbors neighbors) ∷ []);
            failure_domain = switch_domain neighbors;
          }),
      none,
    )

module _ (decode : Str → Result Members) where
  unfoldable pub list_neighbors : Option Tools → Result (List LldpNeighbor)
  list_neighbors t =
      elim (run_tool (str "lldp collector") t (str "lldpctl") (str "-f" ∷ str "json" ∷ [])) [
        | err e ↦ err e
        | ok out ↦ elim (decode out) [
          | err e ↦ err (str "lldp collector: " ++ e)
          | ok doc ↦ ok (document_neighbors doc)
        ]
      ]

  unfoldable pub collect_lldp :
      Option Tools → Host → Str → Option (ServerFacts Section) × Option Str
  collect_lldp t h server_id = report_lldp h server_id (list_neighbors t)

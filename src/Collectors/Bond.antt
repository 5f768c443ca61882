-- ===== src/Collectors/Bond.antt =====
-- collectors/linux_bond.go: bonds, VLANs and bridges. What `encoding/json` makes of the output of
-- `ip -j -d link` is the parameter `decode`.
pub mod Modes
mod Tests
use rewsr_maxfields.Base.{
  ℕ, Bool, true, false, not, ◌&&◌, ◌||◌, Option, none, some, List, [], ◌∷◌, ◌++◌, Str, str, ◌==◌,
  str_eq, is_empty, any, if◌then◌else◌,
}
use rewsr_maxfields.Base.Int.{pos}
use rewsr_maxfields.Text.Cut.{cut, has_sub, trim_suffix}
use rewsr_maxfields.Text.Split.{split}
use rewsr_maxfields.Text.Space.{trim_space}
use rewsr_maxfields.Facts.Types.{ServerFacts}
use rewsr_maxfields.Facts.Build.{Result, ok, err}
use rewsr_maxfields.Collectors.Host.{
  unless_empty, Host, Tools, require_command, observed, atoi_or_zero,
}
use rewsr_maxfields.Collectors.Sections.{BondSlave, BondFacts, NetTopology, Section, net_topology}

-- `ipLinkDetail`
pub record Link : Type 0 where
  pub if_name : Str
  pub info_kind : Str

abbrev pub new_bond : Str → BondFacts
new_bond name = record {
  name = name;
  mode = [];
  hash_policy = [];
  mii_status = [];
  lacp_active = [];
  lacp_rate = [];
  slaves = [];
}

abbrev pub new_slave : Str → BondSlave
new_slave name = record { name = name; mii_status = []; speed_mbps = pos 0 }

-- The `switch` on the key of a slave.
unfoldable pub slave_key : Str → Str → BondSlave → BondSlave
slave_key key value s =
    if key == str "MII Status"
    then record s { mii_status = value }
    else if key == str "Speed"
    then record s { speed_mbps = atoi_or_zero (trim_suffix value (str " Mbps")) }
    else s

-- The `switch` on the key of the bond.
unfoldable pub bond_key : Str → Str → BondFacts → BondFacts
bond_key key value b =
    if key == str "Bonding Mode"
    then record b { mode = value }
    else if key == str "Transmit Hash Policy"
    then record b { hash_policy = value }
    else if key == str "MII Status"
    then record b { mii_status = value }
    else if key == str "LACP active"
    then record b { lacp_active = value }
    else if key == str "LACP rate"
    then record b { lacp_rate = value }
    else b

-- A write through `cur`, which points to the last slave.
unfoldable pub write_last : (BondSlave → BondSlave) → List BondSlave → List BondSlave
write_last f [] = []
write_last f (s ∷ []) = f s ∷ []
write_last f (s ∷ t ∷ slaves) = s ∷ write_last f (t ∷ slaves)

-- A key with its value; `cur` is nil as long as there is no slave.
unfoldable pub bond_entry : Str → Str → BondFacts → BondFacts
bond_entry key value b =
    if key == str "Slave Interface"
    then record b { slaves = b.slaves ++ new_slave value ∷ [] }
    else if is_empty b.slaves
    then bond_key key value b
    else record b { slaves = write_last (slave_key key value) b.slaves }

unfoldable pub bond_line : Str → BondFacts → BondFacts
bond_line line b =
    let (key, value, found) = cut b':' line in
    if found then bond_entry (trim_space key) (trim_space value) b else b

unfoldable pub bond_lines : List Str → BondFacts → BondFacts
bond_lines [] b = b
bond_lines (line ∷ lines) b = bond_lines lines (bond_line line b)

unfoldable pub parse_bond_file : Str → Str → BondFacts
parse_bond_file name text = bond_lines (split b'\n' text) (new_bond name)

-- The variables of the loop over the links.
pub record Links : Type 0 where
  pub bonds : List BondFacts
  pub vlans : List Str
  pub bridges : List Str

unfoldable pub read_bond : Host → Str → BondFacts
read_bond h name = elim (h.read_file (str "proc/net/bonding/" ++ name)) [
  | none ↦ new_bond name
  | some text ↦ parse_bond_file name text
]

unfoldable pub add_link : Host → Link → Links → Links
add_link h link ls =
    if link.info_kind == str "bond"
    then record ls { bonds = ls.bonds ++ read_bond h link.if_name ∷ [] }
    else if link.info_kind == str "vlan"
    then record ls { vlans = ls.vlans ++ link.if_name ∷ [] }
    else if link.info_kind == str "bridge"
    then record ls { bridges = ls.bridges ++ link.if_name ∷ [] }
    else ls

unfoldable pub add_links : Host → List Link → Links → Links
add_links h [] ls = ls
add_links h (link ∷ links) ls = add_links h links (add_link h link ls)

abbrev pub no_links : Links
no_links = record { bonds = []; vlans = []; bridges = [] }

abbrev pub is_lacp : BondFacts → Bool
is_lacp b = has_sub b.mode (str "802.3ad")

-- The loop over the bonds breaks at the first with LACP.
unfoldable pub lacp_mode : List BondFacts → List Str
lacp_mode [] = []
lacp_mode (b ∷ bonds) = let rest = lacp_mode bonds in if is_lacp b then str "lacp" ∷ [] else rest

unfoldable pub network_modes : Links → List Str
network_modes ls =
    (if is_empty ls.bonds then [] else str "bonded" ∷ lacp_mode ls.bonds)
    ++ ((if is_empty ls.vlans then [] else str "vlan_tagged" ∷ [])
        ++ (if is_empty ls.bridges then [] else str "bridged" ∷ []))

unfoldable pub topology_of : Links → NetTopology
topology_of ls = record {
  bonds = unless_empty ls.bonds;
  vlans = unless_empty ls.vlans;
  bridges = unless_empty ls.bridges;
}

-- Facts without a composition carry nothing.
unfoldable pub report_links : Links → ServerFacts Section → ServerFacts Section
report_links ls f =
    if is_empty ls.bonds && is_empty ls.vlans && is_empty ls.bridges then f else record f {
      network_modes = network_modes ls;
      raw = some ((str "net_topology", net_topology (topology_of ls)) ∷ []);
    }

unfoldable pub answer_links :
    Host → Str → Result (List Link) → Option (ServerFacts Section) × Option Str
answer_links h server_id (err e) = (some (observed (str "linux_net_topology") h server_id), some e)
answer_links h server_id (ok links) = (
  some
      (report_links (add_links h links no_links) (observed (str "linux_net_topology") h server_id)),
  none,
)

module _ (decode : Str → Result (List Link)) where
  -- The links that `ip` lists, or the error.
  unfoldable pub list_links : Option Tools → Result (List Link)
  list_links none = err (str "net topology collector: no CommandRunner configured")
  list_links (some t) = elim (require_command t (str "ip")) [
    | some e ↦ err (str "net topology collector: " ++ e)
    | none ↦ elim (t.run (str "ip") (str "-j" ∷ str "-d" ∷ str "link" ∷ [])) [
      | err e ↦ err (str "net topology collector: " ++ e)
      | ok out ↦ elim (decode out) [
        | err e ↦ err (str "net topology collector: parsing ip link: " ++ e)
        | ok links ↦ ok links
      ]
    ]
  ]

  unfoldable pub collect_net_topology :
      Option Tools → Host → Str → Option (ServerFacts Section) × Option Str
  collect_net_topology t h server_id = answer_links h server_id (list_links t)

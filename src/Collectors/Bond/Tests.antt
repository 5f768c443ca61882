-- ===== src/Collectors/Bond/Tests.antt =====
-- A bond file and links that follow collectors/linux_bond_test.go, and the theorem at that data.
use rewsr_maxfields.Base.{◌≡◌, refl, false, none, some, List, [], ◌∷◌, Str, str, str_eq, nat_eq}
use rewsr_maxfields.Base.Int.{pos}
use rewsr_maxfields.Text.Cut.{cut, trim_suffix}
use rewsr_maxfields.Text.Decimal.{atoi, unsigned, scan, positive}
use rewsr_maxfields.Text.Split.{split}
use rewsr_maxfields.Text.Space.{trim_space}
use rewsr_maxfields.Facts.Types.{ServerFacts}
use rewsr_maxfields.Facts.Build.{Result, ok}
use rewsr_maxfields.Collectors.Host.{Host, Tools, atoi_or_zero}
use rewsr_maxfields.Collectors.Sections.{Section}
use rewsr_maxfields.Collectors.Bond.{
  Link, slave_key, bond_key, write_last, bond_entry, bond_line, bond_lines, parse_bond_file,
  list_links, collect_net_topology,
}
use rewsr_maxfields.Collectors.Bond.Modes.{Reported, collect_net_topology_lem}

abbrev bond_file : Str
bond_file =
    str
      "Bonding Mode: IEEE 802.3ad Dynamic link aggregation\nMII Status: up\n\nSlave Interface: ens1\nMII Status: down\nSpeed: 25000 Mbps\n"

parsed : parse_bond_file (str "bond0") bond_file ≡ record {
  name = str "bond0";
  mode = str "IEEE 802.3ad Dynamic link aggregation";
  hash_policy = [];
  mii_status = str "up";
  lacp_active = [];
  lacp_rate = [];
  slaves = record { name = str "ens1"; mii_status = str "down"; speed_mbps = pos 25000 } ∷ [];
}
unfolding parse_bond_file bond_lines bond_line bond_entry bond_key slave_key write_last atoi_or_zero
    cut trim_suffix atoi unsigned scan positive split trim_space nat_eq str str_eq
parsed = refl

abbrev box : Host
box = record {
  root = str "/";
  joined = λ path. path;
  now = 7;
  read_file = λ path. some bond_file;
  read_dir = λ path. none;
  stat = λ path. false;
  runs = λ command args. none;
}

abbrev tools : Tools
tools = record { look_path = λ name. none; run = λ command args. ok (str "[]") }

abbrev decode : Str → Result (List Link)
decode text = ok (
    record { if_name = str "bond0"; info_kind = str "bond" }
    ∷ record { if_name = str "lo"; info_kind = [] }
    ∷ record { if_name = str "v1"; info_kind = str "vlan" }
    ∷ [])

collect_net_topology_example :
    (f : ServerFacts Section) × ((collect_net_topology decode (some tools) box (str "srv-1")).0
      ≡ some f)
    × Reported decode
        (some tools)
        box
        (list_links decode (some tools))
        (collect_net_topology decode (some tools) box (str "srv-1"))
        f
collect_net_topology_example = collect_net_topology_lem decode (some tools) box (str "srv-1")

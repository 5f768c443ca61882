-- ===== src/Collectors/Pci/Tests.antt =====
-- A host with a NIC and a GPU that follows collectors/linux_pci_test.go.
use rewsr_maxfields.Base.{
  ◌<◌, ◌≡◌, refl, Option, none, some, [], ◌∷◌, arith, Str, str, str_eq, nat_eq, length,
}
use rewsr_maxfields.Base.Float.{Float64, sixteen}
use rewsr_maxfields.Text.Cut.{cut, cut_last}
use rewsr_maxfields.Text.Space.{is_space, trim_space}
use rewsr_maxfields.Facts.Types.{ServerFacts}
use rewsr_maxfields.Collectors.Fixtures.{fixture, toolbox}
use rewsr_maxfields.Collectors.Host.{Host, Tools, run_tool}
use rewsr_maxfields.Collectors.Sections.{Section}
use rewsr_maxfields.Collectors.Lspci.{
  no_fields, field_step, field_loop, split_lspci_fields, split_name_and_id, parse_lspci_mm,
}
use rewsr_maxfields.Collectors.Lspci.Loop.{Runs, field_loop-Runs}
use rewsr_maxfields.Collectors.Lspci.Listed.{Listed, IsListed, print_lines, device_of_listed}
use rewsr_maxfields.Collectors.Lspci.RoundTrip.{parse_lspci_mm-print_lines}
use rewsr_maxfields.Collectors.Pci.{collect_pci}
use rewsr_maxfields.Collectors.Pci.Links.{PciReported, collect_pci_lem}

abbrev nic : Listed
nic = record {
  address = str "0000:c1:00.0";
  class = (str "Ethernet controller", str "0200");
  vendor = (str "Mellanox", str "15b3");
  device = (str "MT2892", str "101d");
  revision = str "02";
  prog_if = str "01";
  sub_vendor = str "Mellanox [15b3]";
  sub_device = [];
}

name_with_brackets :
    split_name_and_id (str "MT2892 Family [ConnectX-6 Dx] [101d]")
    ≡ (str "MT2892 Family [ConnectX-6 Dx]", str "101d")
unfolding split_name_and_id cut_last trim_space nat_eq str
name_with_brackets = refl

fields_and_tokens :
    split_lspci_fields (str "\"A [1]\" -r02 \"B\" -p01")
    ≡ record { quoted = str "A [1]" ∷ str "B" ∷ []; tokens = str "-r02" ∷ str "-p01" ∷ [] }
unfolding split_lspci_fields field_loop field_step cut nat_eq str
fields_and_tokens = refl

-- A quote that is not closed ends the loop.
open_quote : (split_lspci_fields (str "\"A\" \"B")).quoted ≡ str "A" ∷ []
unfolding split_lspci_fields field_loop field_step cut nat_eq str
open_quote = refl

nic-IsListed : IsListed nic
unfolding str nat_eq is_space trim_space
nic-IsListed = record {
  address_ne_nil = λ e. ground arith;
  address_solid = ground arith;
  class = ground arith;
  vendor = ground arith;
  device = ground arith;
  revision = ground arith;
  prog_if = ground arith;
  sub_vendor = ground arith;
  sub_device = ground arith;
  one_line = ground arith;
}

parse_lspci_mm-print_lines_example :
    parse_lspci_mm (print_lines (nic ∷ [])) ≡ device_of_listed nic ∷ []
parse_lspci_mm-print_lines_example = parse_lspci_mm-print_lines (nic ∷ []) (nic-IsListed, tt)

enough : length (str "\"A\" -r1") < 9
unfolding str
enough = omega arith

field_loop-Runs_example :
    Runs (str "\"A\" -r1") no_fields (field_loop 9 (str "\"A\" -r1") no_fields)
field_loop-Runs_example = field_loop-Runs 9 (str "\"A\" -r1") no_fields enough

abbrev parse_float : Str → Option Float64
parse_float [] = none
parse_float (c ∷ s) = some sixteen

abbrev box : Host
box =
    fixture
      ((str "sys/bus/pci/devices/0000:c1:00.0/max_link_speed", str "16.0 GT/s PCIe")
        ∷ (str "sys/bus/pci/devices/0000:c1:00.0/sriov_totalvfs", str "8\n")
        ∷ [])
      []

abbrev tools : Tools
tools = toolbox ((str "lspci", print_lines (nic ∷ [])) ∷ [])

collect_pci_example :
    (f : ServerFacts Section) × ((collect_pci parse_float (some tools) box (str "srv-1")).0
      ≡ some f)
    × PciReported parse_float
        (some tools)
        box
        (run_tool (str "pci collector") (some tools) (str "lspci") (str "-Dnnmm" ∷ []))
        (collect_pci parse_float (some tools) box (str "srv-1"))
        f
collect_pci_example = collect_pci_lem parse_float (some tools) box (str "srv-1")

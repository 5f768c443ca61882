-- ===== src/Collectors/Pci.antt =====
-- collectors/linux_pci.go: the PCIe functions of a host and the capabilities drawn from their links. The
-- float that `strconv.ParseFloat` reads is a parameter.
pub mod Links
mod Tests
use rewsr_maxfields.Base.{
  ℕ, Bool, true, false, ◌&&◌, ◌||◌, Option, none, some, List, [], ◌∷◌, ◌++◌, Str, str, ◌==◌, str_eq,
  contains, length, is_empty, if◌then◌else◌,
}
use rewsr_maxfields.Base.Int.{ℤ, is_pos}
use rewsr_maxfields.Base.Float.{Float64, zero_float, sixteen, thirty_two, ge_float, larger}
use rewsr_maxfields.Text.Cut.{cut}
use rewsr_maxfields.Text.Space.{trim_space}
use rewsr_maxfields.Facts.Types.{ServerFacts}
use rewsr_maxfields.Facts.Build.{Result, ok, err}
use rewsr_maxfields.Collectors.Host.{Host, Tools, run_tool, observed, add_cap, read_int_file}
use rewsr_maxfields.Collectors.Sections.{PciDevice, PciRaw, Section, pci}
use rewsr_maxfields.Collectors.Lspci.{parse_lspci_mm}

-- The keys of `interestingPCIClasses`.
unfoldable pub interesting_classes : List Str
interesting_classes =
    str "0100"
    ∷ str "0104"
    ∷ str "0106"
    ∷ str "0107"
    ∷ str "0108"
    ∷ str "0200"
    ∷ str "0207"
    ∷ str "0280"
    ∷ str "0300"
    ∷ str "0302"
    ∷ str "0b40"
    ∷ str "1200"
    ∷ []

abbrev pub is_interesting : PciDevice → Bool
is_interesting d = contains d.class_id interesting_classes

unfoldable pub device_path : Str → Str → Str
device_path address file = str "sys/bus/pci/devices/" ++ (address ++ (str "/" ++ file))

-- The variables of the loop over the devices that are kept.
pub record Seen : Type 0 where
  pub max_gts : Float64
  pub saw_accel : Bool
  pub saw_sriov : Bool

abbrev pub is_accel : PciDevice → Bool
is_accel d = d.class_id == str "0302" || d.class_id == str "1200" || d.class_id == str "0b40"

unfoldable pub see_device : PciDevice → Seen → Seen
see_device d s = record {
  max_gts = larger d.max_link_gts s.max_gts;
  saw_accel = if is_accel d then true else s.saw_accel;
  saw_sriov = if is_pos d.sriov_total then true else s.saw_sriov;
}

unfoldable pub see_devices : List PciDevice → Seen → Seen
see_devices [] s = s
see_devices (d ∷ ds) s = see_devices ds (see_device d s)

unfoldable pub generation_caps : Float64 → List Str
generation_caps max_gts =
    if ge_float max_gts thirty_two
    then str "pcie_gen5" ∷ []
    else if ge_float max_gts sixteen
    then str "pcie_gen4" ∷ []
    else []

abbrev pub nothing_seen : Seen
nothing_seen = record { max_gts = zero_float; saw_accel = false; saw_sriov = false }

unfoldable pub pci_capabilities : List PciDevice → List Str
pci_capabilities kept =
    let s = see_devices kept nothing_seen in
    add_cap (str "sriov") s.saw_sriov
      (add_cap (str "gpu_accelerator") s.saw_accel (generation_caps s.max_gts))

module _ (parse_float : Str → Option Float64) where
  unfoldable pub read_link_gts : Host → Str → Float64
  read_link_gts h path = elim (h.read_file path) [
    | none ↦ zero_float
    | some text ↦ elim (parse_float (cut b' ' (trim_space text)).0) [
      | none ↦ zero_float
      | some v ↦ v
    ]
  ]

  unfoldable pub enrich_from_sysfs : Host → PciDevice → PciDevice
  enrich_from_sysfs h d =
      let path = device_path d.address in
      record d {
        cur_link_gts = read_link_gts h (path (str "current_link_speed"));
        max_link_gts = read_link_gts h (path (str "max_link_speed"));
        cur_link_x = read_int_file h (path (str "current_link_width"));
        max_link_x = read_int_file h (path (str "max_link_width"));
        sriov_total = read_int_file h (path (str "sriov_totalvfs"));
        sriov_active = read_int_file h (path (str "sriov_numvfs"));
      }

  unfoldable pub kept_devices : Host → List PciDevice → List PciDevice
  kept_devices h [] = []
  kept_devices h (d ∷ ds) =
      let rest = kept_devices h ds in
      if is_interesting d then enrich_from_sysfs h d ∷ rest else rest

  unfoldable pub report_pci : Host → Str → Result Str → Option (ServerFacts Section) × Option Str
  report_pci h server_id (err e) = (some (observed (str "linux_pci") h server_id), some e)
  report_pci h server_id (ok out) =
      let f = observed (str "linux_pci") h server_id in
      let all = parse_lspci_mm out in
      let kept = kept_devices h all in
      if is_empty all
      then (some f, some (str "pci collector: lspci output parsed to zero devices"))
      else (
        some (record f {
          raw =
              some
                ((str "pci", pci (record { total_functions = length all; devices = kept })) ∷ []);
          capabilities = pci_capabilities kept;
        }),
        none,
      )

  unfoldable pub collect_pci : Option Tools → Host → Str → Option (ServerFacts Section) × Option Str
  collect_pci t h server_id =
      report_pci h server_id (run_tool (str "pci collector") t (str "lspci") (str "-Dnnmm" ∷ []))

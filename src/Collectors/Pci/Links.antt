-- ===== src/Collectors/Pci/Links.antt =====
-- The capabilities of a host by its PCIe functions.
use rewsr_maxfields.Base.{
  ◌≡◌, ◌↔◌, ◌∙◌, refl, ap, Bool, false, not, ◌&&◌, ◌||◌, Option, none, some, List, [], ◌∷◌, arith,
  Str, str, ◌==◌, str_eq, contains, any, keep, map, is_empty,
}
use rewsr_maxfields.Base.Int.{is_pos}
use rewsr_maxfields.Base.Float.{
  Float64, sixteen, thirty_two, ge_float, is_nan, larger-is_nan, ge_float-larger, ge_float-zero,
}
use rewsr_maxfields.Facts.Types.{ServerFacts}
use rewsr_maxfields.Facts.Build.{Result, ok, err}
use rewsr_maxfields.Collectors.Host.{Host, Tools, run_tool, observed, add_cap, contains-add_cap}
use rewsr_maxfields.Collectors.Sections.{PciDevice, Section}
use rewsr_maxfields.Collectors.Lspci.{parse_lspci_mm}
use rewsr_maxfields.Collectors.Pci.{
  is_interesting, is_accel, Seen, nothing_seen, see_device, see_devices, generation_caps,
  pci_capabilities, enrich_from_sysfs, kept_devices, report_pci, collect_pci,
}

abbrev pub reaches : Float64 → PciDevice → Bool
reaches x d = ge_float d.max_link_gts x

abbrev pub has_sriov : PciDevice → Bool
has_sriov d = is_pos d.sriov_total

see_devices_lem :
    (ds : List PciDevice) (s : Seen)
    → is_nan s.max_gts ≡ false
    → ((x : Float64)
        → ge_float (see_devices ds s).max_gts x ≡ (ge_float s.max_gts x || any (reaches x) ds))
      × ((see_devices ds s).saw_accel ≡ (s.saw_accel || any is_accel ds))
      × ((see_devices ds s).saw_sriov ≡ (s.saw_sriov || any has_sriov ds))
unfolding see_devices see_device
see_devices_lem [] s h = ((λ x. ground arith), ground arith, ground arith)
see_devices_lem (d ∷ ds) s h =
    let (reach, accel, sriov) =
      see_devices_lem ds (see_device d s) (larger-is_nan d.max_link_gts s.max_gts h) in
    (
      λ x. ground (arith, reach x, ge_float-larger d.max_link_gts s.max_gts x h),
      ground (arith, accel),
      ground (arith, sriov),
    )

-- What the kept devices say of a capability.
abbrev pub is_pci_capability : Str → List PciDevice → Bool
is_pci_capability c kept =
    c == str "pcie_gen5" && any (reaches thirty_two) kept
    || c == str "pcie_gen4" && (any (reaches sixteen) kept && not (any (reaches thirty_two) kept))
    || c == str "gpu_accelerator" && any is_accel kept
    || c == str "sriov" && any has_sriov kept

contains-generation_caps :
    (c : Str) (m : Float64)
    → contains c (generation_caps m) ≡ (
        c == str "pcie_gen5" && ge_float m thirty_two
        || c == str "pcie_gen4" && (ge_float m sixteen && not (ge_float m thirty_two)))
unfolding generation_caps
contains-generation_caps c m = ground arith

contains-pci_capabilities :
    (c : Str) (kept : List PciDevice)
    → contains c (pci_capabilities kept) ≡ is_pci_capability c kept
unfolding pci_capabilities
contains-pci_capabilities c kept =
    let s = see_devices kept nothing_seen in
    let caps = generation_caps s.max_gts in
    let (reach, accel, sriov) = see_devices_lem kept nothing_seen ge_float-zero.2 in
    ground (
      arith,
      contains-add_cap c (str "sriov") s.saw_sriov
          (add_cap (str "gpu_accelerator") s.saw_accel caps),
      contains-add_cap c (str "gpu_accelerator") s.saw_accel caps,
      contains-generation_caps c s.max_gts,
      reach sixteen,
      reach thirty_two,
      accel,
      sriov,
      ge_float-zero,
    )

module _ (parse_float : Str → Option Float64) (t : Option Tools) (h : Host) where
  kept_devices_lem :
      (all : List PciDevice)
      → kept_devices parse_float h all
        ≡ map (enrich_from_sysfs parse_float h) (keep is_interesting all)
  unfolding kept_devices
  kept_devices_lem [] = refl
  kept_devices_lem (d ∷ all) = ground (arith, kept_devices_lem all)

  -- The functions that `lspci` lists and that matter, with their links.
  abbrev pub inventory : Str → List PciDevice
  inventory out = map (enrich_from_sysfs parse_float h) (keep is_interesting (parse_lspci_mm out))

  -- What the collector returns, by the output of `lspci` or the error.
  abbrev pub PciReported :
      Result Str → Option (ServerFacts Section) × Option Str → ServerFacts Section → Type 0
  PciReported (err e) r f = (r.1 ≡ some e) × (f.capabilities ≡ [])
  PciReported (ok out) r f =
      ((r.1 ≡ none) ↔ (is_empty (parse_lspci_mm out) ≡ false))
      × ((c : Str) → contains c f.capabilities ≡ is_pci_capability c (inventory out))

  -- The PCI collector always returns facts. Where `lspci` runs, the error is nil exactly when its output
  -- lists a device, and of the functions of the interesting classes, with their links read from sysfs,
  -- it reports: "pcie_gen5" exactly when one reaches 32 GT/s, "pcie_gen4" exactly when one reaches 16
  -- and none 32, "gpu_accelerator" exactly when one is an accelerator, "sriov" exactly when one has
  -- virtual functions, and nothing else. A link speed that is not a number counts for nothing. Where
  -- `lspci` does not run, it returns the error and no capability.
  pub collect_pci_lem :
      (id : Str)
      → (f : ServerFacts Section) × ((collect_pci parse_float t h id).0 ≡ some f)
        × PciReported
            (run_tool (str "pci collector") t (str "lspci") (str "-Dnnmm" ∷ []))
            (collect_pci parse_float t h id)
            f
  unfolding collect_pci report_pci
  collect_pci_lem id = go (run_tool (str "pci collector") t (str "lspci") (str "-Dnnmm" ∷ []))
    where
      empty : (observed {V = Section} (str "linux_pci") h id).capabilities ≡ []
      empty = unfold observed in refl

      go :
          (r : Result Str)
          → (f : ServerFacts Section) × ((report_pci parse_float h id r).0 ≡ some f)
            × PciReported r (report_pci parse_float h id r) f
      go (err e) = (_, refl, (refl, empty))
      go (ok out) = split (parse_lspci_mm out) refl
        where
          split :
              (all : List PciDevice)
              → parse_lspci_mm out ≡ all
              → (f : ServerFacts Section) × ((report_pci parse_float h id (ok out)).0 ≡ some f)
                × PciReported (ok out) (report_pci parse_float h id (ok out)) f
          split [] e =
              rw e
                (_, refl, (((λ z. ground arith), λ z. ground arith), λ c. rw empty (ground arith)))
          split (d ∷ all) e = rw e (
            _,
            refl,
            (
              ((λ _. refl), λ _. refl),
              λ c.
                  contains-pci_capabilities c (kept_devices parse_float h (d ∷ all))
                  ∙ ap (is_pci_capability c) (kept_devices_lem (d ∷ all)),
            ),
          )

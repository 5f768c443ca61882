-- ===== src/Collectors/Gpu/Tests.antt =====
-- A host with a GPU that follows collectors/linux_gpu_test.go.
use rewsr_maxfields.Base.{
  ◌≡◌, ◌↔◌, refl, true, ◌&&◌, none, some, [], ◌∷◌, Str, str, str_eq, nat_eq, contains,
}
use rewsr_maxfields.Base.Dict
use rewsr_maxfields.Text.Case.{to_lower}
use rewsr_maxfields.Text.Cut.{has_prefix}
use rewsr_maxfields.Text.Space.{trim_space}
use rewsr_maxfields.Text.Split.{split}
use rewsr_maxfields.Facts.Types.{ServerFacts}
use rewsr_maxfields.Collectors.Fixtures.{fixture, toolbox}
use rewsr_maxfields.Collectors.Host.{Host, Tools}
use rewsr_maxfields.Collectors.Sections.{Section}
use rewsr_maxfields.Collectors.Gpu.{
  base_class, gpu_device, gpu_fields, gpu_lines, read_trimmed_lower, scan_entries, scan_pci,
  parse_nvidia_smi_csv, smi_gpus, has_doca_tool, collect_gpu,
}
use rewsr_maxfields.Collectors.Gpu.Stacks.{
  smi_output, has_source, is_gpu_capability, collect_gpu_lem,
}

abbrev dir : Str
dir = str "sys/bus/pci/devices"

abbrev box : Host
box =
    fixture
      ((str "sys/bus/pci/devices/0000:17:00.0/vendor", str "0x10DE\n")
        ∷ (str "sys/bus/pci/devices/0000:17:00.0/device", str "0x2330\n")
        ∷ (str "sys/bus/pci/devices/0000:17:00.0/class", str "0x030200\n")
        ∷ (str "proc/modules", str "nvidia_peermem 16384 0 - Live\n")
        ∷ [])
      ((dir, record { name = str "0000:17:00.0"; is_dir = true } ∷ [])
        ∷ (str "sys/class/infiniband", record { name = str "mlx5_0"; is_dir = true } ∷ [])
        ∷ [])

scanned :
    (scan_pci box).0
    ≡ record {
      address = str "0000:17:00.0";
      vendor_id = str "0x10de";
      device_id = str "0x2330";
      class_id = str "0x030200";
      kind = str "nvidia_gpu";
    }
      ∷ []
unfolding scan_pci scan_entries gpu_device base_class read_trimmed_lower to_lower trim_space
    has_prefix Dict.lookup str str_eq
scanned = refl

csv :
    parse_nvidia_smi_csv (str "H100, 550.54, 81559 MiB\n\nA2\n , 1\n")
    ≡ record { name = str "H100"; driver_version = str "550.54"; memory_total = str "81559 MiB" }
      ∷ record { name = str "A2"; driver_version = []; memory_total = [] }
      ∷ []
unfolding parse_nvidia_smi_csv gpu_lines gpu_fields split trim_space nat_eq str
csv = refl

abbrev tools : Tools
tools = toolbox ((str "nvidia-smi", str "H100, 550.54, 81559 MiB\n") ∷ [])

collect_gpu_example :
    (f : ServerFacts Section) × ((collect_gpu true tools box (str "srv-1")).0 ≡ some f)
    × (((collect_gpu true tools box (str "srv-1")).1 ≡ none) ↔ (has_source box true tools ≡ true))
    × ((c : Str)
        → contains c f.capabilities ≡ (
            has_source box true tools
            && is_gpu_capability box c
                (smi_gpus (smi_output box true tools))
                (has_doca_tool tools)))
collect_gpu_example = collect_gpu_lem box true tools (str "srv-1")

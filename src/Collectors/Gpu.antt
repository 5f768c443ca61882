-- ===== src/Collectors/Gpu.antt =====
-- collectors/linux_gpu.go: the GPUs and DPUs of a host and the stacks that use them.
pub mod Stacks
mod Tests
use rewsr_maxfields.Base.{
  Bool, true, false, not, ◌&&◌, ◌||◌, Option, none, some, List, [], ◌∷◌, ◌++◌, Str, str, ◌==◌,
  str_eq, is_empty, any, contains, if◌then◌else◌,
}
use rewsr_maxfields.Text.Case.{to_lower}
use rewsr_maxfields.Text.Cut.{cut, has_prefix}
use rewsr_maxfields.Text.Space.{trim_space}
use rewsr_maxfields.Text.Split.{split}
use rewsr_maxfields.Facts.Types.{ServerFacts}
use rewsr_maxfields.Facts.Build.{Result, ok, err}
use rewsr_maxfields.Collectors.Host.{
  Host, Tools, Entry, observed, add_cap, require_command, unless_empty, is_some,
}
use rewsr_maxfields.Collectors.Sections.{GpuDevice, NvidiaSmiGpu, GpuRaw, Section, gpu}

abbrev pub vendor_nvidia : Str
vendor_nvidia = str "0x10de"

abbrev pub vendor_mellanox : Str
vendor_mellanox = str "0x15b3"

-- `bluefieldDeviceIDs`
abbrev pub bluefield_device_ids : List Str
bluefield_device_ids = str "0xa2d2" ∷ str "0xa2d6" ∷ str "0xa2dc" ∷ []

-- `readTrimmedLower`
unfoldable pub read_trimmed_lower : Host → Str → Str
read_trimmed_lower h path = elim (h.read_file path) [
  | none ↦ []
  | some text ↦ to_lower (trim_space text)
]

-- `class[2:4]` behind "0x", where there are two characters.
unfoldable pub base_class : Str → Str
base_class (z ∷ x ∷ a ∷ b ∷ s) =
    if has_prefix (z ∷ x ∷ a ∷ b ∷ s) (str "0x") then a ∷ b ∷ [] else []
base_class s = []

-- The function with its vendor, device and class, if it is one of those sought.
unfoldable pub gpu_device : Str → Str → Str → Str → List GpuDevice
gpu_device address vendor device class =
    let found : Str → GpuDevice = λ kind. record {
      address = address;
      vendor_id = vendor;
      device_id = device;
      class_id = class;
      kind = kind;
    } in
    if is_empty vendor || is_empty class
    then []
    else if vendor == vendor_nvidia && base_class class == str "03"
    then found (str "nvidia_gpu") ∷ []
    else if vendor == vendor_mellanox && contains device bluefield_device_ids
    then found (str "bluefield_dpu") ∷ []
    else []

abbrev pub pci_file : Host → Str → Str → Str
pci_file h name file =
    read_trimmed_lower h (str "sys/bus/pci/devices/" ++ (name ++ (str "/" ++ file)))

unfoldable pub scan_entries : Host → List Entry → List GpuDevice
scan_entries h [] = []
scan_entries h (e ∷ entries) =
    gpu_device e.name (pci_file h e.name (str "vendor")) (pci_file h e.name (str "device"))
      (pci_file h e.name (str "class"))
    ++ scan_entries h entries

-- The devices, and whether the directory is readable.
unfoldable pub scan_pci : Host → List GpuDevice × Bool
scan_pci h = elim (h.read_dir (str "sys/bus/pci/devices")) [
  | none ↦ ([], false)
  | some entries ↦ (scan_entries h entries, true)
]

abbrev pub is_peermem_line : Str → Bool
is_peermem_line line =
    let name = (cut b' ' line).0 in name == str "nvidia_peermem" || name == str "nv_peer_mem"

-- Whether a module is loaded, and whether the list is readable.
unfoldable pub has_peermem_module : Host → Bool × Bool
has_peermem_module h = elim (h.read_file (str "proc/modules")) [
  | none ↦ (false, false)
  | some text ↦ (any is_peermem_line (split b'\n' text), true)
]

unfoldable pub has_rdma_device : Host → Bool
has_rdma_device h = elim (h.read_dir (str "sys/class/infiniband")) [
  | none ↦ false
  | some entries ↦ not (is_empty entries)
]

abbrev pub has_mst : Host → Bool
has_mst h = h.stat (str "dev/mst")

abbrev pub has_nvidia_ctl : Host → Bool
has_nvidia_ctl h = h.stat (str "dev/nvidiactl")

unfoldable pub gpu_fields : List Str → List NvidiaSmiGpu
gpu_fields [] = []
gpu_fields (name ∷ more) =
    let found : Str → Str → NvidiaSmiGpu = λ driver memory. record {
      name = trim_space name;
      driver_version = driver;
      memory_total = memory;
    } in
    if is_empty (trim_space name) then [] else elim more [
      | [] ↦ found [] [] ∷ []
      | driver ∷ more ↦ elim more [
        | [] ↦ found (trim_space driver) [] ∷ []
        | memory ∷ _ ↦ found (trim_space driver) (trim_space memory) ∷ []
      ]
    ]

unfoldable pub gpu_lines : List Str → List NvidiaSmiGpu
gpu_lines [] = []
gpu_lines (line ∷ lines) =
    let rest = gpu_lines lines in
    if is_empty (trim_space line) then rest else gpu_fields (split b',' (trim_space line)) ++ rest

unfoldable pub parse_nvidia_smi_csv : Str → List NvidiaSmiGpu
parse_nvidia_smi_csv out = gpu_lines (split b'\n' out)

-- The output of nvidia-smi, if there is a runner and the command is installed and succeeds. The look-up
-- of commands is there without a runner too.
unfoldable pub run_nvidia_smi : Bool → Tools → Option Str
run_nvidia_smi false t = none
run_nvidia_smi true t = elim (require_command t (str "nvidia-smi")) [
  | some e ↦ none
  | none ↦
      elim (t.run (str "nvidia-smi")
        (str "--query-gpu=name,driver_version,memory.total" ∷ str "--format=csv,noheader" ∷ [])) [
          | err e ↦ none
          | ok out ↦ some out
        ]
]

abbrev pub smi_gpus : Option Str → List NvidiaSmiGpu
smi_gpus none = []
smi_gpus (some out) = parse_nvidia_smi_csv out

abbrev pub is_kind : Str → GpuDevice → Bool
is_kind kind d = d.kind == kind

-- The capabilities from the devices, the GPUs of nvidia-smi, whether the DOCA tool is installed, and
-- the host.
unfoldable pub gpu_capabilities : List GpuDevice → List NvidiaSmiGpu → Bool → Host → List Str
gpu_capabilities devices smi doca_tool h =
    let nvidia_gpu = any (is_kind (str "nvidia_gpu")) devices || not (is_empty smi) in
    add_cap (str "gpudirect_rdma") ((has_peermem_module h).0 && has_rdma_device h) (
      add_cap (str "doca") (has_mst h || doca_tool) (
        add_cap (str "bluefield_dpu") (any (is_kind (str "bluefield_dpu")) devices) (
          add_cap (str "gpu_cuda") (not (is_empty smi) || has_nvidia_ctl h)
            (add_cap (str "nvidia_gpu") nvidia_gpu (add_cap (str "gpu") nvidia_gpu [])))))

unfoldable pub gpu_raw : List GpuDevice → List NvidiaSmiGpu → Bool → List (Str × Section)
gpu_raw devices smi peermem =
    if is_empty devices && is_empty smi && not peermem
    then []
    else (
      str "gpu",
      gpu (record {
        pci_functions = unless_empty devices;
        nvidia_smi = unless_empty smi;
        peermem_module = peermem;
      }),
    )
      ∷ []

unfoldable pub saw_gpu : Option Str → Host → Bool
saw_gpu smi_out h =
    (scan_pci h).1
    || is_some smi_out
    || (has_peermem_module h).1
    || has_rdma_device h
    || has_mst h
    || has_nvidia_ctl h

abbrev pub has_doca_tool : Tools → Bool
has_doca_tool t = not (is_some (require_command t (str "doca")))

unfoldable pub collect_gpu : Bool → Tools → Host → Str → Option (ServerFacts Section) × Option Str
collect_gpu has_runner t h server_id =
    let f = observed (str "linux_gpu") h server_id in
    let smi_out = run_nvidia_smi has_runner t in
    let smi = smi_gpus smi_out in
    let devices = (scan_pci h).0 in
    if saw_gpu smi_out h
    then (
      some (record f {
        capabilities = gpu_capabilities devices smi (has_doca_tool t) h;
        raw = some (gpu_raw devices smi (has_peermem_module h).0);
      }),
      none,
    )
    else (some f, some (str "gpu collector: no GPU-related sources readable under " ++ h.root))

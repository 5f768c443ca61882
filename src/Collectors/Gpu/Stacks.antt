-- ===== src/Collectors/Gpu/Stacks.antt =====
-- Which GPU capabilities a host reports.
use rewsr_maxfields.Base.{
  ◌≡◌, ◌↔◌, ◌∙◌, sym, refl, Bool, true, false, not, ◌&&◌, ◌||◌, Option, none, some, List, [], ◌∷◌,
  ◌++◌, arith, Str, str, ◌==◌, str_eq, contains, any, is_empty, Bool-cases, inl, inr,
}
use rewsr_maxfields.Facts.Build.{ok, err}
use rewsr_maxfields.Facts.Types.{ServerFacts}
use rewsr_maxfields.Collectors.Host.{
  Host, Tools, Entry, is_some, require_command, observed, contains-add_cap,
}
use rewsr_maxfields.Collectors.Sections.{GpuDevice, NvidiaSmiGpu, Section}
use rewsr_maxfields.Collectors.Gpu.{
  vendor_nvidia, vendor_mellanox, bluefield_device_ids, base_class, gpu_device, pci_file,
  scan_entries, scan_pci, has_peermem_module, has_rdma_device, has_mst, has_nvidia_ctl,
  run_nvidia_smi, smi_gpus, is_kind, gpu_capabilities, saw_gpu, has_doca_tool, collect_gpu,
}

-- The kinds and the vendors are different words.
words_differ :
    ((str "nvidia_gpu" == str "bluefield_dpu") ≡ false)
    × ((str "bluefield_dpu" == str "nvidia_gpu") ≡ false)
    × (is_empty vendor_nvidia ≡ false)
    × (is_empty vendor_mellanox ≡ false)
    × ((vendor_nvidia == vendor_mellanox) ≡ false)
    × ((base_class [] == str "03") ≡ false)
unfolding str str_eq base_class
words_differ = (refl, refl, refl, refl, refl, refl)

-- What the PCI files of an entry say.
abbrev pub is_nvidia : Str → Str → Bool
is_nvidia vendor class = vendor == vendor_nvidia && base_class class == str "03"

abbrev pub is_bluefield : Str → Str → Str → Bool
is_bluefield vendor device class =
    vendor == vendor_mellanox && contains device bluefield_device_ids && not (is_empty class)

gpu_device_lem :
    (address vendor device class : Str)
    → (any (is_kind (str "nvidia_gpu")) (gpu_device address vendor device class)
        ≡ is_nvidia vendor class)
      × (any (is_kind (str "bluefield_dpu")) (gpu_device address vendor device class)
          ≡ is_bluefield vendor device class)
unfolding gpu_device
gpu_device_lem address vendor device class = go class
  where
    go :
        (class : Str)
        → (any (is_kind (str "nvidia_gpu")) (gpu_device address vendor device class)
            ≡ is_nvidia vendor class)
          × (any (is_kind (str "bluefield_dpu")) (gpu_device address vendor device class)
              ≡ is_bluefield vendor device class)
    go [] = ground (arith, words_differ)
    go (c ∷ class) = ground (arith, words_differ)

module _ (h : Host) where
  abbrev pub nvidia_entry : Entry → Bool
  nvidia_entry e = is_nvidia (pci_file h e.name (str "vendor")) (pci_file h e.name (str "class"))

  abbrev pub bluefield_entry : Entry → Bool
  bluefield_entry e =
      is_bluefield (pci_file h e.name (str "vendor")) (pci_file h e.name (str "device"))
        (pci_file h e.name (str "class"))

  any-append :
      (p : GpuDevice → Bool) (xs ys : List GpuDevice) → any p (xs ++ ys) ≡ (any p xs || any p ys)
  any-append p [] ys = refl
  any-append p (x ∷ xs) ys = ground (arith, any-append p xs ys)

  scan_entries_lem :
      (entries : List Entry)
      → (any (is_kind (str "nvidia_gpu")) (scan_entries h entries) ≡ any nvidia_entry entries)
        × (any (is_kind (str "bluefield_dpu")) (scan_entries h entries)
            ≡ any bluefield_entry entries)
  unfolding scan_entries
  scan_entries_lem [] = (refl, refl)
  scan_entries_lem (e ∷ entries) =
      let found =
        gpu_device e.name (pci_file h e.name (str "vendor")) (pci_file h e.name (str "device"))
          (pci_file h e.name (str "class")) in
      let (one_nvidia, one_bluefield) =
        gpu_device_lem e.name (pci_file h e.name (str "vendor")) (pci_file h e.name (str "device"))
          (pci_file h e.name (str "class")) in
      let (nvidia, bluefield) = scan_entries_lem entries in
      (
        any-append (is_kind (str "nvidia_gpu")) found (scan_entries h entries)
            ∙ rw (one_nvidia, nvidia) refl,
        any-append (is_kind (str "bluefield_dpu")) found (scan_entries h entries)
            ∙ rw (one_bluefield, bluefield) refl,
      )

  -- The entries of the directory of RDMA devices, none if it is unreadable.
  abbrev pub infiniband_entries : List Entry
  infiniband_entries = elim (h.read_dir (str "sys/class/infiniband")) [
    | none ↦ []
    | some entries ↦ entries
  ]

  -- The PCI functions of the host, none if the directory is unreadable.
  abbrev pub pci_entries : List Entry
  pci_entries = elim (h.read_dir (str "sys/bus/pci/devices")) [ none ↦ [] | some entries ↦ entries ]

  scan_pci_lem :
      (any (is_kind (str "nvidia_gpu")) (scan_pci h).0 ≡ any nvidia_entry pci_entries)
      × (any (is_kind (str "bluefield_dpu")) (scan_pci h).0 ≡ any bluefield_entry pci_entries)
  unfolding scan_pci
  scan_pci_lem =
      elim (h.read_dir (str "sys/bus/pci/devices"))
        as (λ r.
          (any (is_kind (str "nvidia_gpu"))
              (elim r as (λ _. List GpuDevice × Bool) [
                | none ↦ ([], false)
                | some entries ↦ (scan_entries h entries, true)
              ]).0
            ≡ any nvidia_entry (elim r [ none ↦ [] | some entries ↦ entries ]))
          × (any (is_kind (str "bluefield_dpu"))
                (elim r as (λ _. List GpuDevice × Bool) [
                  | none ↦ ([], false)
                  | some entries ↦ (scan_entries h entries, true)
                ]).0
              ≡ any bluefield_entry (elim r [ none ↦ [] | some entries ↦ entries ]))) [
                | none ↦ (refl, refl)
                | some entries ↦ scan_entries_lem entries
              ]

  -- What a host says of a capability.
  abbrev pub is_gpu_capability : Str → List NvidiaSmiGpu → Bool → Bool
  is_gpu_capability c smi doca_tool =
      (c == str "gpu" || c == str "nvidia_gpu")
        && (any nvidia_entry pci_entries || not (is_empty smi))
      || c == str "gpu_cuda" && (not (is_empty smi) || has_nvidia_ctl h)
      || c == str "bluefield_dpu" && any bluefield_entry pci_entries
      || c == str "doca" && (has_mst h || doca_tool)
      || c == str "gpudirect_rdma" && ((has_peermem_module h).0 && has_rdma_device h)

  contains-gpu_capabilities :
      (c : Str) (smi : List NvidiaSmiGpu) (doca_tool : Bool)
      → contains c (gpu_capabilities (scan_pci h).0 smi doca_tool h)
        ≡ is_gpu_capability c smi doca_tool
  unfolding gpu_capabilities
  contains-gpu_capabilities c smi doca_tool =
      simp (contains-add_cap, scan_pci_lem.0, scan_pci_lem.1) (ground arith)

  module _ (has_runner : Bool) (t : Tools) where
    abbrev pub smi_output : Option Str
    smi_output = run_nvidia_smi has_runner t

    -- nvidia-smi is installed and succeeds, and there is a runner for it.
    abbrev pub runs_smi : Bool
    runs_smi =
        has_runner
        && not (is_some (t.look_path (str "nvidia-smi")))
        && (elim (t.run (str "nvidia-smi") (
            str "--query-gpu=name,driver_version,memory.total"
            ∷ str "--format=csv,noheader"
            ∷ [])) [ err _ ↦ false | ok _ ↦ true ])

    -- One of the sources of the host says something.
    abbrev pub has_source : Bool
    has_source =
        is_some (h.read_dir (str "sys/bus/pci/devices"))
        || runs_smi
        || is_some (h.read_file (str "proc/modules"))
        || not (is_empty infiniband_entries)
        || h.stat (str "dev/mst")
        || h.stat (str "dev/nvidiactl")

    smi_lem : is_some smi_output ≡ runs_smi
    unfolding run_nvidia_smi require_command
    smi_lem = ground arith

    saw_lem : saw_gpu smi_output h ≡ has_source
    unfolding saw_gpu scan_pci has_peermem_module has_rdma_device
    saw_lem = ground (arith, smi_lem)

    -- The GPU collector always returns facts, with an error exactly when neither the directory of the PCI
    -- functions nor the list of modules is readable, nvidia-smi is not installed, cannot be run or fails,
    -- there is no RDMA device, and neither the mst directory nor the driver's control node exists. From the
    -- sources it reports "gpu" and "nvidia_gpu" exactly when a PCI function is an NVIDIA display
    -- controller or nvidia-smi lists a GPU, "gpu_cuda" exactly when nvidia-smi lists one or the driver's
    -- control node exists, "bluefield_dpu" exactly when a PCI function has the vendor and one of the
    -- three device ids, "doca" exactly when the mst directory or the tool exists, "gpudirect_rdma"
    -- exactly when the peer memory module is loaded and an RDMA device exists, and nothing else. With an
    -- error it reports nothing, so a DOCA tool alone does not count.
    pub collect_gpu_lem :
        (id : Str)
        → (f : ServerFacts Section) × ((collect_gpu has_runner t h id).0 ≡ some f)
          × (((collect_gpu has_runner t h id).1 ≡ none) ↔ (has_source ≡ true))
          × ((c : Str)
              → contains c f.capabilities
                ≡ (has_source && is_gpu_capability c (smi_gpus smi_output) (has_doca_tool t)))
    unfolding collect_gpu
    collect_gpu_lem id = elim (Bool-cases (saw_gpu smi_output h)) [
      | inl e ↦
          rw (e, sym saw_lem ∙ e)
            (
              _,
              refl,
              (λ _. refl, λ _. refl),
              λ c. contains-gpu_capabilities c (smi_gpus smi_output) (has_doca_tool t),
            )
      | inr e ↦
          rw (e, sym saw_lem ∙ e)
            (_, refl, (λ z. ground arith, λ z. ground arith), λ c. unfold observed in refl)
    ]

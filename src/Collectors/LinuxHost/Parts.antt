-- ===== src/Collectors/LinuxHost/Parts.antt =====
-- The three parts of the host collector do not disturb each other.
use rewsr_maxfields.Base.{◌≡◌, ◌↔◌, ◌∙◌, refl, Option, none, some, [], arith, Str, str}
use rewsr_maxfields.Facts.Types.{ServerFacts}
use rewsr_maxfields.Facts.Build.{note_error}
use rewsr_maxfields.Collectors.Host.{Host, Tools, observed}
use rewsr_maxfields.Collectors.Sections.{Section}
use rewsr_maxfields.Collectors.Cpu.{collect_cpu}
use rewsr_maxfields.Collectors.Disk.{collect_disks}
use rewsr_maxfields.Collectors.Nic.{collect_nics}
use rewsr_maxfields.Collectors.LinuxHost.{HostInputs, joined_error, collect_linux_host}

module _ (inputs : HostInputs) (t : Tools) (h : Host) where
  disks_keep :
      (f g : ServerFacts Section)
      → f.disks ≡ g.disks
      → ((collect_disks inputs.lsblk t f).0.cpu ≡ f.cpu)
        × ((collect_disks inputs.lsblk t f).0.disks ≡ (collect_disks inputs.lsblk t g).0.disks)
        × ((collect_disks inputs.lsblk t f).0.nics ≡ f.nics)
        × ((collect_disks inputs.lsblk t f).1 ≡ (collect_disks inputs.lsblk t g).1)
  unfolding collect_disks
  disks_keep f g e = ground (arith, e)

  nics_keep :
      (f g : ServerFacts Section)
      → f.nics ≡ g.nics
      → ((collect_nics inputs.read_link inputs.ip_link t h f).0.cpu ≡ f.cpu)
        × ((collect_nics inputs.read_link inputs.ip_link t h f).0.disks ≡ f.disks)
        × ((collect_nics inputs.read_link inputs.ip_link t h f).0.nics
            ≡ (collect_nics inputs.read_link inputs.ip_link t h g).0.nics)
        × ((collect_nics inputs.read_link inputs.ip_link t h f).1
            ≡ (collect_nics inputs.read_link inputs.ip_link t h g).1)
  unfolding collect_nics
  nics_keep f g e = ground (arith, e)

  cpu_keep :
      (f : ServerFacts Section)
      → ((collect_cpu inputs.lscpu t f).0.disks ≡ f.disks)
        × ((collect_cpu inputs.lscpu t f).0.nics ≡ f.nics)
  unfolding collect_cpu
  cpu_keep f = ground arith

  no_errors :
      (a b c : Option Str)
      → (joined_error (note_error c (note_error b (note_error a []))) ≡ none)
        ↔ ((a ≡ none) × (b ≡ none) × (c ≡ none))
  no_errors a b c = ground arith

  -- The host collector with a runner always returns facts. Their CPU, their disks and their NICs are
  -- each what the part collects on its own, whether or not the other parts fail, and the error is nil
  -- exactly when no part fails.
  pub collect_linux_host_lem :
      (id : Str)
      → let g = observed {V = Section} (str "linux_host") h id in
        let cpu = collect_cpu inputs.lscpu t g in
        let disks = collect_disks inputs.lsblk t g in
        let nics = collect_nics inputs.read_link inputs.ip_link t h g in
        let r = collect_linux_host inputs (some t) h id in
        (f : ServerFacts Section) × (r.0 ≡ some f)
        × (f.cpu ≡ cpu.0.cpu)
        × (f.disks ≡ disks.0.disks)
        × (f.nics ≡ nics.0.nics)
        × ((r.1 ≡ none) ↔ ((cpu.1 ≡ none) × (disks.1 ≡ none) × (nics.1 ≡ none)))
  unfolding collect_linux_host
  collect_linux_host_lem id =
      let g = observed {V = Section} (str "linux_host") h id in
      let with_cpu = (collect_cpu inputs.lscpu t g).0 in
      let with_disks = (collect_disks inputs.lsblk t with_cpu).0 in
      let (cpu_disks, cpu_nics) = cpu_keep g in
      let (disks_cpu, disks_same, disks_nics, disks_error) = disks_keep with_cpu g cpu_disks in
      let (nics_cpu, nics_disks, nics_same, nics_error) =
        nics_keep with_disks g (disks_nics ∙ cpu_nics) in
      (
        _,
        refl,
        nics_cpu ∙ disks_cpu,
        nics_disks ∙ disks_same,
        nics_same,
        rw (disks_error, nics_error) (no_errors _ _ _),
      )

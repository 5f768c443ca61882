-- ===== src/Scan/Report.antt =====
-- `printFactsReport` of cmd/rewsr-maxfields/main.go, as the list of lines that it prints.
use rewsr_maxfields.Base.{
  Bool, true, false, not, ◌||◌, List, [], ◌∷◌, ◌++◌, map, Str, str, is_empty, if◌then◌else◌,
}
use rewsr_maxfields.Base.Int.{is_pos}
use rewsr_maxfields.Text.Split.{join}
use rewsr_maxfields.Text.Sort.{sort}
use rewsr_maxfields.Text.Decimal.{itoa}
use rewsr_maxfields.Facts.Types.{ServerFacts, DiskFacts, NicFacts, Time}

-- `orNA`
unfoldable pub or_na : Str → Str
or_na s = if is_empty s then str "n/a" else s

abbrev lines_if : Bool → List Str → List Str
lines_if true ls = ls
lines_if false ls = []

unfoldable pub disk_line : DiskFacts → Str
disk_line d = join [] (
    str "  Disk     "
    ∷ d.name
    ∷ str "  "
    ∷ or_na d.type
    ∷ str "  "
    ∷ itoa d.size_gb
    ∷ str " GB"
    ∷ [])

unfoldable pub feature_list : List Str → Str
feature_list [] = []
feature_list (f ∷ fs) = join [] (str "  [" ∷ join (str " ") (f ∷ fs) ∷ str "]" ∷ [])

unfoldable pub nic_line : NicFacts → Str
nic_line n = join [] (
    str "  NIC      "
    ∷ n.name
    ∷ str "  "
    ∷ itoa n.speed_gbps
    ∷ str " Gbps  "
    ∷ or_na n.driver
    ∷ feature_list n.features
    ∷ [])

unfoldable pub capability_lines : List Str → List Str
capability_lines [] =
    str "  Capabilities  none detected (this tool targets bare-metal Linux;"
    ∷ str "                run it on the real host to see RDMA, NUMA, GPU, and more)"
    ∷ []
capability_lines (c ∷ cs) = (str "  Capabilities  " ++ join (str "  ") (sort (c ∷ cs))) ∷ []

module _ {V : Type 0} where
  unfoldable pub cpu_line : ServerFacts V → Str
  cpu_line f = join [] (
      str "  CPU      "
      ∷ f.cpu.vendor
      ∷ str " "
      ∷ f.cpu.model
      ∷ str "  "
      ∷ itoa f.cpu.sockets
      ∷ str "S / "
      ∷ itoa f.cpu.cores
      ∷ str "C / "
      ∷ itoa f.cpu.threads
      ∷ str "T"
      ∷ [])

  unfoldable pub had_hardware : ServerFacts V → Bool
  had_hardware f =
      not (is_empty f.cpu.model)
      || is_pos f.cpu.cores
      || is_pos f.memory_gb
      || not (is_empty f.disks)
      || not (is_empty f.nics)

  -- The lines on the hardware.
  unfoldable pub hardware_lines : ServerFacts V → List Str
  hardware_lines f =
      lines_if (not (is_empty f.cpu.model) || is_pos f.cpu.cores) (cpu_line f ∷ [])
      ++ (lines_if (is_pos f.memory_gb)
            (join [] (str "  Memory   " ∷ itoa f.memory_gb ∷ str " GB" ∷ []) ∷ [])
          ++ (map disk_line f.disks ++ map nic_line f.nics))

  unfoldable pub print_facts_report : (Time → Str) → ServerFacts V → List Str
  print_facts_report format f =
      (str "rewsr-maxfields  " ++ f.server_id)
      ∷ join [] (str "  scanned " ∷ format f.observed_at ∷ str "   health=" ∷ or_na f.health ∷ [])
      ∷ (lines_if (had_hardware f) ([] ∷ [])
          ++ (hardware_lines f
              ++ []
                ∷ (capability_lines f.capabilities
                    ++ (lines_if (not (is_empty f.network_modes))
                          ((str "  Network       " ++ join (str "  ") f.network_modes) ∷ [])
                        ++ [] ∷ []))))

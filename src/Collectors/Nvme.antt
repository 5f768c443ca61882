-- ===== src/Collectors/Nvme.antt =====
-- collectors/linux_nvme.go: the NVMe namespaces. The decoding of the JSON that `nvme` prints is a parameter.
use rewsr_maxfields.Base.{
  Option, none, some, List, [], ◌∷◌, ◌++◌, map, Str, str, is_empty, if◌then◌else◌,
}
use rewsr_maxfields.Base.Int.{ℤ, quot_ℤ}
use rewsr_maxfields.Facts.Types.{ServerFacts}
use rewsr_maxfields.Facts.Build.{Result, ok, err}
use rewsr_maxfields.Collectors.Host.{Host, Tools, observed, run_tool}
use rewsr_maxfields.Collectors.Sections.{NvmeDevice, Section, nvme}

-- `nvmeListJSON`
pub record NvmeEntry : Type 0 where
  pub device_path : Str
  pub model_number : Str
  pub firmware : Str
  pub serial_number : Str
  pub physical_size : ℤ

unfoldable pub nvme_device : NvmeEntry → NvmeDevice
nvme_device d = record {
  device_path = d.device_path;
  model = d.model_number;
  firmware = d.firmware;
  serial = d.serial_number;
  size_gb = quot_ℤ d.physical_size 1_000_000_000;
}

unfoldable pub report_nvme :
    Host → Str → Result (List NvmeEntry) → Option (ServerFacts Section) × Option Str
report_nvme h server_id (err e) = (some (observed (str "linux_nvme") h server_id), some e)
report_nvme h server_id (ok entries) =
    let f = observed (str "linux_nvme") h server_id in
    (
      some (
          if is_empty entries
          then f
          else record f { raw = some ((str "nvme", nvme (map nvme_device entries)) ∷ []) }),
      none,
    )

module _ (decode : Str → Result (List NvmeEntry)) where
  unfoldable pub list_nvme : Option Tools → Result (List NvmeEntry)
  list_nvme t =
      elim (run_tool (str "nvme collector") t (str "nvme")
        (str "list" ∷ str "-o" ∷ str "json" ∷ [])) [
          | err e ↦ err e
          | ok out ↦ elim (decode out) [
            | err e ↦ err (str "nvme collector: parsing nvme list: " ++ e)
            | ok entries ↦ ok entries
          ]
        ]

  unfoldable pub collect_nvme :
      Option Tools → Host → Str → Option (ServerFacts Section) × Option Str
  collect_nvme t h server_id = report_nvme h server_id (list_nvme t)

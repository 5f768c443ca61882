-- ===== src/Collectors/Iommu.antt =====
-- collectors/linux_iommu.go: whether the kernel uses an IOMMU.
pub mod Passthrough
use rewsr_maxfields.Base.{
  ℕ, suc, ◌≡◌, ◌≢◌, ◌↔◌, ◌∙◌, refl, ap, Bool, true, false, not, ◌&&◌, ◌||◌, Option, none, some,
  List, [], ◌∷◌, ◌++◌, map, arith, Str, str, ◌==◌, str_eq, is_empty, contains, keep, any, ltb,
  if◌then◌else◌,
}
use rewsr_maxfields.Text.Cut.{has_prefix}
use rewsr_maxfields.Text.Space.{fields}
use rewsr_maxfields.Facts.Types.{ServerFacts}
use rewsr_maxfields.Collectors.Host.{unless_empty, Host, Entry, is_some, observed}
use rewsr_maxfields.Collectors.Sections.{IommuRaw, Section, iommu}

-- `iommuCmdlinePrefixes`
abbrev pub cmdline_prefixes : List Str
cmdline_prefixes =
    str "intel_iommu="
    ∷ str "amd_iommu="
    ∷ str "iommu="
    ∷ str "iommu.passthrough="
    ∷ str "iommu.strict="
    ∷ []

-- The number of directories.
unfoldable pub count_groups : List Entry → ℕ
count_groups [] = 0
count_groups (e ∷ entries) = let n = count_groups entries in if e.is_dir then suc n else n

-- A token once for each prefix that it has.
unfoldable pub flag_token : Str → List Str → List Str → List Str
flag_token tok [] flags = flags
flag_token tok (prefix ∷ prefixes) flags =
    flag_token tok prefixes (if has_prefix tok prefix then flags ++ tok ∷ [] else flags)

-- The loop over the tokens: the flags, and whether one asks for passthrough.
unfoldable pub scan_tokens : List Str → List Str → Bool → List Str × Bool
scan_tokens [] flags passthrough = (flags, passthrough)
scan_tokens (tok ∷ toks) flags passthrough =
    scan_tokens toks (flag_token tok cmdline_prefixes flags)
      (passthrough || tok == str "iommu=pt" || tok == str "iommu.passthrough=1")

-- The file and the directories, where they are readable.
abbrev pub group_dir : Host → Option (List Entry)
group_dir h = h.read_dir (str "sys/kernel/iommu_groups")

abbrev pub unit_dir : Host → Option (List Entry)
unit_dir h = h.read_dir (str "sys/class/iommu")

abbrev pub cmdline_file : Host → Option Str
cmdline_file h = h.read_file (str "proc/cmdline")

unfoldable pub iommu_groups : Host → ℕ
iommu_groups h = elim (group_dir h) [ none ↦ 0 | some entries ↦ count_groups entries ]

unfoldable pub cmdline_scan : Host → List Str × Bool
cmdline_scan h = elim (cmdline_file h) [
  | none ↦ ([], false)
  | some text ↦ scan_tokens (fields text) [] false
]

unfoldable pub iommu_raw : Host → IommuRaw
iommu_raw h = record {
  groups = iommu_groups h;
  units = elim (unit_dir h) [
    | none ↦ none
    | some entries ↦ unless_empty (map (λ e. e.name) entries)
  ];
  cmdline_flags = unless_empty (cmdline_scan h).0;
}

unfoldable pub iommu_capabilities : ℕ → Bool → List Str
iommu_capabilities groups passthrough =
    if ltb 0 groups
    then (if passthrough then str "iommu" ∷ str "iommu_passthrough" ∷ [] else str "iommu" ∷ [])
    else []

unfoldable pub saw_iommu : Host → Bool
saw_iommu h = is_some (group_dir h) || is_some (unit_dir h) || is_some (cmdline_file h)

unfoldable pub collect_iommu : Host → Str → Option (ServerFacts Section) × Option Str
collect_iommu h server_id =
    let f = observed (str "linux_iommu") h server_id in
    if saw_iommu h
    then (
      some (record f {
        capabilities = iommu_capabilities (iommu_groups h) (cmdline_scan h).1;
        raw = some ((str "iommu", iommu (iommu_raw h)) ∷ []);
      }),
      none,
    )
    else (some f, some (str "iommu collector: no IOMMU-related sources readable under " ++ h.root))

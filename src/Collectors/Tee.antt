-- ===== src/Collectors/Tee.antt =====
-- collectors/linux_tee.go: trusted execution of the host.
pub mod Sources
pub mod Capable
use rewsr_maxfields.Base.{
  ◌≡◌, ◌≢◌, ◌↔◌, ◌∙◌, refl, ap, Bool, true, false, not, ◌&&◌, ◌||◌, Option, none, some, List, [],
  ◌∷◌, ◌++◌, map, arith, Str, str, ◌==◌, str_eq, nat_eq, is_empty, contains, keep, IsNodup,
  if◌then◌else◌,
}
use rewsr_maxfields.Base.Dict.{Dict, lookup, insert, at}
use rewsr_maxfields.Text.Cut.{cut}
use rewsr_maxfields.Text.Split.{split}
use rewsr_maxfields.Text.Space.{trim_space, fields}
use rewsr_maxfields.Facts.Types.{ServerFacts}
use rewsr_maxfields.Collectors.Host.{
  unless_empty, Host, is_some, observed, add_cap, contains-add_cap,
}
use rewsr_maxfields.Collectors.Sections.{TeeRaw, Section, tee}

-- The loop over the lines breaks at the first with flags.
unfoldable pub flags_of_lines : List Str → List Str
flags_of_lines [] = []
flags_of_lines (line ∷ lines) =
    let (name, value, found) = cut b':' line in
    let rest = flags_of_lines lines in
    if found && trim_space name == str "flags" then fields value else rest

-- The set of flags, as the list of those that are in it.
unfoldable pub cpuinfo_flag_set : Str → List Str
cpuinfo_flag_set cpuinfo = flags_of_lines (split b'\n' cpuinfo)

unfoldable pub parse_bool_param : Str → Bool
parse_bool_param v = let s = trim_space v in s == str "Y" || s == str "y" || s == str "1"

-- A parameter that is readable is entered.
unfoldable pub read_param : Host → Str → Str → Dict Str Bool → Dict Str Bool
read_param h path p params = elim (h.read_file (path ++ p)) [
  | none ↦ params
  | some v ↦ insert p (parse_bool_param v) params
]

unfoldable pub read_params : Host → Str → List Str → Dict Str Bool → Dict Str Bool
read_params h path [] params = params
read_params h path (p ∷ ps) params = read_params h path ps (read_param h path p params)

unfoldable pub kvm_params : Host → Dict Str Bool
kvm_params h = read_param h (str "sys/module/kvm_intel/parameters/") (str "tdx") (
    read_params h (str "sys/module/kvm_amd/parameters/")
      (str "sev" ∷ str "sev_es" ∷ str "sev_snp" ∷ []) [])

-- The set of devices, as the list of those that are in it.
unfoldable pub devices : Host → List Str
devices h =
    map (λ d. str "/" ++ d)
      (keep h.stat
        (str "dev/sev" ∷ str "dev/sev-guest" ∷ str "dev/tdx_guest" ∷ str "dev/sgx_enclave" ∷ []))

-- A flag without a parameter counts; with one, the parameter decides.
unfoldable pub sev_enabled : List Str → Dict Str Bool → Str → Bool
sev_enabled flags params flag = contains flag flags && at true flag params

-- The capabilities before the summary.
unfoldable pub tee_features : List Str → Dict Str Bool → List Str → List Str
tee_features flags params devices = add_cap (str "sgx") (contains (str "sgx") flags) (
    add_cap (str "tdx")
      (at false (str "tdx") params
        || contains (str "tdx_guest") flags
        || contains (str "/dev/tdx_guest") devices)
      (add_cap (str "sev_snp") (sev_enabled flags params (str "sev_snp")) (
        add_cap (str "sev_es") (sev_enabled flags params (str "sev_es"))
          (add_cap (str "sev") (sev_enabled flags params (str "sev")) []))))

unfoldable pub tee_capabilities : List Str → Dict Str Bool → List Str → List Str
tee_capabilities flags params devices =
    let caps = tee_features flags params devices in
    add_cap (str "tee_capable") (not (is_empty caps)) caps

unfoldable pub tee_raw : List Str → Dict Str Bool → List Str → TeeRaw
tee_raw flags params devices = record {
  cpu_flags =
      if is_empty flags
      then none
      else some (
          keep (λ name. contains name flags)
            (str "sme"
              ∷ str "sev"
              ∷ str "sev_es"
              ∷ str "sev_snp"
              ∷ str "tdx_guest"
              ∷ str "sgx"
              ∷ str "sgx_lc"
              ∷ []));
  kvm_params = unless_empty params;
  devices = unless_empty devices;
}

-- `flags` where /proc/cpuinfo is readable.
unfoldable pub cpu_flags : Host → List Str
cpu_flags h = elim (h.read_file (str "proc/cpuinfo")) [
  | none ↦ []
  | some data_ ↦ cpuinfo_flag_set data_
]

-- A readable parameter and a device that is there make an entry each.
unfoldable pub saw_tee : Host → Bool
saw_tee h =
    is_some (h.read_file (str "proc/cpuinfo"))
    || not (is_empty (kvm_params h))
    || not (is_empty (devices h))

unfoldable pub collect_tee : Host → Str → Option (ServerFacts Section) × Option Str
collect_tee h server_id =
    let f = observed (str "linux_tee") h server_id in
    if saw_tee h
    then (
      some (record f {
        capabilities = tee_capabilities (cpu_flags h) (kvm_params h) (devices h);
        raw = some ((str "tee", tee (tee_raw (cpu_flags h) (kvm_params h) (devices h))) ∷ []);
      }),
      none,
    )
    else (some f, some (str "tee collector: no TEE-related sources readable under " ++ h.root))

-- ===== src/Collectors/Kernel.antt =====
-- collectors/linux_kernel.go: release, command line, modules and sysctls of the kernel.
pub mod Vfio
use rewsr_maxfields.Base.{
  ◌≡◌, ◌≢◌, ◌↔◌, ◌∙◌, refl, ap, Bool, true, false, not, ◌&&◌, ◌||◌, Option, none, some, List, [],
  ◌∷◌, ◌++◌, map, arith, Str, str, ◌==◌, str_eq, nat_eq, is_empty, contains, any, keep,
  if◌then◌else◌,
}
use rewsr_maxfields.Base.Dict.{Dict, insert}
use rewsr_maxfields.Text.Cut.{cut}
use rewsr_maxfields.Text.Split.{split}
use rewsr_maxfields.Text.Space.{trim_space}
use rewsr_maxfields.Facts.Types.{ServerFacts}
use rewsr_maxfields.Collectors.Host.{unless_empty, Host, is_some, observed}
use rewsr_maxfields.Collectors.Sections.{KernelRaw, Section, kernel}

-- `interestingModules`
unfoldable pub interesting_modules : List Str
interesting_modules =
    str "vfio"
    ∷ str "vfio_pci"
    ∷ str "ib_core"
    ∷ str "ib_uverbs"
    ∷ str "rdma_ucm"
    ∷ str "mlx5_core"
    ∷ str "mlx5_ib"
    ∷ str "kvm_amd"
    ∷ str "kvm_intel"
    ∷ str "bonding"
    ∷ str "openvswitch"
    ∷ str "wireguard"
    ∷ []

-- `interestingSysctls`
unfoldable pub interesting_sysctls : List Str
interesting_sysctls =
    str "net/core/busy_poll"
    ∷ str "net/core/busy_read"
    ∷ str "net/core/rmem_max"
    ∷ str "net/core/wmem_max"
    ∷ str "net/core/netdev_max_backlog"
    ∷ []

-- The set of names before the first space of a line, as a list.
unfoldable pub module_names : List Str → List Str
module_names [] = []
module_names (line ∷ lines) =
    let (name, _, found) = cut b' ' line in
    let rest = module_names lines in if found && not (is_empty name) then name ∷ rest else rest

unfoldable pub parse_loaded_modules : Str → List Str
parse_loaded_modules text = module_names (split b'\n' text)

-- The modules worth reporting that are loaded.
unfoldable pub present_modules : Str → List Str
present_modules text =
    let loaded = parse_loaded_modules text in keep (λ m. contains m loaded) interesting_modules

unfoldable pub kernel_modules : Host → Option (List Str)
kernel_modules h = elim (h.read_file (str "proc/modules")) [
  | none ↦ none
  | some text ↦ unless_empty (present_modules text)
]

-- `strings.ReplaceAll(s, "/", ".")`
unfoldable pub dotted : Str → Str
unfolding nat_eq
dotted s = map (λ c. if c == b'/' then b'.' else c) s

unfoldable pub read_sysctls : Host → List Str → Dict Str Str → Dict Str Str
read_sysctls h [] sysctls = sysctls
read_sysctls h (s ∷ ss) sysctls = read_sysctls h ss (elim (h.read_file (str "proc/sys/" ++ s)) [
  | none ↦ sysctls
  | some data_ ↦ insert (dotted s) (trim_space data_) sysctls
])

abbrev trimmed : Option Str → Option Str
trimmed none = none
trimmed (some text) = some (trim_space text)

unfoldable pub kernel_raw : Host → KernelRaw
kernel_raw h = record {
  release = trimmed (h.runs (str "uname") (str "-r" ∷ []));
  cmdline = trimmed (h.read_file (str "proc/cmdline"));
  modules = kernel_modules h;
  sysctls = unless_empty (read_sysctls h interesting_sysctls []);
}

unfoldable pub saw_kernel : Host → Bool
saw_kernel h =
    is_some (h.runs (str "uname") (str "-r" ∷ []))
    || is_some (h.read_file (str "proc/cmdline"))
    || is_some (h.read_file (str "proc/modules"))
    || not (is_empty (read_sysctls h interesting_sysctls []))

-- The loop over the reported modules breaks at "vfio_pci".
unfoldable pub vfio_capabilities : List Str → List Str
vfio_capabilities [] = []
vfio_capabilities (m ∷ ms) =
    let rest = vfio_capabilities ms in if m == str "vfio_pci" then str "vfio" ∷ [] else rest

unfoldable pub kernel_capabilities : Option (List Str) → List Str
kernel_capabilities none = []
kernel_capabilities (some ms) = vfio_capabilities ms

unfoldable pub collect_kernel : Host → Str → Option (ServerFacts Section) × Option Str
collect_kernel h server_id =
    let f = observed (str "linux_kernel") h server_id in
    if saw_kernel h
    then (
      some (record f {
        capabilities = kernel_capabilities (kernel_modules h);
        raw = some ((str "kernel", kernel (kernel_raw h)) ∷ []);
      }),
      none,
    )
    else (some f, some (str "kernel collector: no kernel sources readable under " ++ h.root))

-- ===== src/Collectors/Kernel/Vfio.antt =====
-- What the kernel collector reports of the loaded modules.
use rewsr_maxfields.Base.{
  ◌≡◌, ◌↔◌, ◌∙◌, refl, ap, sym, Bool, true, false, not, ◌&&◌, Option, none, some, List, [], ◌∷◌,
  arith, Str, str, ◌==◌, str_eq, is_empty, contains, any, keep, Bool-cases, inl, inr,
}
use rewsr_maxfields.Text.Cut.{cut}
use rewsr_maxfields.Text.Split.{split}
use rewsr_maxfields.Facts.Types.{ServerFacts}
use rewsr_maxfields.Collectors.Host.{unless_empty, Host, observed}
use rewsr_maxfields.Collectors.Sections.{Section}
use rewsr_maxfields.Collectors.Kernel.{
  interesting_modules, module_names, parse_loaded_modules, present_modules, kernel_modules,
  saw_kernel, vfio_capabilities, kernel_capabilities, collect_kernel,
}

-- A line of /proc/modules that is of the module.
abbrev pub is_module_line : Str → Str → Bool
is_module_line m line =
    let (name, _, found) = cut b' ' line in found && not (is_empty name) && m == name

contains-module_names :
    (m : Str) (lines : List Str) → contains m (module_names lines) ≡ any (is_module_line m) lines
unfolding module_names
contains-module_names m [] = refl
contains-module_names m (line ∷ lines) = ground (arith, contains-module_names m lines)

-- The module stands in the text of /proc/modules.
abbrev pub is_loaded : Str → Str → Bool
is_loaded m text = any (is_module_line m) (split b'\n' text)

contains-keep :
    (p : Str → Bool) (a : Str) (xs : List Str) → contains a (keep p xs) ≡ (contains a xs && p a)
contains-keep p a [] = refl
contains-keep p a (x ∷ xs) = ground (arith, contains-keep p a xs)

vfio_pci_listed : contains (str "vfio_pci") interesting_modules ≡ true
unfolding interesting_modules str str_eq
vfio_pci_listed = refl

keep-ext : (p q : Str → Bool) → ((a : Str) → p a ≡ q a) → (xs : List Str) → keep p xs ≡ keep q xs
keep-ext p q same [] = refl
keep-ext p q same (x ∷ xs) = ground (arith, same x, keep-ext p q same xs)

contains-vfio_capabilities :
    (c : Str) (ms : List Str)
    → contains c (vfio_capabilities ms) ≡ (c == str "vfio" && contains (str "vfio_pci") ms)
unfolding vfio_capabilities
contains-vfio_capabilities c [] = ground arith
contains-vfio_capabilities c (m ∷ ms) = ground (arith, contains-vfio_capabilities c ms)

-- What the collector lists of /proc/modules.
abbrev pub listed : Option (List Str) → List Str
listed none = []
listed (some ms) = ms

abbrev pub modules_text : Host → Option Str
modules_text h = h.read_file (str "proc/modules")

abbrev pub loaded_on : Host → Str → Bool
loaded_on h m = elim (modules_text h) [ none ↦ false | some text ↦ is_loaded m text ]

keep-none : (xs : List Str) → keep (λ m. false) xs ≡ []
keep-none [] = refl
keep-none (x ∷ xs) = keep-none xs

listed-unless_empty : (ms : List Str) → listed (unless_empty ms) ≡ ms
listed-unless_empty [] = refl
listed-unless_empty (m ∷ ms) = refl

kernel_modules_lem : (h : Host) → listed (kernel_modules h) ≡ keep (loaded_on h) interesting_modules
unfolding kernel_modules present_modules parse_loaded_modules
kernel_modules_lem h = go (modules_text h)
  where
    go :
        (text : Option Str)
        → listed (elim text [ none ↦ none | some text ↦ unless_empty (present_modules text) ])
          ≡ keep
              (λ m. elim text [ none ↦ false | some text ↦ is_loaded m text ])
              interesting_modules
    go none = sym (keep-none interesting_modules)
    go (some text) =
        listed-unless_empty (present_modules text)
        ∙ keep-ext _ _ (λ m. contains-module_names m (split b'\n' text)) interesting_modules

contains-kernel_capabilities :
    (c : Str) (ms : Option (List Str))
    → contains c (kernel_capabilities ms)
      ≡ (c == str "vfio" && contains (str "vfio_pci") (listed ms))
unfolding kernel_capabilities
contains-kernel_capabilities c none = ground arith
contains-kernel_capabilities c (some ms) = contains-vfio_capabilities c ms

has_vfio :
    (h : Host)
    → contains (str "vfio_pci") (listed (kernel_modules h)) ≡ loaded_on h (str "vfio_pci")
has_vfio h =
    ap (contains (str "vfio_pci")) (kernel_modules_lem h)
    ∙ contains-keep (loaded_on h) (str "vfio_pci") interesting_modules
    ∙ ap (λ b. b && loaded_on h (str "vfio_pci")) vfio_pci_listed

unseen_modules : (h : Host) → saw_kernel h ≡ false → loaded_on h (str "vfio_pci") ≡ false
unfolding saw_kernel
unseen_modules h e = ground (arith, e)

-- The kernel collector always returns facts, with an error exactly when it could read nothing. The
-- modules that it lists are those of its list that /proc/modules has a line of, in the order of its
-- list, and it reports the capability "vfio", and no other, exactly when the module vfio_pci is loaded.
pub collect_kernel_lem :
    (h : Host) (id : Str)
    → (f : ServerFacts Section) × ((collect_kernel h id).0 ≡ some f)
      × (((collect_kernel h id).1 ≡ none) ↔ (saw_kernel h ≡ true))
      × ((c : Str) → contains c f.capabilities ≡ (c == str "vfio" && loaded_on h (str "vfio_pci")))
      × (listed (kernel_modules h) ≡ keep (loaded_on h) interesting_modules)
unfolding collect_kernel
collect_kernel_lem h id = elim (Bool-cases (saw_kernel h)) [
  | inl e ↦ rw e (
    _,
    refl,
    (λ _. refl, λ _. refl),
    λ c.
        contains-kernel_capabilities c (kernel_modules h)
        ∙ ap (λ b. c == str "vfio" && b) (has_vfio h),
    kernel_modules_lem h,
  )
  | inr e ↦ rw e (
    _,
    refl,
    (λ z. ground arith, λ z. ground arith),
    λ c. unfold observed in nothing c (unseen_modules h e),
    kernel_modules_lem h,
  )
]
  where
    nothing :
        (c : Str)
        → loaded_on h (str "vfio_pci") ≡ false
        → false ≡ (c == str "vfio" && loaded_on h (str "vfio_pci"))
    nothing c e = ground (arith, e)

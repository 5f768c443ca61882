-- ===== src/Collectors/Tee/Sources.antt =====
-- What the TEE collector reads of a host, by files and devices.
use rewsr_maxfields.Base.{
  ◌≡◌, ◌∙◌, refl, Bool, true, false, not, ◌&&◌, ◌||◌, none, some, List, [], ◌∷◌, ◌++◌, ==_refl, ap,
  Option, if◌then◌else◌, arith, Str, str, ◌==◌, str_eq, is_empty, contains,
}
use rewsr_maxfields.Base.Dict.{Dict, at, lookup, insert, lookup-insert, lookup-nil}
use rewsr_maxfields.Text.Space.{trim_space}
use rewsr_maxfields.Collectors.Host.{Host}
use rewsr_maxfields.Collectors.Tee.{
  sev_enabled, cpu_flags, kvm_params, devices, saw_tee, read_param, read_params, parse_bool_param,
  kvm_params, devices,
}

-- TDX in any of three places.
abbrev pub has_tdx : List Str → Dict Str Bool → List Str → Bool
has_tdx flags params devices =
    at false (str "tdx") params
    || contains (str "tdx_guest") flags
    || contains (str "/dev/tdx_guest") devices

-- The names of the capabilities differ.
pub names_differ :
    ((str "sev_es" == str "sev") ≡ false)
    × ((str "sev_snp" == str "sev") ≡ false)
    × ((str "sev_snp" == str "sev_es") ≡ false)
    × ((str "tdx" == str "sev") ≡ false)
    × ((str "tdx" == str "sev_es") ≡ false)
    × ((str "tdx" == str "sev_snp") ≡ false)
    × ((str "sgx" == str "sev") ≡ false)
    × ((str "sgx" == str "sev_es") ≡ false)
    × ((str "sgx" == str "sev_snp") ≡ false)
    × ((str "sgx" == str "tdx") ≡ false)
    × ((str "tee_capable" == str "sev") ≡ false)
    × ((str "tee_capable" == str "sev_es") ≡ false)
    × ((str "tee_capable" == str "sev_snp") ≡ false)
    × ((str "tee_capable" == str "tdx") ≡ false)
    × ((str "tee_capable" == str "sgx") ≡ false)
unfolding str str_eq
names_differ =
    (refl, refl, refl, refl, refl, refl, refl, refl, refl, refl, refl, refl, refl, refl, refl)

abbrev readable : Option Str → Bool
readable none = false
readable (some text) = true

-- The text of a parameter that is on.
abbrev is_on : Str → Bool
is_on text = trim_space text == str "Y" || trim_space text == str "y" || trim_space text == str "1"

abbrev pub amd_param : Host → Str → Option Str
amd_param h p = h.read_file (str "sys/module/kvm_amd/parameters/" ++ p)

abbrev pub intel_param : Host → Option Str
intel_param h = h.read_file (str "sys/module/kvm_intel/parameters/" ++ str "tdx")

-- The flag of the CPU, and the parameter where it is readable.
abbrev pub sev_on : Host → Str → Bool
sev_on h p = contains p (cpu_flags h) && (elim (amd_param h p) [ none ↦ true | some v ↦ is_on v ])

abbrev pub tdx_on : Host → Bool
tdx_on h =
    (elim (intel_param h) [ none ↦ false | some v ↦ is_on v ])
    || contains (str "tdx_guest") (cpu_flags h)
    || h.stat (str "dev/tdx_guest")

-- What each capability means on a host.
abbrev pub tee_of : Host → Str → Bool
tee_of h c =
    let sgx = contains (str "sgx") (cpu_flags h) in
    c == str "sev" && sev_on h (str "sev")
    || c == str "sev_es" && sev_on h (str "sev_es")
    || c == str "sev_snp" && sev_on h (str "sev_snp")
    || c == str "tdx" && tdx_on h
    || c == str "sgx" && sgx
    || c == str "tee_capable"
      && (sev_on h (str "sev")
          || sev_on h (str "sev_es")
          || sev_on h (str "sev_snp")
          || tdx_on h
          || sgx)

-- Something of the host can be read.
abbrev pub has_source : Host → Bool
has_source h =
    readable (h.read_file (str "proc/cpuinfo"))
    || readable (amd_param h (str "sev"))
    || readable (amd_param h (str "sev_es"))
    || readable (amd_param h (str "sev_snp"))
    || readable (intel_param h)
    || h.stat (str "dev/sev")
    || h.stat (str "dev/sev-guest")
    || h.stat (str "dev/tdx_guest")
    || h.stat (str "dev/sgx_enclave")

-- The parameters and the devices have different names.
params_differ :
    ((str "sev" == str "tdx") ≡ false)
    × ((str "sev" == str "sev_snp") ≡ false)
    × ((str "sev" == str "sev_es") ≡ false)
    × ((str "sev_es" == str "tdx") ≡ false)
    × ((str "sev_es" == str "sev_snp") ≡ false)
    × ((str "sev_es" == str "sev") ≡ false)
    × ((str "sev_snp" == str "tdx") ≡ false)
    × ((str "sev_snp" == str "sev_es") ≡ false)
    × ((str "sev_snp" == str "sev") ≡ false)
unfolding str str_eq
params_differ = (refl, refl, refl, refl, refl, refl, refl, refl, refl)

devices_differ :
    ((str "/dev/tdx_guest" == str "/" ++ str "dev/sev") ≡ false)
    × ((str "/dev/tdx_guest" == str "/" ++ str "dev/sev-guest") ≡ false)
    × ((str "/dev/tdx_guest" == str "/" ++ str "dev/tdx_guest") ≡ true)
    × ((str "/dev/tdx_guest" == str "/" ++ str "dev/sgx_enclave") ≡ false)
unfolding str str_eq
devices_differ = (refl, refl, refl, refl)

insert_full : (k : Str) (v : Bool) (d : Dict Str Bool) → is_empty (insert k v d) ≡ false
unfolding insert
insert_full k v [] = refl
insert_full k v ((j, w) ∷ d) = ground arith

abbrev pick : Str → Str → Option Str → Option Bool → Option Bool
pick k p none rest = rest
pick k p (some v) rest = if k == p then some (is_on v) else rest

pick_other :
    (k p : Str) (o : Option Str) (rest : Option Bool) → (k == p) ≡ false → pick k p o rest ≡ rest
pick_other k p none rest e = refl
pick_other k p (some v) rest e = rw e refl

-- The value of a parameter, or a default.
pick_same :
    (d : Bool) (k : Str) (o : Option Str)
    → (elim (pick k k o none) [ none ↦ d | some v ↦ v ]) ≡ (elim o [ none ↦ d | some v ↦ is_on v ])
pick_same d k none = refl
pick_same d k (some v) = rw (==_refl k) refl

module _ (h : Host) where
  is_empty-read_param :
      (path p : Str) (d : Dict Str Bool)
      → is_empty (read_param h path p d) ≡ (is_empty d && not (readable (h.read_file (path ++ p))))
  unfolding read_param
  is_empty-read_param path p d = go (h.read_file (path ++ p))
    where
      go :
          (o : Option Str)
          → is_empty (elim o [ none ↦ d | some v ↦ insert p (parse_bool_param v) d ])
            ≡ (is_empty d && not (readable o))
      go none = ground arith
      go (some v) = ground (arith, insert_full p (parse_bool_param v) d)

  lookup-read_param :
      (k path p : Str) (d : Dict Str Bool)
      → lookup k (read_param h path p d) ≡ pick k p (h.read_file (path ++ p)) (lookup k d)
  unfolding read_param parse_bool_param
  lookup-read_param k path p d = go (h.read_file (path ++ p))
    where
      go :
          (o : Option Str)
          → lookup k (elim o [ none ↦ d | some v ↦ insert p (parse_bool_param v) d ])
            ≡ pick k p o (lookup k d)
      go none = refl
      go (some v) = lookup-insert k p (is_on v) d

  -- The entry of a parameter, the last that is read first.
  kvm_lem :
      (k : Str)
      → lookup k (kvm_params h)
        ≡ pick k (str "tdx") (intel_param h) (
            pick k (str "sev_snp") (amd_param h (str "sev_snp")) (
              pick k
                (str "sev_es")
                (amd_param h (str "sev_es"))
                (pick k (str "sev") (amd_param h (str "sev")) none)))
  unfolding kvm_params read_params
  kvm_lem k =
      lookup-read_param k _ (str "tdx") _
      ∙ ap (pick k (str "tdx") (intel_param h)) (
          lookup-read_param k _ (str "sev_snp") _
          ∙ ap (pick k (str "sev_snp") (amd_param h (str "sev_snp"))) (
              lookup-read_param k _ (str "sev_es") _
              ∙ ap (pick k (str "sev_es") (amd_param h (str "sev_es"))) (
                  lookup-read_param k _ (str "sev") _
                  ∙ ap (pick k (str "sev") (amd_param h (str "sev"))) (lookup-nil k))))

  at_kvm :
      (d : Bool) (k : Str) (o : Option Str)
      → lookup k (kvm_params h) ≡ pick k k o none
      → at d k (kvm_params h) ≡ (elim o [ none ↦ d | some v ↦ is_on v ])
  at_kvm d k o e = ap (λ x. elim x [ none ↦ d | some v ↦ v ]) e ∙ pick_same d k o

  pub sev_lem :
      (sev_enabled (cpu_flags h) (kvm_params h) (str "sev") ≡ sev_on h (str "sev"))
      × (sev_enabled (cpu_flags h) (kvm_params h) (str "sev_es") ≡ sev_on h (str "sev_es"))
      × (sev_enabled (cpu_flags h) (kvm_params h) (str "sev_snp") ≡ sev_on h (str "sev_snp"))
  unfolding sev_enabled
  sev_lem =
      let (a, b, c, d, e, f, g, i, j) = params_differ in
      (
        ap (λ on. contains (str "sev") (cpu_flags h) && on)
            (at_kvm true _ _ (kvm_lem _ ∙ simp (pick_other, a, b, c))),
        ap (λ on. contains (str "sev_es") (cpu_flags h) && on)
            (at_kvm true _ _ (kvm_lem _ ∙ simp (pick_other, d, e, f))),
        ap (λ on. contains (str "sev_snp") (cpu_flags h) && on)
            (at_kvm true _ _ (kvm_lem _ ∙ simp (pick_other, g, i, j))),
      )

  tdx_device : contains (str "/dev/tdx_guest") (devices h) ≡ h.stat (str "dev/tdx_guest")
  unfolding devices
  tdx_device = ground (arith, devices_differ)

  pub tdx_lem : has_tdx (cpu_flags h) (kvm_params h) (devices h) ≡ tdx_on h
  tdx_lem =
      let (_, _, _, a, b, c, _, _, _, _, _, _, _, _, _) = names_differ in
      let value =
        at_kvm false (str "tdx") (intel_param h) (kvm_lem _ ∙ simp (pick_other, a, b, c)) in
      ground (arith, value, tdx_device)

  some_device : not (is_empty (devices h)) ≡ (
      h.stat (str "dev/sev")
      || h.stat (str "dev/sev-guest")
      || h.stat (str "dev/tdx_guest")
      || h.stat (str "dev/sgx_enclave"))
  unfolding devices
  some_device = ground arith

  some_param : not (is_empty (kvm_params h)) ≡ (
      readable (amd_param h (str "sev"))
      || readable (amd_param h (str "sev_es"))
      || readable (amd_param h (str "sev_snp"))
      || readable (intel_param h))
  unfolding kvm_params read_params
  some_param = simp is_empty-read_param (ground arith)

  pub saw_lem : saw_tee h ≡ has_source h
  unfolding saw_tee
  saw_lem = ground (arith, some_param, some_device)

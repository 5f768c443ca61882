-- ===== src/Collectors/Tee/Capable.antt =====
-- Which capabilities the TEE collector reports.
use rewsr_maxfields.Base.{
  ◌≡◌, ◌↔◌, ◌∙◌, sym, refl, Bool, true, false, not, ◌&&◌, ◌||◌, none, some, List, [], ◌∷◌, arith,
  Str, str, ◌==◌, str_eq, is_empty, contains, IsNodup, IsNodup-concat, Bool-cases, inl, inr,
}
use rewsr_maxfields.Base.Dict.{Dict}
use rewsr_maxfields.Facts.Types.{ServerFacts}
use rewsr_maxfields.Collectors.Host.{Host, add_cap, contains-add_cap, observed}
use rewsr_maxfields.Collectors.Sections.{Section}
use rewsr_maxfields.Collectors.Tee.Sources.{
  has_tdx, names_differ, sev_lem, tdx_lem, saw_lem, has_source, tee_of,
}
use rewsr_maxfields.Collectors.Tee.{
  sev_enabled, tee_features, tee_capabilities, cpu_flags, kvm_params, devices, saw_tee, collect_tee,
  kvm_params, devices,
}

-- Some trusted execution is there.
abbrev pub has_tee : List Str → Dict Str Bool → List Str → Bool
has_tee flags params devices =
    sev_enabled flags params (str "sev")
    || sev_enabled flags params (str "sev_es")
    || sev_enabled flags params (str "sev_snp")
    || has_tdx flags params devices
    || contains (str "sgx") flags

-- What each capability means.
abbrev pub is_tee_capability : Str → List Str → Dict Str Bool → List Str → Bool
is_tee_capability c flags params devices =
    c == str "sev" && sev_enabled flags params (str "sev")
    || c == str "sev_es" && sev_enabled flags params (str "sev_es")
    || c == str "sev_snp" && sev_enabled flags params (str "sev_snp")
    || c == str "tdx" && has_tdx flags params devices
    || c == str "sgx" && contains (str "sgx") flags
    || c == str "tee_capable" && has_tee flags params devices

is_empty-add_cap :
    (name : Str) (present : Bool) (caps : List Str)
    → is_empty (add_cap name present caps) ≡ (is_empty caps && not present)
unfolding add_cap
is_empty-add_cap name true [] = refl
is_empty-add_cap name true (c ∷ caps) = refl
is_empty-add_cap name false [] = refl
is_empty-add_cap name false (c ∷ caps) = refl

add_cap-IsNodup :
    (name : Str) (present : Bool) (caps : List Str)
    → contains name caps ≡ false
    → IsNodup caps
    → IsNodup (add_cap name present caps)
unfolding add_cap
add_cap-IsNodup name true caps fresh u = IsNodup-concat name caps fresh u
add_cap-IsNodup name false caps fresh u = u

module _ (flags : List Str) (params : Dict Str Bool) (devices : List Str) where
  contains-tee_features :
      (c : Str)
      → contains c (tee_features flags params devices) ≡ (
          c == str "sev" && sev_enabled flags params (str "sev")
          || c == str "sev_es" && sev_enabled flags params (str "sev_es")
          || c == str "sev_snp" && sev_enabled flags params (str "sev_snp")
          || c == str "tdx" && has_tdx flags params devices
          || c == str "sgx" && contains (str "sgx") flags)
  unfolding tee_features
  contains-tee_features c = simp contains-add_cap

  some_feature : not (is_empty (tee_features flags params devices)) ≡ has_tee flags params devices
  unfolding tee_features
  some_feature = simp is_empty-add_cap (ground arith)

  contains-tee_capabilities :
      (c : Str)
      → contains c (tee_capabilities flags params devices)
        ≡ is_tee_capability c flags params devices
  unfolding tee_capabilities
  contains-tee_capabilities c =
      contains-add_cap c (str "tee_capable") _ (tee_features flags params devices)
      ∙ rw (contains-tee_features c, some_feature)

  tee_features-IsNodup : IsNodup (tee_features flags params devices)
  unfolding tee_features
  tee_features-IsNodup =
      let (a, b, c, d, e, f, g, h, i, j, _, _, _, _, _) = names_differ in
      add_cap-IsNodup _ _ _ (simp (contains-add_cap, g, h, i, j)) (
        add_cap-IsNodup _ _ _ (simp (contains-add_cap, d, e, f)) (
          add_cap-IsNodup _ _ _ (simp (contains-add_cap, b, c))
            (add_cap-IsNodup _ _ _ (simp (contains-add_cap, a)) (add_cap-IsNodup _ _ _ refl tt))))

  tee_capabilities-IsNodup : IsNodup (tee_capabilities flags params devices)
  unfolding tee_capabilities
  tee_capabilities-IsNodup =
      let (_, _, _, _, _, _, _, _, _, _, a, b, c, d, e) = names_differ in
      add_cap-IsNodup _ _ _ (contains-tee_features (str "tee_capable") ∙ simp (a, b, c, d, e))
        tee_features-IsNodup

tee_of_lem :
    (h : Host) (c : Str) → is_tee_capability c (cpu_flags h) (kvm_params h) (devices h) ≡ tee_of h c
tee_of_lem h c =
    let (sev, sev_es, sev_snp) = sev_lem h in ground (arith, sev, sev_es, sev_snp, tdx_lem h)

-- The TEE collector always returns facts, with an error exactly when it can read neither /proc/cpuinfo nor
-- a parameter of the kernel and sees no device. Then it reports no capability. Otherwise it reports, each
-- once: a generation of SEV exactly when the CPU has its flag and its kernel parameter, where it is
-- readable, is on; "tdx" when the parameter, the flag or the device says so; "sgx" when the flag does; and
-- "tee_capable" exactly when one of these is reported.
pub collect_tee_lem :
    (h : Host) (id : Str)
    → (f : ServerFacts Section) × ((collect_tee h id).0 ≡ some f)
      × (((collect_tee h id).1 ≡ none) ↔ (has_source h ≡ true))
      × ((c : Str) → contains c f.capabilities ≡ (has_source h && tee_of h c))
      × IsNodup f.capabilities
unfolding collect_tee
collect_tee_lem h id = elim (Bool-cases (saw_tee h)) [
  | inl e ↦
      let source : has_source h ≡ true = sym (saw_lem h) ∙ e in
      rw (e, source)
        (
          _,
          refl,
          (λ _. refl, λ _. refl),
          (λ c.
              contains-tee_capabilities (cpu_flags h) (kvm_params h) (devices h) c
              ∙ tee_of_lem h c),
          tee_capabilities-IsNodup (cpu_flags h) (kvm_params h) (devices h),
        )
  | inr e ↦
      let source : has_source h ≡ false = sym (saw_lem h) ∙ e in
      rw (e, source)
        (
          _,
          refl,
          (λ z. ground arith, λ z. ground arith),
          (λ c. unfold observed in refl),
          unfold observed in tt,
        )
]

-- ===== src/Collectors/Iommu/Passthrough.antt =====
-- Which capabilities and flags the IOMMU collector reports.
use rewsr_maxfields.Base.{
  ℕ, ◌≡◌, ◌↔◌, ◌∙◌, refl, ap, sym, Bool, true, false, ◌&&◌, ◌||◌, Option, none, some, List, [], ◌∷◌,
  ◌++◌, arith, append-nil, append_assoc, Str, str, ◌==◌, str_eq, contains, any, keep, ltb,
  Bool-cases, Option-cases, inl, inr, if◌then◌else◌,
}
use rewsr_maxfields.Text.Cut.{has_prefix, after_prefix, after_prefix_lem}
use rewsr_maxfields.Text.Space.{fields}
use rewsr_maxfields.Facts.Types.{ServerFacts}
use rewsr_maxfields.Collectors.Host.{Host, is_some, observed}
use rewsr_maxfields.Collectors.Sections.{Section}
use rewsr_maxfields.Collectors.Iommu.{
  cmdline_prefixes, flag_token, scan_tokens, iommu_groups, cmdline_scan, iommu_capabilities,
  saw_iommu, collect_iommu, cmdline_file,
}

abbrev pub is_iommu_flag : Str → Bool
is_iommu_flag tok = any (has_prefix tok) cmdline_prefixes

abbrev pub asks_passthrough : Str → Bool
asks_passthrough tok = tok == str "iommu=pt" || tok == str "iommu.passthrough=1"

has_prefix_lem : (s p : Str) → has_prefix s p ≡ true → (r : Str) × (s ≡ p ++ r)
unfolding has_prefix
has_prefix_lem s p h = elim (Option-cases (after_prefix s p)) [
  | inl e ↦ ground (arith, e)
  | inr (r, e) ↦ (r, after_prefix_lem s p e)
]

-- No token has two of the prefixes.
two_prefixes :
    (s p q : Str)
    → ((r t : Str) → p ++ r ≡ q ++ t → ⊥)
    → has_prefix s p ≡ true
    → has_prefix s q ≡ false
two_prefixes s p q apart h = elim (Bool-cases (has_prefix s q)) [
  | inr e ↦ e
  | inl e ↦
      let (r, hr) = has_prefix_lem s p h in
      let (t, ht) = has_prefix_lem s q e in absurd (apart r t (sym hr ∙ ht))
]

module _ (s : Str) where
  exclusive :
      (has_prefix s (str "intel_iommu=") ≡ true → has_prefix s (str "amd_iommu=") ≡ false)
      × (has_prefix s (str "intel_iommu=") ≡ true → has_prefix s (str "iommu=") ≡ false)
      × (has_prefix s (str "intel_iommu=") ≡ true → has_prefix s (str "iommu.passthrough=") ≡ false)
      × (has_prefix s (str "intel_iommu=") ≡ true → has_prefix s (str "iommu.strict=") ≡ false)
      × (has_prefix s (str "amd_iommu=") ≡ true → has_prefix s (str "iommu=") ≡ false)
      × (has_prefix s (str "amd_iommu=") ≡ true → has_prefix s (str "iommu.passthrough=") ≡ false)
      × (has_prefix s (str "amd_iommu=") ≡ true → has_prefix s (str "iommu.strict=") ≡ false)
      × (has_prefix s (str "iommu=") ≡ true → has_prefix s (str "iommu.passthrough=") ≡ false)
      × (has_prefix s (str "iommu=") ≡ true → has_prefix s (str "iommu.strict=") ≡ false)
      × (has_prefix s (str "iommu.passthrough=") ≡ true
          → has_prefix s (str "iommu.strict=") ≡ false)
  unfolding str
  exclusive = (
    two_prefixes s _ _ (λ r t e. ground arith),
    two_prefixes s _ _ (λ r t e. ground arith),
    two_prefixes s _ _ (λ r t e. ground arith),
    two_prefixes s _ _ (λ r t e. ground arith),
    two_prefixes s _ _ (λ r t e. ground arith),
    two_prefixes s _ _ (λ r t e. ground arith),
    two_prefixes s _ _ (λ r t e. ground arith),
    two_prefixes s _ _ (λ r t e. ground arith),
    two_prefixes s _ _ (λ r t e. ground arith),
    two_prefixes s _ _ (λ r t e. ground arith),
  )

  -- So a token is added at most once.
  flag_token_once :
      (flags : List Str)
      → flag_token s cmdline_prefixes flags ≡ (if is_iommu_flag s then flags ++ s ∷ [] else flags)
  unfolding flag_token
  flag_token_once flags = ground (arith, exclusive)

or_assoc : (p a b c : Bool) → (p || a || b || c) ≡ (p || (a || b || c))
or_assoc true a b c = refl
or_assoc false a b c = refl

flag_token-append :
    (tok : Str) (toks flags : List Str)
    → flag_token tok cmdline_prefixes flags ++ keep is_iommu_flag toks
      ≡ flags ++ keep is_iommu_flag (tok ∷ toks)
flag_token-append tok toks flags =
    ap (λ l. l ++ keep is_iommu_flag toks) (flag_token_once tok flags) ∙ go (is_iommu_flag tok)
  where
    go :
        (b : Bool)
        → (if b then flags ++ tok ∷ [] else flags) ++ keep is_iommu_flag toks
          ≡ flags
            ++ elim b [ true ↦ tok ∷ keep is_iommu_flag toks | false ↦ keep is_iommu_flag toks ]
    go true = append_assoc flags (tok ∷ []) (keep is_iommu_flag toks)
    go false = refl

scan_tokens_lem :
    (toks flags : List Str) (passthrough : Bool)
    → scan_tokens toks flags passthrough
      ≡ (flags ++ keep is_iommu_flag toks, passthrough || any asks_passthrough toks)
unfolding scan_tokens
scan_tokens_lem [] flags true = ground (arith, append-nil flags)
scan_tokens_lem [] flags false = ground (arith, append-nil flags)
scan_tokens_lem (tok ∷ toks) flags passthrough = scan_tokens_lem toks _ _ ∙ (λ i. (
  flag_token-append tok toks flags i,
  or_assoc passthrough (tok == str "iommu=pt") (tok == str "iommu.passthrough=1")
      (any asks_passthrough toks) i,
))

-- The words of the kernel command line, none if it is unreadable.
abbrev pub tokens : Host → List Str
tokens h = elim (cmdline_file h) [ none ↦ [] | some text ↦ fields text ]

cmdline_scan_lem :
    (h : Host) → cmdline_scan h ≡ (keep is_iommu_flag (tokens h), any asks_passthrough (tokens h))
unfolding cmdline_scan
cmdline_scan_lem h = go (cmdline_file h)
  where
    go :
        (text : Option Str)
        → ◌≡◌ {A = List Str × Bool}
            (elim text [ none ↦ ([], false) | some text ↦ scan_tokens (fields text) [] false ])
            (
              keep is_iommu_flag (elim text [ none ↦ [] | some text ↦ fields text ]),
              any asks_passthrough (elim text [ none ↦ [] | some text ↦ fields text ]),
            )
    go none = refl
    go (some text) = scan_tokens_lem (fields text) [] false

contains-iommu_capabilities :
    (c : Str) (groups : ℕ) (passthrough : Bool)
    → contains c (iommu_capabilities groups passthrough)
      ≡ (ltb 0 groups && (c == str "iommu" || c == str "iommu_passthrough" && passthrough))
unfolding iommu_capabilities
contains-iommu_capabilities c groups passthrough = ground arith

unseen_groups : (h : Host) → saw_iommu h ≡ false → iommu_groups h ≡ 0
unfolding saw_iommu iommu_groups
unseen_groups h e = ground arith

-- One of the three sources of the host can be read.
abbrev pub sees_iommu : Host → Bool
sees_iommu h =
    is_some (h.read_dir (str "sys/kernel/iommu_groups"))
    || is_some (h.read_dir (str "sys/class/iommu"))
    || is_some (h.read_file (str "proc/cmdline"))

saw_lem : (h : Host) → saw_iommu h ≡ sees_iommu h
unfolding saw_iommu
saw_lem h = refl

-- The IOMMU collector always returns facts, with an error exactly when it can read neither the directory
-- of the groups nor that of the units nor the kernel's command line. It reports "iommu" exactly when the kernel has a group, and "iommu_passthrough" exactly when besides a
-- word of the command line asks for it, and nothing else. The flags that it takes from the command line
-- are the words with one of the five prefixes, each as often as it stands there and in the same order,
-- because no word has two of the prefixes.
pub collect_iommu_lem :
    (h : Host) (id : Str)
    → (f : ServerFacts Section) × ((collect_iommu h id).0 ≡ some f)
      × (((collect_iommu h id).1 ≡ none) ↔ (sees_iommu h ≡ true))
      × ((c : Str)
          → contains c f.capabilities ≡ (
              ltb 0 (iommu_groups h)
              && (c == str "iommu"
                  || c == str "iommu_passthrough" && any asks_passthrough (tokens h))))
      × ((cmdline_scan h).0 ≡ keep is_iommu_flag (tokens h))
unfolding collect_iommu
collect_iommu_lem h id = elim (Bool-cases (saw_iommu h)) [
  | inl e ↦
      rw (e, sym (saw_lem h) ∙ e)
        (
          _,
          refl,
          (λ _. refl, λ _. refl),
          λ c.
              contains-iommu_capabilities c (iommu_groups h) (cmdline_scan h).1
              ∙ ap
                  (λ (r : List Str × Bool).
                    ltb 0 (iommu_groups h)
                    && (c == str "iommu" || c == str "iommu_passthrough" && r.1))
                  (cmdline_scan_lem h),
          ap (λ (r : List Str × Bool). r.0) (cmdline_scan_lem h),
        )
  | inr e ↦
      rw (e, sym (saw_lem h) ∙ e, unseen_groups h e)
        (
          _,
          refl,
          (λ z. ground arith, λ z. ground arith),
          (λ c. unfold observed in refl),
          ap (λ (r : List Str × Bool). r.0) (cmdline_scan_lem h),
        )
]

-- ===== src/Collectors/Hugepages/Reserved.antt =====
-- Which capabilities the hugepages collector reports.
use rewsr_maxfields.Base.{
  ◌≡◌, ◌↔◌, ◌∙◌, sym, ap, not, is_empty, refl, Bool, true, false, ◌&&◌, ◌||◌, none, some, List, [],
  ◌∷◌, ◌++◌, arith, Str, str, ◌==◌, str_eq, contains, contains-append, IsNodup, IsNodup-concat, any,
  Bool-cases, inl, inr, if◌then◌else◌,
}
use rewsr_maxfields.Base.Dict.{at, at-nil}
use rewsr_maxfields.Base.Int.{ℤ, pos, is_pos, is_zero, int_eq}
use rewsr_maxfields.Facts.Types.{ServerFacts}
use rewsr_maxfields.Collectors.Host.{Host, Entry, is_some, observed}
use rewsr_maxfields.Text.Cut.{has_prefix, has_suffix, trim_prefix, trim_suffix}
use rewsr_maxfields.Text.Decimal.{atoi}
use rewsr_maxfields.Collectors.Sections.{HugepageSize, Section}
use rewsr_maxfields.Collectors.Hugepages.{
  dedupe_loop, dedupe_strings, size_caps, sizes_caps, hugepages_capabilities, meminfo_counters,
  size_of_name, sizes_of, read_sysfs_sizes, saw_hugepages, collect_hugepages,
}

contains-dedupe_loop :
    (c : Str) (ss out : List Str)
    → contains c (dedupe_loop ss out) ≡ (contains c out || contains c ss)
unfolding dedupe_loop
contains-dedupe_loop c [] out = ground arith
contains-dedupe_loop c (s ∷ ss) out = ground (
  arith,
  contains-dedupe_loop c ss out,
  contains-dedupe_loop c ss (out ++ s ∷ []),
  contains-append c out (s ∷ []),
)

dedupe_loop-IsNodup : (ss out : List Str) → IsNodup out → IsNodup (dedupe_loop ss out)
unfolding dedupe_loop
dedupe_loop-IsNodup [] out u = u
dedupe_loop-IsNodup (s ∷ ss) out u = dedupe_loop-IsNodup ss _ (ground (arith, IsNodup-concat s out))

-- `dedupeStrings` keeps the elements and repeats none.
pub dedupe_strings_lem :
    (ss : List Str)
    → ((c : Str) → contains c (dedupe_strings ss) ≡ contains c ss) × IsNodup (dedupe_strings ss)
unfolding dedupe_strings
dedupe_strings_lem ss = (λ c. contains-dedupe_loop c ss [], dedupe_loop-IsNodup ss [] tt)

-- Pages of the size are reserved.
abbrev pub is_reserved : HugepageSize → Bool
is_reserved s = is_pos s.nr

abbrev pub is_gigantic : HugepageSize → Bool
is_gigantic s = s.size_kb == pos 1048576 && is_pos s.nr

contains-sizes_caps :
    (c : Str) (total : ℤ) (sizes : List HugepageSize)
    → contains c (sizes_caps total sizes) ≡ (
        c == str "hugepages" && is_zero total && any is_reserved sizes
        || c == str "hugepages_1g" && any is_gigantic sizes)
unfolding sizes_caps size_caps
contains-sizes_caps c total [] = ground arith
contains-sizes_caps c total (s ∷ sizes) =
    contains-append c (size_caps total s) (sizes_caps total sizes)
    ∙ ground (arith, contains-sizes_caps c total sizes)

-- What each capability means, by the total of /proc/meminfo and the sizes.
abbrev pub is_hugepages_capability : Str → ℤ → List HugepageSize → Bool
is_hugepages_capability c total sizes =
    c == str "hugepages" && (is_pos total || is_zero total && any is_reserved sizes)
    || c == str "hugepages_1g" && any is_gigantic sizes

contains-hugepages_capabilities :
    (c : Str) (total : ℤ) (sizes : List HugepageSize)
    → contains c (hugepages_capabilities total sizes) ≡ is_hugepages_capability c total sizes
unfolding hugepages_capabilities
contains-hugepages_capabilities c total sizes =
    (dedupe_strings_lem _).0 c
    ∙ contains-append c (if is_pos total then str "hugepages" ∷ [] else []) (sizes_caps total sizes)
    ∙ ground (arith, contains-sizes_caps c total sizes)

abbrev pub total : Host → ℤ
total h = at (pos 0) (str "total") (meminfo_counters h)

unseen :
    (h : Host) → saw_hugepages h ≡ false → (meminfo_counters h ≡ []) × (read_sysfs_sizes h ≡ [])
unfolding saw_hugepages meminfo_counters
unseen h e = ground arith

-- The name is "hugepages-", a number and "kB".
abbrev pub is_size_name : Str → Bool
is_size_name name =
    has_prefix name (str "hugepages-")
    && has_suffix name (str "kB")
    && is_some (atoi (trim_suffix (trim_prefix name (str "hugepages-")) (str "kB")))

-- The entries of the directory of sizes, none where it is unreadable.
abbrev pub size_entries : Host → List Entry
size_entries h = elim (h.read_dir (str "sys/kernel/mm/hugepages")) [
  | none ↦ []
  | some entries ↦ entries
]

-- One of the two sources of the host can be read.
abbrev pub sees_hugepages : Host → Bool
sees_hugepages h =
    is_some (h.read_file (str "proc/meminfo"))
    || any (λ (e : Entry). is_size_name e.name) (size_entries h)

is_some-size_of_name : (name : Str) → is_some (size_of_name name) ≡ is_size_name name
unfolding size_of_name
is_some-size_of_name name = ground arith

sizes_of_lem :
    (h : Host) (entries : List Entry)
    → not (is_empty (sizes_of h entries)) ≡ any (λ (e : Entry). is_size_name e.name) entries
unfolding sizes_of
sizes_of_lem h [] = refl
sizes_of_lem h (e ∷ entries) = ground (arith, is_some-size_of_name e.name, sizes_of_lem h entries)

saw_lem : (h : Host) → saw_hugepages h ≡ sees_hugepages h
unfolding saw_hugepages read_sysfs_sizes
saw_lem h = ap (λ b. is_some (h.read_file (str "proc/meminfo")) || b) sizes
  where
    sizes :
        not (
          is_empty (elim (h.read_dir (str "sys/kernel/mm/hugepages")) [
            | none ↦ []
            | some entries ↦ sizes_of h entries
          ]))
        ≡ any (λ (e : Entry). is_size_name e.name) (size_entries h)
    sizes =
        elim (h.read_dir (str "sys/kernel/mm/hugepages"))
          as (λ r.
            not (is_empty (elim r [ none ↦ [] | some entries ↦ sizes_of h entries ]))
            ≡ any (λ (e : Entry). is_size_name e.name)
                (elim r [ none ↦ [] | some entries ↦ entries ])) [
                  | none ↦ refl
                  | some entries ↦ sizes_of_lem h entries
                ]

-- The hugepages collector always returns facts, with an error exactly when /proc/meminfo is unreadable
-- and sysfs, if it is readable, has no entry that is named by a size. It reports, each at most once, "hugepages" exactly when the total of
-- /proc/meminfo is positive or, where it is zero or missing, pages of some size are reserved in sysfs,
-- and "hugepages_1g" exactly when pages of 1 GiB are.
pub collect_hugepages_lem :
    (h : Host) (id : Str)
    → (f : ServerFacts Section) × ((collect_hugepages h id).0 ≡ some f)
      × (((collect_hugepages h id).1 ≡ none) ↔ (sees_hugepages h ≡ true))
      × ((c : Str)
          → contains c f.capabilities ≡ is_hugepages_capability c (total h) (read_sysfs_sizes h))
      × IsNodup f.capabilities
unfolding collect_hugepages
collect_hugepages_lem h id = elim (Bool-cases (saw_hugepages h)) [
  | inl e ↦
      rw (e, sym (saw_lem h) ∙ e)
        (
          _,
          refl,
          (λ _. refl, λ _. refl),
          λ c. contains-hugepages_capabilities c (total h) (read_sysfs_sizes h),
          unfold hugepages_capabilities in (dedupe_strings_lem _).1,
        )
  | inr e ↦
      let (no_counters, no_sizes) = unseen h e in
      rw (e, sym (saw_lem h) ∙ e, no_counters, no_sizes)
        (
          _,
          refl,
          (λ z. ground arith, λ z. ground arith),
          (λ c. unfold observed in nothing c),
          unfold observed in tt,
        )
]
  where
    nothing : (c : Str) → false ≡ is_hugepages_capability c (at (pos 0) (str "total") []) []
    nothing c = ground (arith, at-nil (pos 0) (str "total"))

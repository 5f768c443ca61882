-- ===== src/Collectors/Hugepages.antt =====
-- collectors/linux_hugepages.go: the hugepages that are reserved.
pub mod Reserved
use rewsr_maxfields.Base.{
  ◌≡◌, ◌≢◌, ◌↔◌, ◌∙◌, refl, ap, Bool, true, false, not, ◌&&◌, ◌||◌, Option, none, some, List, [],
  ◌∷◌, ◌++◌, map, arith, Str, str, ◌==◌, str_eq, is_empty, contains, any, IsNodup, if◌then◌else◌,
}
use rewsr_maxfields.Base.Dict.{Dict, lookup, insert, at}
use rewsr_maxfields.Base.Int.{ℤ, pos, is_pos, is_zero, int_eq}
use rewsr_maxfields.Text.Cut.{cut, has_prefix, has_suffix, trim_prefix, trim_suffix}
use rewsr_maxfields.Text.Decimal.{atoi}
use rewsr_maxfields.Text.Split.{split}
use rewsr_maxfields.Text.Space.{trim_space, fields}
use rewsr_maxfields.Facts.Types.{ServerFacts}
use rewsr_maxfields.Collectors.Host.{Host, Entry, is_some, observed, atoi_or_zero}
use rewsr_maxfields.Collectors.Sections.{HugepageSize, HugepagesRaw, Section, hugepages}

-- The `switch` on the name of a line.
unfoldable pub counter_key : Str → Option Str
counter_key name =
    if name == str "HugePages_Total"
    then some (str "total")
    else if name == str "HugePages_Free"
    then some (str "free")
    else if name == str "HugePages_Rsvd"
    then some (str "reserved")
    else if name == str "HugePages_Surp"
    then some (str "surplus")
    else if name == str "Hugepagesize"
    then some (str "default_size_kb")
    else none

-- One line; a line without a colon or a value is passed over.
unfoldable pub meminfo_line : Str → Dict Str ℤ → Dict Str ℤ
meminfo_line line out =
    let (name, value, found) = cut b':' line in
    elim (fields value) [
      | [] ↦ out
      | v ∷ _ ↦
          if found
          then elim (counter_key (trim_space name)) [
            | none ↦ out
            | some k ↦ insert k (atoi_or_zero v) out
          ]
          else out
    ]

unfoldable pub meminfo_lines : List Str → Dict Str ℤ → Dict Str ℤ
meminfo_lines [] out = out
meminfo_lines (line ∷ lines) out = meminfo_lines lines (meminfo_line line out)

unfoldable pub parse_meminfo_hugepages : Str → Dict Str ℤ
parse_meminfo_hugepages meminfo = meminfo_lines (split b'\n' meminfo) []

abbrev pub base : Str
base = str "sys/kernel/mm/hugepages/"

-- A counter of a size; zero if it is unreadable.
unfoldable pub read_counter : Host → Str → Str → ℤ
read_counter h name file = elim (h.read_file (base ++ (name ++ file))) [
  | none ↦ pos 0
  | some data_ ↦ atoi_or_zero (trim_space data_)
]

-- The size that a directory's name gives.
unfoldable pub size_of_name : Str → Option ℤ
size_of_name name =
    if has_prefix name (str "hugepages-") && has_suffix name (str "kB")
    then atoi (trim_suffix (trim_prefix name (str "hugepages-")) (str "kB"))
    else none

unfoldable pub sizes_of : Host → List Entry → List HugepageSize
sizes_of h [] = []
sizes_of h (e ∷ entries) = elim (size_of_name e.name) [
  | none ↦ sizes_of h entries
  | some kb ↦
      record {
        size_kb = kb;
        nr = read_counter h e.name (str "/nr_hugepages");
        free = read_counter h e.name (str "/free_hugepages");
      }
      ∷ sizes_of h entries
]

unfoldable pub read_sysfs_sizes : Host → List HugepageSize
read_sysfs_sizes h = elim (h.read_dir (str "sys/kernel/mm/hugepages")) [
  | none ↦ []
  | some entries ↦ sizes_of h entries
]

-- The map `seen` holds exactly the elements of `out`, and is read off it.
unfoldable pub dedupe_loop : List Str → List Str → List Str
dedupe_loop [] out = out
dedupe_loop (s ∷ ss) out = dedupe_loop ss (if contains s out then out else out ++ s ∷ [])

unfoldable pub dedupe_strings : List Str → List Str
dedupe_strings ss = dedupe_loop ss []

-- One size in the loop over the sizes.
unfoldable pub size_caps : ℤ → HugepageSize → List Str
size_caps total s =
    (if is_pos s.nr && is_zero total then str "hugepages" ∷ [] else [])
    ++ (if s.size_kb == pos 1048576 && is_pos s.nr then str "hugepages_1g" ∷ [] else [])

unfoldable pub sizes_caps : ℤ → List HugepageSize → List Str
sizes_caps total [] = []
sizes_caps total (s ∷ sizes) = size_caps total s ++ sizes_caps total sizes

unfoldable pub hugepages_capabilities : ℤ → List HugepageSize → List Str
hugepages_capabilities total sizes =
    dedupe_strings ((if is_pos total then str "hugepages" ∷ [] else []) ++ sizes_caps total sizes)

unfoldable pub meminfo_counters : Host → Dict Str ℤ
meminfo_counters h = elim (h.read_file (str "proc/meminfo")) [
  | none ↦ []
  | some data_ ↦ parse_meminfo_hugepages data_
]

-- The slice of sizes is nil when the directory is unreadable and when it lists no size.
unfoldable pub saw_hugepages : Host → Bool
saw_hugepages h = is_some (h.read_file (str "proc/meminfo")) || not (is_empty (read_sysfs_sizes h))

unfoldable pub collect_hugepages : Host → Str → Option (ServerFacts Section) × Option Str
collect_hugepages h server_id =
    let f = observed (str "linux_hugepages") h server_id in
    let counters = meminfo_counters h in
    let sizes = read_sysfs_sizes h in
    if saw_hugepages h
    then (
      some (record f {
        capabilities = hugepages_capabilities (at (pos 0) (str "total") counters) sizes;
        raw = some (
            (
              str "hugepages",
              hugepages (record {
                counters = counters;
                sizes = if is_empty sizes then none else some sizes;
              }),
            )
            ∷ []);
      }),
      none,
    )
    else (
      some f,
      some (
          str
            "hugepages collector: neither proc/meminfo nor sys/kernel/mm/hugepages readable under "
          ++ h.root),
    )

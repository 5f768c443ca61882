-- ===== src/Collectors/NodeDirs.antt =====
-- collectors/linux_numa.go: the topology from the directories below /sys/devices/system/node.
pub mod Order
use rewsr_maxfields.Base.{
  ℕ, zero, suc, ◌+◌, ◌/◌, Bool, true, false, not, ◌&&◌, ◌||◌, Option, none, some, List, [], ◌∷◌,
  ◌++◌, map, Str, str, ◌==◌, str_eq, is_empty, length, leb, if◌then◌else◌,
}
use rewsr_maxfields.Base.Int.{ℤ, pos, negsuc, ltb_ℤ, add_int, wrap, ◌-ℤ◌, sub_ℕ}
use rewsr_maxfields.Text.Cut.{cut, has_prefix, trim_prefix, has_sub}
use rewsr_maxfields.Text.Decimal.{atoi, itoa}
use rewsr_maxfields.Text.Split.{split}
use rewsr_maxfields.Text.Space.{trim_space, fields}
use rewsr_maxfields.Collectors.Host.{Host, Entry, atoi_or_zero, numbers}
use rewsr_maxfields.Collectors.Sections.{NumaNode, NumaTopology}

unfoldable pub node_ids : List Entry → List ℤ
node_ids [] = []
node_ids (e ∷ entries) =
    let rest = node_ids entries in
    if has_prefix e.name (str "node")
    then elim (atoi (trim_prefix e.name (str "node"))) [ none ↦ rest | some id ↦ id ∷ rest ]
    else rest

-- The inner loop: `x` is `ids[i]`, which is exchanged with each smaller element behind it.
unfoldable pub sweep : ℤ → List ℤ → ℤ × List ℤ
sweep x [] = (x, [])
sweep x (y ∷ ys) =
    let taken = sweep y ys in
    let kept = sweep x ys in if ltb_ℤ y x then (taken.0, x ∷ taken.1) else (kept.0, y ∷ kept.1)

-- The outer loop, once for each element.
unfoldable pub exchange_loop : ℕ → List ℤ → List ℤ
exchange_loop zero ids = ids
exchange_loop (suc n) [] = []
exchange_loop (suc n) (x ∷ ids) = let (least, rest) = sweep x ids in least ∷ exchange_loop n rest

unfoldable pub sort_ids : List ℤ → List ℤ
sort_ids ids = exchange_loop (length ids) ids

-- The CPUs of one part: one, or a range; a part that is no range counts nothing.
unfoldable pub count_part : Str → ℤ → ℤ
count_part part count =
    let (lo, hi, is_range) = cut b'-' part in
    if is_range
    then elim (atoi (trim_space lo)) [
      | none ↦ count
      | some a ↦ elim (atoi (trim_space hi)) [
        | none ↦ count
        | some b ↦ if ltb_ℤ b a then count else add_int count (add_int (wrap (b -ℤ a)) (pos 1))
      ]
    ]
    else add_int count (pos 1)

unfoldable pub count_parts : List Str → ℤ → ℤ
count_parts [] count = count
count_parts (part ∷ parts) count = count_parts parts (count_part part count)

unfoldable pub count_cpu_list : Str → ℤ
count_cpu_list list = if is_empty list then pos 0 else count_parts (split b',' list) (pos 0)

-- The token behind the first that starts with the field's name.
unfoldable pub value_behind : Str → List Str → Option Str
value_behind field [] = none
value_behind field (tok ∷ []) = none
value_behind field (tok ∷ v ∷ toks) =
    let rest = value_behind field (v ∷ toks) in if has_prefix tok field then some v else rest

-- Division by 1024 towards zero.
unfoldable pub kb_to_mb : ℤ → ℤ
kb_to_mb (pos n) = pos (n / 1024)
kb_to_mb (negsuc n) = sub_ℕ 0 (suc n / 1024)

unfoldable pub meminfo_mb : Str → List Str → ℤ
meminfo_mb field [] = pos 0
meminfo_mb field (line ∷ lines) =
    let rest = meminfo_mb field lines in
    if has_sub line (field ++ str ":")
    then elim (value_behind field (fields line)) [
      | none ↦ rest
      | some v ↦ kb_to_mb (atoi_or_zero v)
    ]
    else rest

unfoldable pub parse_node_meminfo_mb : Str → Str → ℤ
parse_node_meminfo_mb meminfo field = meminfo_mb field (split b'\n' meminfo)

unfoldable pub node_path : ℤ → Str → Str
node_path id file = str "sys/devices/system/node/node" ++ (itoa id ++ file)

-- A file that is unreadable leaves its fields at zero.
unfoldable pub read_node : Host → ℤ → NumaNode
read_node h id = record {
  id = id;
  cpus = elim (h.read_file (node_path id (str "/cpulist"))) [
    | none ↦ pos 0
    | some text ↦ count_cpu_list (trim_space text)
  ];
  size_mb = elim (h.read_file (node_path id (str "/meminfo"))) [
    | none ↦ pos 0
    | some text ↦ parse_node_meminfo_mb text (str "MemTotal")
  ];
  free_mb = elim (h.read_file (node_path id (str "/meminfo"))) [
    | none ↦ pos 0
    | some text ↦ parse_node_meminfo_mb text (str "MemFree")
  ];
}

-- The row of a node, if it has a number.
unfoldable pub read_row : Host → ℤ → List (List ℤ)
read_row h id = elim (h.read_file (node_path id (str "/distance"))) [
  | none ↦ []
  | some text ↦ elim (numbers (fields text)) [ [] ↦ [] | d ∷ row ↦ (d ∷ row) ∷ [] ]
]

unfoldable pub read_rows : Host → List ℤ → List (List ℤ)
read_rows h [] = []
read_rows h (id ∷ ids) = read_row h id ++ read_rows h ids

unfoldable pub read_sysfs_topology : Host → Option NumaTopology
read_sysfs_topology h = elim (h.read_dir (str "sys/devices/system/node")) [
  | none ↦ none
  | some entries ↦ elim (node_ids entries) [
    | [] ↦ none
    | id ∷ ids ↦ some (record {
      nodes = map (read_node h) (sort_ids (id ∷ ids));
      distances = read_rows h (sort_ids (id ∷ ids));
    })
  ]
]

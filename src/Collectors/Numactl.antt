-- ===== src/Collectors/Numactl.antt =====
-- collectors/linux_numa.go: the output of `numactl --hardware`. The closure `node` keeps pointers into
-- a slice that `append` may move; a pointer made before a move is stale, and what is written through it
-- is lost. When `append` moves a slice of a length is the runtime's choice, the parameter `moves`.
pub mod Grouped
pub mod Nodes
pub mod Slots
use rewsr_maxfields.Base.{
  ℕ, Bool, true, false, not, ◌&&◌, ◌||◌, Option, none, some, List, [], ◌∷◌, ◌++◌, map, Str, str,
  ◌==◌, str_eq, is_empty, length, if◌then◌else◌,
}
use rewsr_maxfields.Base.Int.{ℤ, pos, int_eq}
use rewsr_maxfields.Text.Cut.{cut, has_prefix, trim_suffix}
use rewsr_maxfields.Text.Decimal.{atoi}
use rewsr_maxfields.Text.Split.{split}
use rewsr_maxfields.Text.Space.{trim_space, fields}
use rewsr_maxfields.Collectors.Host.{atoi_or_zero, numbers}
use rewsr_maxfields.Collectors.Sections.{NumaNode, NumaTopology}

-- A node of the slice, and whether the pointer to it in `nodesByID` is still one into the slice.
pub record Slot : Type 0 where
  pub node : NumaNode
  pub live : Bool

-- The variables of the loop.
pub record Parse : Type 0 where
  pub slots : List Slot
  pub distances : List (List ℤ)
  pub in_distances : Bool

abbrev pub zero_node : ℤ → NumaNode
zero_node id = record { id = id; cpus = pos 0; size_mb = pos 0; free_mb = pos 0 }

-- What a line sets of its node.
pub data Setting : Type 0 where
  set_cpus : ℕ → Setting
  set_size : ℤ → Setting
  set_free : ℤ → Setting

unfoldable pub apply : Setting → NumaNode → NumaNode
apply (set_cpus n) node = record node { cpus = pos n }
apply (set_size n) node = record node { size_mb = n }
apply (set_free n) node = record node { free_mb = n }

-- `_, ok := nodesByID[id]`
unfoldable pub has_slot : ℤ → List Slot → Bool
has_slot id [] = false
has_slot id (s ∷ slots) = id == s.node.id || has_slot id slots

-- A write through the pointer of the node.
unfoldable pub write_slot : Setting → ℤ → List Slot → List Slot
write_slot u id [] = []
write_slot u id (s ∷ slots) =
    let rest = write_slot u id slots in
    if id == s.node.id
    then record s { node = if s.live then apply u s.node else s.node } ∷ slots
    else s ∷ rest

unfoldable pub kill : List Slot → List Slot
kill [] = []
kill (s ∷ slots) = record s { live = false } ∷ kill slots

-- The `switch` on the third field; `more` are the fields behind it.
unfoldable pub field_setting : Str → List Str → Option Setting
field_setting what more = if what == str "cpus" then some (set_cpus (length more)) else elim more [
  | [] ↦ none
  | v ∷ _ ↦
      if what == str "size"
      then some (set_size (atoi_or_zero v))
      else if what == str "free"
      then some (set_free (atoi_or_zero v))
      else none
]

-- What a line does.
pub data Effect : Type 0 where
  skip : Effect
  enter_distances : Effect
  add_row : List ℤ → Effect
  set_node : ℤ → Setting → Effect

-- A line with at least three fields, the second a number.
unfoldable pub node_effect : List Str → Effect
node_effect (_ ∷ id_field ∷ what ∷ more) = elim (atoi id_field) [
  | none ↦ skip
  | some id ↦ elim (field_setting (trim_suffix what (str ":")) more) [
    | none ↦ skip
    | some u ↦ set_node id u
  ]
]
node_effect _ = skip

-- A row of the matrix; the header has no colon.
unfoldable pub distance_effect : Str → Effect
distance_effect line =
    let (id, rest, found) = cut b':' line in
    elim (atoi (trim_space id)) [
      | none ↦ skip
      | some _ ↦
          if found && not (is_empty (numbers (fields rest)))
          then add_row (numbers (fields rest))
          else skip
    ]

unfoldable pub line_effect : Bool → Str → Effect
line_effect in_distances line =
    let l = trim_space line in
    if is_empty l
    then skip
    else if has_prefix l (str "node distances:")
    then enter_distances
    else if in_distances
    then distance_effect l
    else if has_prefix l (str "node ")
    then node_effect (fields l)
    else skip

abbrev pub first_parse : Parse
first_parse = record { slots = []; distances = []; in_distances = false }

module _ (moves : ℕ → Bool) where
  -- `node(id).… = …`
  unfoldable pub update_node : Setting → ℤ → List Slot → List Slot
  update_node u id slots =
      if has_slot id slots
      then write_slot u id slots
      else (if moves (length slots) then kill slots else slots)
        ++ record { node = apply u (zero_node id); live = true } ∷ []

  unfoldable pub apply_effect : Effect → Parse → Parse
  apply_effect skip st = st
  apply_effect enter_distances st = record st { in_distances = true }
  apply_effect (add_row row) st = record st { distances = st.distances ++ row ∷ [] }
  apply_effect (set_node id u) st = record st { slots = update_node u id st.slots }

  unfoldable pub parse_lines : List Str → Parse → Parse
  parse_lines [] st = st
  parse_lines (line ∷ lines) st =
      parse_lines lines (apply_effect (line_effect st.in_distances line) st)

  unfoldable pub parse_numactl_hardware : Str → NumaTopology
  parse_numactl_hardware out =
      let st = parse_lines (split b'\n' out) first_parse in
      record { nodes = map (λ s. s.node) st.slots; distances = st.distances }

-- ===== src/Collectors/Numactl/Grouped.antt =====
-- When the lines of each node stand together, it does not matter when the slice moves.
use rewsr_maxfields.Base.{
  ℕ, ◌≡◌, ◌∙◌, refl, ap, sym, Bool, true, false, List, [], ◌∷◌, ◌++◌, Str, contains, IsNodup,
  if◌then◌else◌,
}
use rewsr_maxfields.Base.Int.{ℤ, int_eq}
use rewsr_maxfields.Text.Split.{split}
use rewsr_maxfields.Collectors.Sections.{NumaNode, NumaTopology}
use rewsr_maxfields.Collectors.Numactl.{
  Parse, Effect, skip, enter_distances, add_row, set_node, apply_effect, line_effect, parse_lines,
  first_parse, parse_numactl_hardware,
}
use rewsr_maxfields.Collectors.Numactl.Nodes.{ids_of, ids_of-update_node, update_node-IsNodup}
use rewsr_maxfields.Collectors.Numactl.Slots.{
  nodes_of, LastLive, settle, IsNext, update_node-settle,
}

abbrev after_distances : Effect → Bool → Bool
after_distances enter_distances d = true
after_distances skip d = d
after_distances (add_row row) d = d
after_distances (set_node id u) d = d

abbrev after_ids : Effect → List ℤ → List ℤ
after_ids (set_node id u) ids = if contains id ids then ids else ids ++ id ∷ []
after_ids skip ids = ids
after_ids enter_distances ids = ids
after_ids (add_row row) ids = ids

abbrev IsStep : Effect → List ℤ → Type 0
IsStep (set_node id u) ids = IsNext id ids
IsStep skip ids = Unit
IsStep enter_distances ids = Unit
IsStep (add_row row) ids = Unit

-- Each line of a node follows a line of the same node or is the node's first. `d` says whether the
-- matrix of distances has begun, `ids` are the nodes so far.
abbrev pub IsGrouped : Bool → List ℤ → List Str → Type 0
IsGrouped d ids [] = Unit
IsGrouped d ids (line ∷ lines) =
    let e = line_effect d line in
    IsStep e ids × IsGrouped (after_distances e d) (after_ids e ids) lines

abbrev topology : Parse → NumaTopology
topology st = record { nodes = nodes_of st.slots; distances = st.distances }

abbrev settle_effect : Effect → List ℤ → NumaTopology → NumaTopology
settle_effect (set_node id u) ids t = record t { nodes = settle u id ids t.nodes }
settle_effect (add_row row) ids t = record t { distances = t.distances ++ row ∷ [] }
settle_effect skip ids t = t
settle_effect enter_distances ids t = t

-- The topology when every write lands.
abbrev settled : Bool → List ℤ → NumaTopology → List Str → NumaTopology
settled d ids t [] = t
settled d ids t (line ∷ lines) =
    let e = line_effect d line in
    settled (after_distances e d) (after_ids e ids) (settle_effect e ids t) lines

abbrev IsSound : Parse → Type 0
IsSound st = IsNodup (ids_of st.slots) × LastLive st.slots

module _ (moves : ℕ → Bool) where
  apply_effect-settle :
      (e : Effect) (st : Parse)
      → IsSound st
      → IsStep e (ids_of st.slots)
      → (topology (apply_effect moves e st) ≡ settle_effect e (ids_of st.slots) (topology st))
        × (ids_of (apply_effect moves e st).slots ≡ after_ids e (ids_of st.slots))
        × ((apply_effect moves e st).in_distances ≡ after_distances e st.in_distances)
        × IsSound (apply_effect moves e st)
  unfolding apply_effect
  apply_effect-settle skip st sound step = (refl, refl, refl, sound)
  apply_effect-settle enter_distances st sound step = (refl, refl, refl, sound)
  apply_effect-settle (add_row row) st sound step = (refl, refl, refl, sound)
  apply_effect-settle (set_node id u) st (distinct, live) step =
      let (nodes, l) = update_node-settle moves u id st.slots distinct live step in
      (
        ap (λ (ns : List NumaNode). record { nodes = ns; distances = st.distances }) nodes,
        ids_of-update_node moves u id st.slots,
        refl,
        (update_node-IsNodup moves u id st.slots distinct, l),
      )

  parse_lines-settled :
      (lines : List Str) (st : Parse)
      → IsSound st
      → IsGrouped st.in_distances (ids_of st.slots) lines
      → topology (parse_lines moves lines st)
        ≡ settled st.in_distances (ids_of st.slots) (topology st) lines
  unfolding parse_lines
  parse_lines-settled [] st sound grouped = refl
  parse_lines-settled (line ∷ lines) st sound (step, grouped) =
      let e = line_effect st.in_distances line in
      let (topo, ids, dist, sound') = apply_effect-settle e st sound step in
      parse_lines-settled lines (apply_effect moves e st) sound' (rw (ids, dist) grouped)
      ∙ rw (ids, dist)
          (ap
            (λ t.
              settled (after_distances e st.in_distances) (after_ids e (ids_of st.slots)) t lines)
            topo)

-- Where the lines of each node stand together, as `numactl` prints them, the topology is the one that
-- comes out when the slice never moves, so that no write is lost.
pub parse_numactl_hardware-grouped :
    (moves : ℕ → Bool) (out : Str)
    → IsGrouped false [] (split b'\n' out)
    → parse_numactl_hardware moves out ≡ parse_numactl_hardware (λ _. false) out
unfolding parse_numactl_hardware
parse_numactl_hardware-grouped moves out grouped =
    parse_lines-settled moves (split b'\n' out) first_parse (tt, tt) grouped
    ∙ sym (parse_lines-settled (λ _. false) (split b'\n' out) first_parse (tt, tt) grouped)

-- ===== src/Collectors/Numactl/Nodes.antt =====
-- The nodes that the parser of `numactl --hardware` makes.
use rewsr_maxfields.Base.{
  ℕ, ◌≡◌, refl, ap, Bool, true, ◌||◌, List, [], ◌∷◌, ◌++◌, map, arith, Str, ◌==◌, str_eq, contains,
  IsNodup, IsNodup-concat, if◌then◌else◌,
}
use rewsr_maxfields.Base.Int.{ℤ, int_eq}
use rewsr_maxfields.Text.Split.{split}
use rewsr_maxfields.Collectors.Sections.{NumaNode}
use rewsr_maxfields.Collectors.Numactl.{
  Slot, Parse, Setting, set_cpus, set_size, set_free, Effect, skip, enter_distances, add_row,
  set_node, zero_node, apply, has_slot, write_slot, kill, update_node, apply_effect, line_effect,
  parse_lines, first_parse, parse_numactl_hardware,
}

abbrev pub ids_of : List Slot → List ℤ
ids_of [] = []
ids_of (s ∷ slots) = s.node.id ∷ ids_of slots

pub apply-id : (u : Setting) (node : NumaNode) → (apply u node).id ≡ node.id
unfolding apply
apply-id (set_cpus n) node = refl
apply-id (set_size n) node = refl
apply-id (set_free n) node = refl

pub has_slot-contains :
    (id : ℤ) (slots : List Slot) → has_slot id slots ≡ contains id (ids_of slots)
unfolding has_slot
has_slot-contains id [] = refl
has_slot-contains id (s ∷ slots) = ap (λ b. id == s.node.id || b) (has_slot-contains id slots)

ids_of-write_slot :
    (u : Setting) (id : ℤ) (slots : List Slot) → ids_of (write_slot u id slots) ≡ ids_of slots
unfolding write_slot
ids_of-write_slot u id [] = refl
ids_of-write_slot u id (s ∷ slots) = ground (arith, apply-id u s.node, ids_of-write_slot u id slots)

ids_of-kill : (slots : List Slot) → ids_of (kill slots) ≡ ids_of slots
unfolding kill
ids_of-kill [] = refl
ids_of-kill (s ∷ slots) = ap (◌∷◌ s.node.id) (ids_of-kill slots)

ids_of-append :
    (slots : List Slot) (s : Slot) → ids_of (slots ++ s ∷ []) ≡ ids_of slots ++ s.node.id ∷ []
ids_of-append [] s = refl
ids_of-append (t ∷ slots) s = ap (◌∷◌ t.node.id) (ids_of-append slots s)

module _ (moves : ℕ → Bool) where
  -- A node's first line makes it; later lines make no other.
  pub ids_of-update_node :
      (u : Setting) (id : ℤ) (slots : List Slot)
      → ids_of (update_node moves u id slots)
        ≡ (if contains id (ids_of slots) then ids_of slots else ids_of slots ++ id ∷ [])
  unfolding update_node
  ids_of-update_node u id slots = ground (
    arith,
    has_slot-contains id slots,
    ids_of-write_slot u id slots,
    ids_of-kill slots,
    ids_of-append (kill slots) (record { node = apply u (zero_node id); live = true }),
    ids_of-append slots (record { node = apply u (zero_node id); live = true }),
    apply-id u (zero_node id),
  )

  pub update_node-IsNodup :
      (u : Setting) (id : ℤ) (slots : List Slot)
      → IsNodup (ids_of slots)
      → IsNodup (ids_of (update_node moves u id slots))
  update_node-IsNodup u id slots h =
      ground (arith, ids_of-update_node u id slots, IsNodup-concat id (ids_of slots))

  apply_effect-IsNodup :
      (e : Effect) (st : Parse)
      → IsNodup (ids_of st.slots)
      → IsNodup (ids_of (apply_effect moves e st).slots)
  unfolding apply_effect
  apply_effect-IsNodup skip st h = h
  apply_effect-IsNodup enter_distances st h = h
  apply_effect-IsNodup (add_row row) st h = h
  apply_effect-IsNodup (set_node id u) st h = update_node-IsNodup u id st.slots h

  parse_lines-IsNodup :
      (lines : List Str) (st : Parse)
      → IsNodup (ids_of st.slots)
      → IsNodup (ids_of (parse_lines moves lines st).slots)
  unfolding parse_lines
  parse_lines-IsNodup [] st h = h
  parse_lines-IsNodup (line ∷ lines) st h =
      parse_lines-IsNodup lines _ (apply_effect-IsNodup (line_effect st.in_distances line) st h)

pub ids_of-nodes : (slots : List Slot) → map (λ n. n.id) (map (λ s. s.node) slots) ≡ ids_of slots
ids_of-nodes [] = refl
ids_of-nodes (s ∷ slots) = ap (◌∷◌ s.node.id) (ids_of-nodes slots)

-- Whatever `numactl --hardware` prints and whenever the slice moves, the nodes have distinct ids.
pub parse_numactl_hardware-IsNodup :
    (moves : ℕ → Bool) (out : Str)
    → IsNodup (map (λ n. n.id) (parse_numactl_hardware moves out).nodes)
unfolding parse_numactl_hardware
parse_numactl_hardware-IsNodup moves out =
    rw (ids_of-nodes (parse_lines moves (split b'\n' out) first_parse).slots)
      (parse_lines-IsNodup moves (split b'\n' out) first_parse tt)

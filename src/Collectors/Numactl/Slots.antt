-- ===== src/Collectors/Numactl/Slots.antt =====
-- A write to the last node or to a new one lands, whether or not the slice moves.
use rewsr_maxfields.Base.{
  ℕ, ◌≡◌, ◌≢◌, ◌⊎◌, ◌∙◌, refl, ap, sym, Bool, true, false, Option, none, some, List, [], ◌∷◌, ◌++◌,
  map, arith, ◌==◌, length, contains, IsNodup, Bool-cases, inl, inr, if◌then◌else◌, ==→≡,
}
use rewsr_maxfields.Base.Int.{ℤ, int_eq}
use rewsr_maxfields.Collectors.Sections.{NumaNode}
use rewsr_maxfields.Collectors.Numactl.{
  Slot, Setting, zero_node, apply, write_slot, kill, update_node,
}
use rewsr_maxfields.Collectors.Numactl.Nodes.{ids_of, has_slot-contains}

abbrev pub nodes_of : List Slot → List NumaNode
nodes_of = map (λ s. s.node)

-- The pointer to the last node is one into the slice.
abbrev pub LastLive : List Slot → Type 0
LastLive [] = Unit
LastLive (s ∷ []) = s.live ≡ true
LastLive (s ∷ t ∷ slots) = LastLive (t ∷ slots)

abbrev pub last_id : List ℤ → Option ℤ
last_id [] = none
last_id (i ∷ []) = some i
last_id (i ∷ j ∷ ids) = last_id (j ∷ ids)

abbrev pub set_last : Setting → List NumaNode → List NumaNode
set_last u [] = []
set_last u (n ∷ []) = apply u n ∷ []
set_last u (n ∷ m ∷ nodes) = n ∷ set_last u (m ∷ nodes)

last_id-contains : (id : ℤ) (ids : List ℤ) → last_id ids ≡ some id → contains id ids ≡ true
last_id-contains id [] h = ground arith
last_id-contains id (i ∷ []) h = ground arith
last_id-contains id (i ∷ j ∷ ids) h = ground (arith, last_id-contains id (j ∷ ids) h)

write_slot-ne_nil :
    (u : Setting) (id : ℤ) (s : Slot) (slots : List Slot) → write_slot u id (s ∷ slots) ≢ []
unfolding write_slot
write_slot-ne_nil u id s slots = ground arith

LastLive-cons : (s : Slot) (slots : List Slot) → slots ≢ [] → LastLive slots → LastLive (s ∷ slots)
LastLive-cons s [] h l = absurd (h refl)
LastLive-cons s (t ∷ slots) h l = l

LastLive-concat : (slots : List Slot) (s : Slot) → s.live ≡ true → LastLive (slots ++ s ∷ [])
LastLive-concat [] s h = h
LastLive-concat (t ∷ []) s h = h
LastLive-concat (t ∷ r ∷ slots) s h = LastLive-concat (r ∷ slots) s h

nodes_of-kill : (slots : List Slot) → nodes_of (kill slots) ≡ nodes_of slots
unfolding kill
nodes_of-kill [] = refl
nodes_of-kill (s ∷ slots) = ap (◌∷◌ s.node) (nodes_of-kill slots)

nodes_of-concat :
    (slots : List Slot) (s : Slot) → nodes_of (slots ++ s ∷ []) ≡ nodes_of slots ++ s.node ∷ []
nodes_of-concat [] s = refl
nodes_of-concat (t ∷ slots) s = ap (◌∷◌ t.node) (nodes_of-concat slots s)

-- A write to the last node lands.
write_last :
    (u : Setting) (id : ℤ) (slots : List Slot)
    → IsNodup (ids_of slots)
    → last_id (ids_of slots) ≡ some id
    → LastLive slots
    → (nodes_of (write_slot u id slots) ≡ set_last u (nodes_of slots))
      × LastLive (write_slot u id slots)
unfolding write_slot
write_last u id [] d l h = ground arith
write_last u id (s ∷ []) d l h = ground arith
write_last u id (s ∷ t ∷ slots) (fresh, d) l h =
    let (nodes, live) = write_last u id (t ∷ slots) d l h in
    rw (differ (Bool-cases (id == s.node.id))) (
      ap (◌∷◌ s.node) nodes,
      LastLive-cons s (write_slot u id (t ∷ slots)) (write_slot-ne_nil u id t slots) live,
    )
  where
    there : contains id (ids_of (t ∷ slots)) ≡ true
    there = last_id-contains id (ids_of (t ∷ slots)) l

    differ : ((id == s.node.id) ≡ true) ⊎ ((id == s.node.id) ≡ false) → (id == s.node.id) ≡ false
    differ (inr e) = e
    differ (inl e) =
        let clash =
          sym there ∙ ap (λ i. contains i (ids_of (t ∷ slots))) (==→≡ id s.node.id e) ∙ fresh in
        ground (arith, clash)

-- The update when every write lands.
abbrev pub settle : Setting → ℤ → List ℤ → List NumaNode → List NumaNode
settle u id ids nodes =
    if contains id ids then set_last u nodes else nodes ++ apply u (zero_node id) ∷ []

-- The line is of the last node or of a new one.
abbrev pub IsNext : ℤ → List ℤ → Type 0
IsNext id ids = (last_id ids ≡ some id) ⊎ (contains id ids ≡ false)

module _ (moves : ℕ → Bool) where
  pub update_node-settle :
      (u : Setting) (id : ℤ) (slots : List Slot)
      → IsNodup (ids_of slots)
      → LastLive slots
      → IsNext id (ids_of slots)
      → (nodes_of (update_node moves u id slots) ≡ settle u id (ids_of slots) (nodes_of slots))
        × LastLive (update_node moves u id slots)
  unfolding update_node
  update_node-settle u id slots d live (inl last) =
      let there = last_id-contains id (ids_of slots) last in
      let (nodes, l) = write_last u id slots d last live in
      rw (has_slot-contains id slots, there) (nodes, l)
  update_node-settle u id slots d live (inr fresh) =
      rw (has_slot-contains id slots, fresh)
        (
          nodes_of-concat (if moves (length slots) then kill slots else slots) _
              ∙ ap (λ ns. ns ++ apply u (zero_node id) ∷ []) (kept (moves (length slots))),
          LastLive-concat (if moves (length slots) then kill slots else slots) _ refl,
        )
    where
      kept : (b : Bool) → nodes_of (if b then kill slots else slots) ≡ nodes_of slots
      kept true = nodes_of-kill slots
      kept false = refl

-- ===== src/Collectors/Lspci/Items.antt =====
-- Quoted fields and tokens as `lspci` prints them, and that `splitLspciFields` reads them back.
use rewsr_maxfields.Base.{
  ℕ, ◌≡◌, ◌≢◌, ◌∙◌, refl, sym, ap, false, none, some, List, [], ◌∷◌, ◌++◌, append-nil, append_assoc,
  arith, Str, ◌==◌, nat_eq, All,
}
use rewsr_maxfields.Text.Cut.{cut, cut-append}
use rewsr_maxfields.Text.Split.{Lacks}
use rewsr_maxfields.Text.Space.{is_space, trim_space}
use rewsr_maxfields.Text.Space.Trimmed.{trim_space_solid}
use rewsr_maxfields.Collectors.Lspci.{
  Fields, add_field, add_token, no_fields, field_step, field_loop, split_lspci_fields,
}
use rewsr_maxfields.Collectors.Lspci.Loop.{Runs, done, stop, next, field_loop_of_Runs}

-- What stands behind the address in a line.
pub data Item : Type 0 where
  field : Str → Item
  token : Str → Item

abbrev pub print_item : Item → Str → Str
print_item (field w) rest = b'"' ∷ (w ++ b'"' ∷ rest)
print_item (token w) rest = w ++ rest

abbrev pub print_items : List Item → Str
print_items [] = []
print_items (i ∷ items) = b' ' ∷ print_item i (print_items items)

abbrev add_item : Item → Fields → Fields
add_item (field w) p = add_field w p
add_item (token w) p = add_token w p

abbrev pub add_items : List Item → Fields → Fields
add_items [] p = p
add_items (i ∷ items) p = add_items items (add_item i p)

-- A field has no quote; a token has no space, and is not empty nor starts with a quote.
abbrev pub IsItem : Item → Type 0
IsItem (field w) = Lacks b'"' w
IsItem (token []) = ⊥
IsItem (token (c ∷ w)) = ((c == b'"') ≡ false) × Lacks b' ' (c ∷ w)

step_space : (s : Str) (p : Fields) → field_step b' ' s p ≡ (p, some s)
unfolding field_step
step_space s p = refl

step_field :
    (w rest : Str) (p : Fields)
    → Lacks b'"' w
    → field_step b'"' (w ++ b'"' ∷ rest) p ≡ (add_field w p, some rest)
unfolding field_step
step_field w rest p h = ground (arith, cut-append b'"' w rest h)

step_token :
    (c : ℕ) (w rest : Str) (p : Fields)
    → (c == b'"') ≡ false
    → Lacks b' ' (c ∷ w)
    → field_step c (w ++ b' ' ∷ rest) p ≡ (add_token (c ∷ w) p, some (b' ' ∷ rest))
unfolding field_step
step_token c w rest p q h = ground (arith, cut-append b' ' (c ∷ w) rest h)

cut_lacking : (sep : ℕ) (w : Str) → Lacks sep w → cut sep w ≡ (w, [], false)
unfolding cut
cut_lacking sep [] h = refl
cut_lacking sep (c ∷ w) (hc, hw) = ground (arith, cut_lacking sep w hw)

step_last :
    (c : ℕ) (w : Str) (p : Fields)
    → (c == b'"') ≡ false
    → Lacks b' ' (c ∷ w)
    → field_step c w p ≡ (add_token (c ∷ w) p, none)
unfolding field_step
step_last c w p q h = ground (arith, cut_lacking b' ' (c ∷ w) h)

items-Runs :
    (items : List Item) (p : Fields)
    → All IsItem items
    → Runs (print_items items) p (add_items items p)
items-Runs [] p h = done
items-Runs (field w ∷ items) p (hw, h) =
    next (step_space _ p) (next (step_field w _ p hw) (items-Runs items (add_field w p) h))
items-Runs (token [] ∷ items) p (h, _) = absurd h
items-Runs (token (c ∷ w) ∷ []) p ((q, hw), h) =
    next (step_space _ p) (rw append-nil (stop (step_last c w p q hw)))
items-Runs (token (c ∷ w) ∷ i ∷ items) p ((q, hw), h) =
    next (step_space _ p)
      (next (step_token c w _ p q hw) (items-Runs (i ∷ items) (add_token (c ∷ w) p) h))

-- Behind the trimmed line stands its text, and in it the fields.
pub split_lspci_fields_lem :
    (items : List Item)
    → All IsItem items
    → split_lspci_fields (print_items items) ≡ add_items items no_fields
unfolding split_lspci_fields
split_lspci_fields_lem items h = field_loop_of_Runs _ (items-Runs items no_fields h) (omega arith)

pub split_lspci_fields-space : (s : Str) → split_lspci_fields (b' ' ∷ s) ≡ split_lspci_fields s
unfolding split_lspci_fields field_loop field_step
split_lspci_fields-space s = refl

-- The text ends with a quote.
abbrev pub EndsQuoted : Str → Type 0
EndsQuoted s = (r : Str) × (s ≡ r ++ b'"' ∷ [])

EndsQuoted-append : (s : Str) {t : Str} → EndsQuoted t → EndsQuoted (s ++ t)
EndsQuoted-append s (r, e) = (s ++ r, ap (λ t. s ++ t) e ∙ sym (append_assoc s r (b'"' ∷ [])))

-- So does a line whose last item is a field.
pub EndsQuoted-items :
    (items : List Item) (w : Str) → EndsQuoted (print_items (items ++ field w ∷ []))
EndsQuoted-items [] w = EndsQuoted-append (b' ' ∷ b'"' ∷ []) (EndsQuoted-append w ([], refl))
EndsQuoted-items (field v ∷ items) w =
    EndsQuoted-append (b' ' ∷ b'"' ∷ [])
      (EndsQuoted-append v (EndsQuoted-append (b'"' ∷ []) (EndsQuoted-items items w)))
EndsQuoted-items (token v ∷ items) w =
    EndsQuoted-append (b' ' ∷ []) (EndsQuoted-append v (EndsQuoted-items items w))

pub trim_space_of_EndsQuoted :
    (a t : Str)
    → a ≢ []
    → All (λ c. is_space c ≡ false) a
    → is_space b'"' ≡ false
    → EndsQuoted t
    → trim_space (a ++ t) ≡ a ++ t
trim_space_of_EndsQuoted [] t ne h q e = absurd (ne refl)
trim_space_of_EndsQuoted (b ∷ a) t ne (hb, h) q (r, e) =
    let e' : a ++ t ≡ (a ++ r) ++ b'"' ∷ [] =
      ap (λ t. a ++ t) e ∙ sym (append_assoc a r (b'"' ∷ [])) in
    rw e' (trim_space_solid b (a ++ r) b'"' hb q)

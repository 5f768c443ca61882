-- ===== src/Collectors/Lspci/Listed.antt =====
-- What `lspci -Dnnmm` prints of a device with its names and ids.
use rewsr_maxfields.Base.{
  ℕ, ◌≡◌, ◌≢◌, ◌∙◌, refl, sym, ap, true, false, none, some, List, [], ◌∷◌, ◌++◌, append_assoc,
  arith, Str, ◌==◌, nat_eq, All,
}
use rewsr_maxfields.Base.Int.{pos}
use rewsr_maxfields.Base.Float.{zero_float}
use rewsr_maxfields.Text.Cut.{cut_last}
use rewsr_maxfields.Text.Split.{Lacks}
use rewsr_maxfields.Text.Space.{is_space, trim_space}
use rewsr_maxfields.Text.Space.Trimmed.{trim_space-append}
use rewsr_maxfields.Collectors.Sections.{PciDevice}
use rewsr_maxfields.Collectors.Lspci.{split_name_and_id}
use rewsr_maxfields.Collectors.Lspci.Items.{Item, field, token, print_items, IsItem}

-- A device with its names and ids, as `lspci` knows it. A revision or a programming interface that is
-- empty here is not printed.
pub record Listed : Type 0 where
  pub address : Str
  pub class : Str × Str
  pub vendor : Str × Str
  pub device : Str × Str
  pub revision : Str
  pub prog_if : Str
  pub sub_vendor : Str
  pub sub_device : Str

abbrev pub named : Str × Str → Str
named (name, id) = name ++ b' ' ∷ b'[' ∷ (id ++ b']' ∷ [])

abbrev pub revision_items : Str → List Item → List Item
revision_items [] rest = rest
revision_items (c ∷ r) rest = token (b'-' ∷ b'r' ∷ c ∷ r) ∷ rest

abbrev pub prog_if_items : Str → List Item → List Item
prog_if_items [] rest = rest
prog_if_items (c ∷ p) rest = token (b'-' ∷ b'p' ∷ c ∷ p) ∷ rest

abbrev pub items_of : Listed → List Item
items_of l =
    field (named l.class)
    ∷ field (named l.vendor)
    ∷ field (named l.device)
    ∷ revision_items l.revision
        (prog_if_items l.prog_if (field l.sub_vendor ∷ field l.sub_device ∷ []))

abbrev pub print_line : Listed → Str
print_line l = l.address ++ print_items (items_of l)

-- A line for each device, with the end of the line behind it.
abbrev pub print_lines : List Listed → Str
print_lines [] = []
print_lines (l ∷ ls) = print_line l ++ b'\n' ∷ print_lines ls

abbrev IsNamed : Str × Str → Type 0
IsNamed (name, id) =
    Lacks b'"' name × (trim_space name ≡ name) × Lacks b'"' id × Lacks b'[' id × Lacks b']' id

-- Names and ids without quotes, names trimmed, ids without brackets, a revision, a programming interface
-- and an address without spaces, and all in one line.
pub record IsListed (l : Listed) : Type 0 where
  pub address_ne_nil : l.address ≢ []
  pub address_solid : All (λ c. is_space c ≡ false) l.address
  pub class : IsNamed l.class
  pub vendor : IsNamed l.vendor
  pub device : IsNamed l.device
  pub revision : Lacks b' ' l.revision
  pub prog_if : Lacks b' ' l.prog_if
  pub sub_vendor : Lacks b'"' l.sub_vendor
  pub sub_device : Lacks b'"' l.sub_device
  pub one_line : Lacks b'\n' (print_line l)

-- The device that is printed so.
abbrev pub device_of_listed : Listed → PciDevice
device_of_listed l = record {
  address = l.address;
  class_name = l.class.0;
  class_id = l.class.1;
  vendor_name = l.vendor.0;
  vendor_id = l.vendor.1;
  device_name = l.device.0;
  device_id = l.device.1;
  revision = l.revision;
  cur_link_gts = zero_float;
  max_link_gts = zero_float;
  cur_link_x = pos 0;
  max_link_x = pos 0;
  sriov_total = pos 0;
  sriov_active = pos 0;
}

Lacks-append : (sep : ℕ) (s t : Str) → Lacks sep s → Lacks sep t → Lacks sep (s ++ t)
Lacks-append sep [] t h k = k
Lacks-append sep (c ∷ s) t (hc, h) k = (hc, Lacks-append sep s t h k)

cut_last_lacking : (sep : ℕ) (s : Str) → Lacks sep s → cut_last sep s ≡ none
unfolding cut_last
cut_last_lacking sep [] h = refl
cut_last_lacking sep (c ∷ s) (hc, h) = ground (arith, cut_last_lacking sep s h)

cut_last-append : (sep : ℕ) (s t : Str) → Lacks sep t → cut_last sep (s ++ sep ∷ t) ≡ some (s, t)
unfolding cut_last
cut_last-append sep [] t h = ground (arith, cut_last_lacking sep t h)
cut_last-append sep (c ∷ s) t h = ground (arith, cut_last-append sep s t h)

abbrev Differ : ℕ → ℕ → Type 0
Differ a b = (a == b) ≡ false

-- The characters that stand between the parts differ.
pub marks-Differ :
    Differ b']' b'['
    × Differ b' ' b'"'
    × Differ b'[' b'"'
    × Differ b']' b'"'
    × Differ b'-' b'"'
    × Differ b'-' b' '
    × Differ b'r' b' '
    × (is_space b'"' ≡ false)
    × (is_space b' ' ≡ true)
    × Differ b'p' b' '
unfolding nat_eq is_space
marks-Differ = (refl, refl, refl, refl, refl, refl, refl, refl, refl, refl)

pub named_lem : (n : Str × Str) → IsNamed n → split_name_and_id (named n) ≡ n
unfolding split_name_and_id
named_lem (name, id) (_, trimmed, _, opens, closes) =
    let outer : cut_last b'[' (named (name, id)) ≡ some (name ++ b' ' ∷ [], id ++ b']' ∷ []) =
      ap (cut_last b'[') (sym (append_assoc name (b' ' ∷ []) _))
      ∙ cut_last-append b'[' (name ++ b' ' ∷ []) (id ++ b']' ∷ [])
          (Lacks-append b'[' id (b']' ∷ []) opens (marks-Differ.0, tt)) in
    rw (outer, split_name_and_id, cut_last-append b']' id [] tt)
      (λ i. ((trim_space-append name b' ' marks-Differ.8 ∙ trimmed) i, id))

IsItem-named : (n : Str × Str) → IsNamed n → Lacks b'"' (named n)
IsItem-named (name, id) (quotes, _, quotes', _, _) =
    Lacks-append b'"' name _ quotes
      (marks-Differ.1, (marks-Differ.2, Lacks-append b'"' id _ quotes' (marks-Differ.3, tt)))

prog_if_items-IsItem :
    (l : Listed) (p : Str)
    → IsListed l
    → Lacks b' ' p
    → All IsItem (prog_if_items p (field l.sub_vendor ∷ field l.sub_device ∷ []))
prog_if_items-IsItem l [] h _ = (h.sub_vendor, (h.sub_device, tt))
prog_if_items-IsItem l (c ∷ p) h lacks = (
  (marks-Differ.4, (marks-Differ.5, (marks-Differ.9, lacks))),
  (h.sub_vendor, (h.sub_device, tt)),
)

revision_items-IsItem :
    (r : Str) (rest : List Item)
    → Lacks b' ' r
    → All IsItem rest
    → All IsItem (revision_items r rest)
revision_items-IsItem [] rest _ h = h
revision_items-IsItem (c ∷ r) rest lacks h =
    ((marks-Differ.4, (marks-Differ.5, (marks-Differ.6, lacks))), h)

pub items_of-IsItem : (l : Listed) → IsListed l → All IsItem (items_of l)
items_of-IsItem l h = (
  IsItem-named l.class h.class,
  (
    IsItem-named l.vendor h.vendor,
    (
      IsItem-named l.device h.device,
      revision_items-IsItem l.revision _ h.revision (prog_if_items-IsItem l l.prog_if h h.prog_if),
    ),
  ),
)

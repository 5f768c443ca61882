-- ===== src/Collectors/Lspci.antt =====
-- collectors/linux_pci.go: `parseLspciMM`, the reading of what `lspci -Dnnmm` prints.
pub mod Loop
pub mod Items
pub mod Listed
pub mod RoundTrip
use rewsr_maxfields.Base.{
  ℕ, zero, suc, Bool, true, false, Option, none, some, List, [], ◌∷◌, ◌++◌, Str, str, ◌==◌, nat_eq,
  length, is_empty, if◌then◌else◌,
}
use rewsr_maxfields.Base.Int.{pos}
use rewsr_maxfields.Base.Float.{zero_float}
use rewsr_maxfields.Text.Cut.{cut, cut_last, has_prefix, trim_prefix}
use rewsr_maxfields.Text.Space.{trim_space}
use rewsr_maxfields.Text.Split.{split}
use rewsr_maxfields.Collectors.Sections.{PciDevice}

-- The quoted fields and the tokens of a line.
pub record Fields : Type 0 where
  pub quoted : List Str
  pub tokens : List Str

abbrev pub add_field : Str → Fields → Fields
add_field w p = record p { quoted = p.quoted ++ w ∷ [] }

abbrev pub add_token : Str → Fields → Fields
add_token w p = record p { tokens = p.tokens ++ w ∷ [] }

-- One round of the loop at the text from position `i` on: what is read so far, and the text from the new
-- `i` on, or none where the function returns. The space behind a token is left for the next round.
unfoldable pub field_step : ℕ → Str → Fields → Fields × Option Str
unfolding nat_eq
field_step c s p =
    if c == b'"'
    then (let (w, rest, found) = cut b'"' s in
        if found then (add_field w p, some rest) else (p, none))
    else if c == b' '
    then (p, some s)
    else (let (w, rest, found) = cut b' ' (c ∷ s) in
        (add_token w p, if found then some (b' ' ∷ rest) else none))

-- The loop, for at most `fuel` rounds.
unfoldable pub field_loop : ℕ → Str → Fields → Fields
field_loop zero s p = p
field_loop (suc fuel) [] p = p
field_loop (suc fuel) (c ∷ s) p =
    let (q, next) = field_step c s p in elim next [ none ↦ q | some rest ↦ field_loop fuel rest q ]

abbrev pub no_fields : Fields
no_fields = record { quoted = []; tokens = [] }

-- Every round moves `i` on, so a round for each character is enough.
unfoldable pub split_lspci_fields : Str → Fields
split_lspci_fields s = field_loop (suc (length s)) s no_fields

-- Behind the last "[", up to the last "]".
unfoldable pub split_name_and_id : Str → Str × Str
split_name_and_id field = elim (cut_last b'[' field) [
  | none ↦ (trim_space field, [])
  | some (name, behind) ↦ elim (cut_last b']' behind) [
    | none ↦ (trim_space field, [])
    | some (id, _) ↦ (trim_space name, id)
  ]
]

-- The last "-r" token counts.
unfoldable pub revision_of : List Str → Str → Str
revision_of [] revision = revision
revision_of (t ∷ tokens) revision =
    revision_of tokens (if has_prefix t (str "-r") then trim_prefix t (str "-r") else revision)

unfoldable pub device_of : Str → Str → Str → Str → List Str → PciDevice
device_of address class vendor device tokens =
    let (class_name, class_id) = split_name_and_id class in
    let (vendor_name, vendor_id) = split_name_and_id vendor in
    let (device_name, device_id) = split_name_and_id device in
    record {
      address = address;
      class_name = class_name;
      class_id = class_id;
      vendor_name = vendor_name;
      vendor_id = vendor_id;
      device_name = device_name;
      device_id = device_id;
      revision = revision_of tokens [];
      cur_link_gts = zero_float;
      max_link_gts = zero_float;
      cur_link_x = pos 0;
      max_link_x = pos 0;
      sriov_total = pos 0;
      sriov_active = pos 0;
    }

-- A line with fewer than three quoted fields is skipped.
unfoldable pub fields_device : Str → List Str → List Str → List PciDevice
fields_device address (class ∷ vendor ∷ device ∷ _) tokens =
    device_of address class vendor device tokens ∷ []
fields_device address _ tokens = []

-- The devices of a trimmed line: one at most.
unfoldable pub line_devices : Str → List PciDevice
line_devices line =
    let (address, rest, found) = cut b' ' line in
    let p = split_lspci_fields rest in
    if is_empty line then [] else if found then fields_device address p.quoted p.tokens else []

unfoldable pub lines_devices : List Str → List PciDevice
lines_devices [] = []
lines_devices (line ∷ lines) = line_devices (trim_space line) ++ lines_devices lines

unfoldable pub parse_lspci_mm : Str → List PciDevice
parse_lspci_mm out = lines_devices (split b'\n' out)

-- ===== src/Collectors/Lspci/RoundTrip.antt =====
-- `parseLspciMM` reads back what `lspci -Dnnmm` prints of a list of devices.
use rewsr_maxfields.Base.{
  ◌≡◌, ◌≢◌, ◌∙◌, refl, sym, ap, false, List, [], ◌∷◌, ◌++◌, arith, map, Str, str, nat_eq, ==→≡, All,
}
use rewsr_maxfields.Text.Cut.{cut, cut-append, has_prefix, trim_prefix, after_prefix}
use rewsr_maxfields.Text.Split.{split, split-append, Lacks}
use rewsr_maxfields.Text.Space.{is_space, trim_space}
use rewsr_maxfields.Collectors.Lspci.{
  Fields, no_fields, split_lspci_fields, revision_of, device_of, fields_device, line_devices,
  lines_devices, parse_lspci_mm,
}
use rewsr_maxfields.Collectors.Lspci.Items.{
  Item, field, print_item, print_items, add_items, split_lspci_fields_lem, split_lspci_fields-space,
  EndsQuoted, EndsQuoted-items, trim_space_of_EndsQuoted,
}
use rewsr_maxfields.Collectors.Lspci.Listed.{
  Listed, named, revision_items, prog_if_items, items_of, print_line, print_lines, IsListed,
  device_of_listed, marks-Differ, named_lem, items_of-IsItem,
}

-- The revision is taken from the "-r" token, whatever "-p" token there is.
revision_of_items :
    (r p : Str) (class vendor device sub_vendor sub_device : Str)
    → let fields =
        add_items
          (field class
            ∷ field vendor
            ∷ field device
            ∷ revision_items r (prog_if_items p (field sub_vendor ∷ field sub_device ∷ [])))
          no_fields in
      (revision_of fields.tokens [] ≡ r)
      × (fields.quoted ≡ class ∷ vendor ∷ device ∷ sub_vendor ∷ sub_device ∷ [])
unfolding revision_of has_prefix trim_prefix after_prefix str nat_eq
revision_of_items [] [] class vendor device sub_vendor sub_device = (refl, refl)
revision_of_items [] (d ∷ p) class vendor device sub_vendor sub_device = (refl, refl)
revision_of_items (c ∷ r) [] class vendor device sub_vendor sub_device = (refl, refl)
revision_of_items (c ∷ r) (d ∷ p) class vendor device sub_vendor sub_device = (refl, refl)

device_of_lem :
    (l : Listed)
    → IsListed l
    → fields_device l.address
        (add_items (items_of l) no_fields).quoted
        (add_items (items_of l) no_fields).tokens
      ≡ device_of_listed l ∷ []
unfolding fields_device device_of
device_of_lem l h =
    let (revision, quoted) =
      revision_of_items l.revision l.prog_if (named l.class) (named l.vendor) (named l.device)
        l.sub_vendor l.sub_device in
    rw
      (
        quoted,
        revision,
        named_lem l.class h.class,
        named_lem l.vendor h.vendor,
        named_lem l.device h.device,
      )
      refl

-- The items in front of the last field.
front_items : Str → Str → Str → List Item
front_items r p sub_vendor = revision_items r (prog_if_items p (field sub_vendor ∷ []))

front_items_lem :
    (r p v d : Str)
    → revision_items r (prog_if_items p (field v ∷ field d ∷ []))
      ≡ front_items r p v ++ field d ∷ []
unfolding front_items
front_items_lem [] [] v d = refl
front_items_lem [] (y ∷ p) v d = refl
front_items_lem (x ∷ r) [] v d = refl
front_items_lem (x ∷ r) (y ∷ p) v d = refl

print_line_EndsQuoted : (l : Listed) → EndsQuoted (print_items (items_of l))
print_line_EndsQuoted l = rw (front_items_lem l.revision l.prog_if l.sub_vendor l.sub_device) (
    EndsQuoted-items
      (field (named l.class)
        ∷ field (named l.vendor)
        ∷ field (named l.device)
        ∷ front_items l.revision l.prog_if l.sub_vendor)
      l.sub_device)

print_line_trimmed : (l : Listed) → IsListed l → trim_space (print_line l) ≡ print_line l
print_line_trimmed l h =
    trim_space_of_EndsQuoted l.address _ h.address_ne_nil h.address_solid marks-Differ.7
      (print_line_EndsQuoted l)

solid-Lacks : (a : Str) → All (λ c. is_space c ≡ false) a → Lacks b' ' a
solid-Lacks [] h = tt
solid-Lacks (c ∷ a) (hc, h) = (grind (arith, ==→≡ c b' ', marks-Differ.8, hc), solid-Lacks a h)

-- What stands behind the address and a space.
body_of : Listed → Str
body_of l = print_item (field (named l.class)) (
    print_items (
      field (named l.vendor)
      ∷ field (named l.device)
      ∷ revision_items l.revision
          (prog_if_items l.prog_if (field l.sub_vendor ∷ field l.sub_device ∷ []))))

split_body :
    (l : Listed) → IsListed l → split_lspci_fields (body_of l) ≡ add_items (items_of l) no_fields
unfolding body_of
split_body l h =
    sym (split_lspci_fields-space _) ∙ split_lspci_fields_lem (items_of l) (items_of-IsItem l h)

line_devices-append :
    (a body : Str) {p : Fields}
    → a ≢ []
    → Lacks b' ' a
    → split_lspci_fields body ≡ p
    → line_devices (a ++ b' ' ∷ body) ≡ fields_device a p.quoted p.tokens
unfolding line_devices
line_devices-append a body ne h e = ground (arith, ne, cut-append b' ' a body h, e)

line_devices_lem : (l : Listed) → IsListed l → line_devices (print_line l) ≡ device_of_listed l ∷ []
unfolding body_of
line_devices_lem l h =
    line_devices-append l.address (body_of l) h.address_ne_nil
      (solid-Lacks l.address h.address_solid) (split_body l h)
    ∙ device_of_lem l h

empty : parse_lspci_mm [] ≡ []
unfolding parse_lspci_mm lines_devices line_devices split trim_space cut
empty = refl

-- The lines of `lspci -Dnnmm` for any devices are read back as these devices, with the name and the id of
-- the class, the vendor and the device, and the revision, whether or not a programming interface is
-- printed behind it. Names and ids have no quotes, names are trimmed, ids have no brackets, the address,
-- the revision and the programming interface have no spaces, and a device stands in one line.
pub parse_lspci_mm-print_lines :
    (ls : List Listed) → All IsListed ls → parse_lspci_mm (print_lines ls) ≡ map device_of_listed ls
unfolding parse_lspci_mm lines_devices
parse_lspci_mm-print_lines [] h = empty
parse_lspci_mm-print_lines (l ∷ ls) (hl, h) =
    rw
      (
        split-append b'\n' (print_line l) (print_lines ls) hl.one_line,
        print_line_trimmed l hl,
        line_devices_lem l hl,
      )
      (ap (λ ds. device_of_listed l ∷ ds) (parse_lspci_mm-print_lines ls h))

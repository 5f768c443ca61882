-- ===== src/Collectors/Smbios.antt =====
-- collectors/linux_smbios.go: the DMI identity of a host.
pub mod Fields
mod Tests
use rewsr_maxfields.Base.{
  Bool, true, false, Option, none, some, List, [], ◌∷◌, ◌++◌, Str, str, ◌==◌, str_eq, is_empty,
  if◌then◌else◌,
}
use rewsr_maxfields.Base.Dict.{Dict, insert, lookup}
use rewsr_maxfields.Base.Int.{ℤ, pos, int_eq}
use rewsr_maxfields.Text.Decimal.{atoi}
use rewsr_maxfields.Text.Space.{trim_space}
use rewsr_maxfields.Facts.Types.{ServerFacts}
use rewsr_maxfields.Collectors.Host.{Host, observed}
use rewsr_maxfields.Collectors.Sections.{Section, dmi}

-- `dmiFields`
unfoldable pub dmi_fields : List Str
dmi_fields =
    str "sys_vendor"
    ∷ str "product_name"
    ∷ str "product_serial"
    ∷ str "product_uuid"
    ∷ str "board_vendor"
    ∷ str "board_name"
    ∷ str "bios_vendor"
    ∷ str "bios_version"
    ∷ str "bios_date"
    ∷ str "chassis_type"
    ∷ []

-- `chassisTypeNames`
unfoldable pub chassis_type_names : Dict ℤ Str
chassis_type_names =
    (pos 1, str "Other")
    ∷ (pos 2, str "Unknown")
    ∷ (pos 3, str "Desktop")
    ∷ (pos 4, str "Low Profile Desktop")
    ∷ (pos 5, str "Pizza Box")
    ∷ (pos 6, str "Mini Tower")
    ∷ (pos 7, str "Tower")
    ∷ (pos 8, str "Portable")
    ∷ (pos 9, str "Laptop")
    ∷ (pos 10, str "Notebook")
    ∷ (pos 11, str "Hand Held")
    ∷ (pos 12, str "Docking Station")
    ∷ (pos 13, str "All In One")
    ∷ (pos 14, str "Sub Notebook")
    ∷ (pos 15, str "Space-saving")
    ∷ (pos 16, str "Lunch Box")
    ∷ (pos 17, str "Main Server Chassis")
    ∷ (pos 18, str "Expansion Chassis")
    ∷ (pos 19, str "Sub Chassis")
    ∷ (pos 20, str "Bus Expansion Chassis")
    ∷ (pos 21, str "Peripheral Chassis")
    ∷ (pos 22, str "RAID Chassis")
    ∷ (pos 23, str "Rack Mount Chassis")
    ∷ (pos 24, str "Sealed-case PC")
    ∷ (pos 25, str "Multi-system Chassis")
    ∷ (pos 26, str "Compact PCI")
    ∷ (pos 27, str "Advanced TCA")
    ∷ (pos 28, str "Blade")
    ∷ (pos 29, str "Blade Enclosure")
    ∷ (pos 30, str "Tablet")
    ∷ (pos 31, str "Convertible")
    ∷ (pos 32, str "Detachable")
    ∷ (pos 33, str "IoT Gateway")
    ∷ (pos 34, str "Embedded PC")
    ∷ (pos 35, str "Mini PC")
    ∷ (pos 36, str "Stick PC")
    ∷ []

abbrev pub dmi_path : Str → Str
dmi_path field = str "sys/class/dmi/id/" ++ field

-- A file that is unreadable or blank is skipped.
unfoldable pub read_field : Host → Str → Dict Str Str → Dict Str Str
read_field h field fields = elim (h.read_file (dmi_path field)) [
  | none ↦ fields
  | some text ↦ if is_empty (trim_space text) then fields else insert field (trim_space text) fields
]

unfoldable pub read_fields : Host → List Str → Dict Str Str → Dict Str Str
read_fields h [] fields = fields
read_fields h (field ∷ more) fields = read_fields h more (read_field h field fields)

-- The name of a chassis type that is a known number.
unfoldable pub type_name : Str → Option Str
type_name text = elim (atoi text) [ none ↦ none | some n ↦ lookup n chassis_type_names ]

unfoldable pub name_chassis : Dict Str Str → Dict Str Str
name_chassis fields = elim (lookup (str "chassis_type") fields) [
  | none ↦ fields
  | some text ↦ elim (type_name text) [
    | none ↦ fields
    | some name ↦ insert (str "chassis_type_name") name fields
  ]
]

unfoldable pub dmi_raw : Host → Dict Str Str
dmi_raw h = name_chassis (read_fields h dmi_fields [])

-- `stat_error` is the text of the error that `os.Stat` returns for a path.
unfoldable pub collect_smbios : (Str → Str) → Host → Str → Option (ServerFacts Section) × Option Str
collect_smbios stat_error h server_id =
    let f = observed (str "linux_smbios") h server_id in
    let dir = h.joined (str "sys/class/dmi/id") in
    if h.stat (str "sys/class/dmi/id")
    then (if is_empty (dmi_raw h)
        then (some f, some (str "smbios collector: no readable fields under " ++ dir))
        else (some (record f { raw = some ((str "dmi", dmi (dmi_raw h)) ∷ []) }), none))
    else (
      some f,
      some (str "smbios collector: " ++ (dir ++ (str " not readable: " ++ stat_error dir))),
    )

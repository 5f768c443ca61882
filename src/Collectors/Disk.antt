-- ===== src/Collectors/Disk.antt =====
-- collectors/linux_disk.go: the disks from what `lsblk` prints. The splitting of its JSON into values is a
-- parameter; the values of size and rotation are decoded here.
use rewsr_maxfields.Base.{
  ◌*◌, Bool, true, false, ◌||◌, Option, none, some, List, [], ◌∷◌, Str, str, ◌==◌, nat_eq, str_eq,
  is_empty, if◌then◌else◌,
}
use rewsr_maxfields.Base.Int.{ℤ, pos, quot_ℤ}
use rewsr_maxfields.Text.Cut.{has_prefix, trim_left_at, trim_right_at}
use rewsr_maxfields.Text.Decimal.{atoi}
use rewsr_maxfields.Text.Space.{trim_space}
use rewsr_maxfields.Facts.Types.{ServerFacts, DiskFacts}
use rewsr_maxfields.Facts.Build.{Result, ok, err}
use rewsr_maxfields.Collectors.Host.{Tools, require_command}

-- `strings.Trim(s, "\"")`
unfoldable pub trim_quotes : Str → Str
trim_quotes s = trim_right_at b'"' (trim_left_at b'"' s)

-- `flexInt.UnmarshalJSON`, with the error that `strconv.ParseInt` has for a text.
unfoldable pub flex_int : (Str → Str) → Str → Result ℤ
flex_int number_error value =
    let s = trim_quotes value in
    if is_empty s || s == str "null"
    then ok (pos 0)
    else elim (atoi s) [ none ↦ err (number_error s) | some n ↦ ok n ]

-- `flexBool.UnmarshalJSON`. What is none of the words is left to the decoder of `bool`.
unfoldable pub flex_bool : (Str → Result Bool) → Str → Result Bool
flex_bool decode_bool value =
    let s = trim_quotes (trim_space value) in
    if s == str "true" || s == str "1"
    then ok true
    else if s == str "false" || s == str "0" || is_empty s || s == str "null"
    then ok false
    else decode_bool value

unfoldable pub disk_type : Str → Bool → Str
disk_type name rotational =
    if has_prefix name (str "nvme") then str "nvme" else if rotational then str "hdd" else str "ssd"

-- A device with its values as they stand in the JSON, empty where one is missing.
pub record LsblkValues : Type 0 where
  pub name : Str
  pub type : Str
  pub size : Str
  pub rota : Str

pub record LsblkDevice : Type 0 where
  pub name : Str
  pub type : Str
  pub size : ℤ
  pub rota : Bool

-- The whole disks.
unfoldable pub disks_of : List LsblkDevice → List DiskFacts
disks_of [] = []
disks_of (dev ∷ devices) =
    let rest = disks_of devices in
    if dev.type == str "disk"
    then record {
      name = dev.name;
      type = disk_type dev.name dev.rota;
      size_gb = quot_ℤ dev.size (1024 * 1024 * 1024);
      rotational = dev.rota;
    }
      ∷ rest
    else rest

-- What `encoding/json` does here: the values of the output, the error of a number, and `bool`.
pub record LsblkJson : Type 0 where
  pub values : Str → Result (List LsblkValues)
  pub number_error : Str → Str
  pub decode_bool : Str → Result Bool

-- The values in the order of the columns; the first that is malformed is the error.
unfoldable pub decode_devices : LsblkJson → List LsblkValues → Result (List LsblkDevice)
decode_devices j [] = ok []
decode_devices j (v ∷ values) = elim (flex_int j.number_error v.size) [
  | err e ↦ err e
  | ok size ↦ elim (flex_bool j.decode_bool v.rota) [
    | err e ↦ err e
    | ok rota ↦ elim (decode_devices j values) [
      | err e ↦ err e
      | ok devices ↦
          ok (record { name = v.name; type = v.type; size = size; rota = rota } ∷ devices)
    ]
  ]
]

unfoldable pub parse_lsblk : LsblkJson → Str → Result (List LsblkDevice)
parse_lsblk j out = elim (j.values out) [ err e ↦ err e | ok values ↦ decode_devices j values ]

unfoldable pub collect_disks :
    {V : Type 0} → LsblkJson → Tools → ServerFacts V → ServerFacts V × Option Str
collect_disks j t f = elim (require_command t (str "lsblk")) [
  | some e ↦ (f, some e)
  | none ↦
      elim (t.run (str "lsblk") (str "-J" ∷ str "-b" ∷ str "-o" ∷ str "NAME,TYPE,SIZE,ROTA" ∷ [])) [
        | err e ↦ (f, some e)
        | ok out ↦ elim (parse_lsblk j out) [
          | err e ↦ (f, some e)
          | ok devices ↦ (record f { disks = disks_of devices }, none)
        ]
      ]
]

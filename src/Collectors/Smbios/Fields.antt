-- ===== src/Collectors/Smbios/Fields.antt =====
-- What the DMI section holds for each key.
use rewsr_maxfields.Base.{
  ◌≡◌, ◌∙◌, refl, true, false, Option, none, some, List, [], ◌∷◌, arith, Str, str, ◌==◌, ==→≡,
  str_eq, contains, is_empty, if◌then◌else◌, Bool-cases, inl, inr,
}
use rewsr_maxfields.Base.Dict.{Dict, insert, lookup, lookup-insert, lookup-nil}
use rewsr_maxfields.Text.Space.{trim_space}
use rewsr_maxfields.Collectors.Host.{Host}
use rewsr_maxfields.Collectors.Smbios.{
  dmi_fields, dmi_path, read_field, read_fields, type_name, name_chassis, dmi_raw,
}

-- The trimmed text of a field's file, none if it is unreadable or blank.
abbrev pub field_text : Host → Str → Option Str
field_text h field = elim (h.read_file (dmi_path field)) [
  | none ↦ none
  | some text ↦ if is_empty (trim_space text) then none else some (trim_space text)
]

abbrev pub or_else : Option Str → Option Str → Option Str
or_else none other = other
or_else (some v) other = some v

module _ (h : Host) (k : Str) where
  read_field_lem :
      (field : Str) (fields : Dict Str Str)
      → lookup k (read_field h field fields)
        ≡ (if k == field then or_else (field_text h field) (lookup k fields) else lookup k fields)
  unfolding read_field
  read_field_lem field fields = go (h.read_file (dmi_path field))
    where
      go :
          (file : Option Str)
          → lookup k (elim file [
            | none ↦ fields
            | some text ↦
                if is_empty (trim_space text) then fields else insert field (trim_space text) fields
          ])
            ≡ (if k == field
                then or_else
                    (elim file [
                      | none ↦ none
                      | some text ↦
                          if is_empty (trim_space text) then none else some (trim_space text)
                    ])
                    (lookup k fields)
                else lookup k fields)
      go none = ground arith
      go (some text) = ground (arith, lookup-insert k field (trim_space text) fields)

  read_fields_lem :
      (names : List Str) (fields : Dict Str Str)
      → lookup k (read_fields h names fields)
        ≡ (if contains k names then or_else (field_text h k) (lookup k fields) else lookup k fields)
  unfolding read_fields
  read_fields_lem [] fields = refl
  read_fields_lem (name ∷ names) fields =
      ground (arith, read_fields_lem names (read_field h name fields), read_field_lem name fields)

-- What the name of the chassis type is drawn from.
abbrev pub chassis_name : Host → Option Str
chassis_name h = elim (field_text h (str "chassis_type")) [
  | none ↦ none
  | some text ↦ type_name text
]

keys_lem :
    (contains (str "chassis_type") dmi_fields ≡ true)
    × (contains (str "chassis_type_name") dmi_fields ≡ false)
unfolding str str_eq dmi_fields
keys_lem = (refl, refl)

or_else-none : (o : Option Str) → or_else o none ≡ o
or_else-none none = refl
or_else-none (some v) = refl

fields_read :
    (h : Host) (k : Str)
    → lookup k (read_fields h dmi_fields [])
      ≡ (if contains k dmi_fields then field_text h k else none)
fields_read h k =
    read_fields_lem h k dmi_fields [] ∙ rw (lookup-nil k, or_else-none (field_text h k)) refl

name_chassis_lem :
    (k : Str) (fields : Dict Str Str)
    → lookup k (name_chassis fields) ≡ (
        if k == str "chassis_type_name"
        then or_else
            (elim (lookup (str "chassis_type") fields) [ none ↦ none | some text ↦ type_name text ])
            (lookup k fields)
        else lookup k fields)
unfolding name_chassis
name_chassis_lem k fields = go (lookup (str "chassis_type") fields)
  where
    named : (name : Option Str) → Dict Str Str
    named name = elim name [ none ↦ fields | some n ↦ insert (str "chassis_type_name") n fields ]

    one :
        (name : Option Str)
        → lookup k (named name) ≡ (
            if k == str "chassis_type_name"
            then or_else name (lookup k fields)
            else lookup k fields)
    one none = ground arith
    one (some n) = ground (arith, lookup-insert k (str "chassis_type_name") n fields)

    go :
        (type : Option Str)
        → lookup k (elim type [ none ↦ fields | some text ↦ named (type_name text) ]) ≡ (
            if k == str "chassis_type_name"
            then or_else (elim type [ none ↦ none | some text ↦ type_name text ]) (lookup k fields)
            else lookup k fields)
    go none = ground arith
    go (some text) = one (type_name text)

-- The DMI section holds, for each of the ten fields, the trimmed text of its file where the file is
-- readable and not blank; under "chassis_type_name" the name of the chassis type where that is a number
-- which the table names; and nothing else.
pub dmi_raw_lem :
    (h : Host) (k : Str)
    → lookup k (dmi_raw h) ≡ (
        if k == str "chassis_type_name"
        then chassis_name h
        else if contains k dmi_fields
        then field_text h k
        else none)
unfolding dmi_raw
dmi_raw_lem h k =
    let fields = read_fields h dmi_fields [] in
    let type : lookup (str "chassis_type") fields ≡ field_text h (str "chassis_type") =
      fields_read h (str "chassis_type") ∙ rw keys_lem.0 refl in
    name_chassis_lem k fields
    ∙ rw (type, fields_read h k)
        (elim (Bool-cases (k == str "chassis_type_name")) [
          | inr e ↦ rw e refl
          | inl e ↦
              rw (e, ==→≡ k (str "chassis_type_name") e, keys_lem.1) (or_else-none (chassis_name h))
        ])

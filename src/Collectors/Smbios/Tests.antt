-- ===== src/Collectors/Smbios/Tests.antt =====
-- A rack server that follows collectors/linux_smbios_test.go.
use rewsr_maxfields.Base.{
  ◌≡◌, refl, none, [], ◌∷◌, str, ◌==◌, str_eq, nat_eq, contains, if◌then◌else◌,
}
use rewsr_maxfields.Base.Dict
use rewsr_maxfields.Base.Int.{int_eq}
use rewsr_maxfields.Text.Decimal.{atoi, unsigned, scan, positive}
use rewsr_maxfields.Text.Space.{trim_space}
use rewsr_maxfields.Collectors.Fixtures.{fixture}
use rewsr_maxfields.Collectors.Host.{Host}
use rewsr_maxfields.Collectors.Smbios.{
  dmi_fields, chassis_type_names, type_name, read_field, read_fields, name_chassis, dmi_raw,
}
use rewsr_maxfields.Collectors.Smbios.Fields.{chassis_name, field_text, dmi_raw_lem}

abbrev box : Host
box =
    fixture
      ((str "sys/class/dmi/id/sys_vendor", str "Dell Inc.\n")
        ∷ (str "sys/class/dmi/id/product_serial", str " \n")
        ∷ (str "sys/class/dmi/id/chassis_type", str "23\n")
        ∷ [])
      []

rack :
    dmi_raw box
    ≡ (str "sys_vendor", str "Dell Inc.")
      ∷ (str "chassis_type", str "23")
      ∷ (str "chassis_type_name", str "Rack Mount Chassis")
      ∷ []
unfolding dmi_raw name_chassis read_fields read_field dmi_fields type_name chassis_type_names atoi
    unsigned scan positive trim_space Dict.lookup Dict.insert nat_eq int_eq str str_eq
rack = refl

dmi_raw_example : Dict.lookup (str "chassis_type_name") (dmi_raw box) ≡ (
    if str "chassis_type_name" == str "chassis_type_name"
    then chassis_name box
    else if contains (str "chassis_type_name") dmi_fields
    then field_text box (str "chassis_type_name")
    else none)
dmi_raw_example = dmi_raw_lem box (str "chassis_type_name")

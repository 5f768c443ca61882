-- ===== src/Collectors/Ipmi/Tests.antt =====
-- The listing of collectors/ipmi_test.go.
use rewsr_maxfields.Base.{
  ◌≡◌, refl, false, Option, none, some, [], ◌∷◌, map, Str, str, str_eq, nat_eq, length, keep, any,
}
use rewsr_maxfields.Base.Dict
use rewsr_maxfields.Base.Float.{Float64, zero_float, sixteen, ge_float, gt_float, is_nan}
use rewsr_maxfields.Base.Int.{pos}
use rewsr_maxfields.Text.Case.{to_lower}
use rewsr_maxfields.Text.Cut.{has_prefix, has_suffix, trim_prefix, trim_suffix}
use rewsr_maxfields.Text.Decimal.{atoi, unsigned, scan, positive}
use rewsr_maxfields.Text.Space.{trim_space}
use rewsr_maxfields.Text.Split.{split}
use rewsr_maxfields.Collectors.Host.{atoi_or_zero}
use rewsr_maxfields.Collectors.Ipmi.{
  columns_row, count_row, parse_chassis_power_status, parse_float_or_zero, type_reading, sdr_line,
  sdr_lines, parse_sdr_elist,
}
use rewsr_maxfields.Collectors.Ipmi.Sensors.{rows_of, is_failing, alarm, draws, parse_sdr_elist_lem}

abbrev parse_float : Str → Option Float64
parse_float [] = none
parse_float (c ∷ s) = some sixteen

abbrev listing : Str
listing =
    str
      "Fan1A | 30h | ok | 7.1 | 9240 RPM\nPwr | 77h | ok | 7.1 | 288 Watts\nPSU2 Status | 75h | cr | 10.2 | Failure detected\n"

power_status :
    (parse_chassis_power_status (str "Chassis Power is On\n") ≡ str "on")
    × (parse_chassis_power_status (str "Unable to get power") ≡ [])
unfolding parse_chassis_power_status to_lower trim_space has_prefix trim_prefix str
power_status = (refl, refl)

sensors : parse_sdr_elist parse_float listing ≡ record {
  temps_c = [];
  fans_rpm = (str "Fan1A", pos 9240) ∷ [];
  power_watts = sixteen;
  sensor_count = 3;
  not_ok = str "PSU2 Status: Failure detected" ∷ [];
}
unfolding parse_sdr_elist sdr_lines sdr_line columns_row count_row type_reading parse_float_or_zero
    gt_float is_nan has_suffix trim_suffix atoi_or_zero atoi unsigned scan positive split trim_space
    Dict.insert nat_eq str str_eq
sensors = refl

parse_sdr_elist_example :
    let rows = rows_of (split b'\n' listing) in
    let s = parse_sdr_elist parse_float listing in
    (s.sensor_count ≡ length rows)
    × (s.not_ok ≡ map alarm (keep is_failing rows))
    × ((x : Float64)
        → ge_float zero_float x ≡ false
        → ge_float s.power_watts x ≡ any (draws parse_float x) rows)
parse_sdr_elist_example = parse_sdr_elist_lem parse_float listing

-- ===== src/Collectors/Ipmi.antt =====
-- collectors/ipmi.go: the power state and the sensors that a BMC reports through `ipmitool`. The float that
-- `strconv.ParseFloat` reads is a parameter.
pub mod Sensors
mod Tests
use rewsr_maxfields.Base.{
  ℕ, suc, Bool, true, false, not, ◌&&◌, ◌||◌, Option, none, some, List, [], ◌∷◌, ◌++◌, Str, str,
  ◌==◌, str_eq, is_empty, ltb, if◌then◌else◌,
}
use rewsr_maxfields.Base.Dict.{insert}
use rewsr_maxfields.Base.Float.{Float64, zero_float, larger}
use rewsr_maxfields.Text.Case.{to_lower}
use rewsr_maxfields.Text.Cut.{has_prefix, has_suffix, trim_prefix, trim_suffix}
use rewsr_maxfields.Text.Space.{trim_space}
use rewsr_maxfields.Text.Split.{split}
use rewsr_maxfields.Facts.Types.{ServerFacts}
use rewsr_maxfields.Facts.Build.{Result, ok, err}
use rewsr_maxfields.Collectors.Host.{Host, Tools, observed, atoi_or_zero, require_command}
use rewsr_maxfields.Collectors.Sections.{BmcSensors, Section, bmc_sensors}

-- Behind the prefix, or empty where the output does not start with it.
unfoldable pub parse_chassis_power_status : Str → Str
parse_chassis_power_status out =
    let s = trim_space out in
    if not (has_prefix s (str "Chassis Power is "))
    then []
    else to_lower (trim_space (trim_prefix s (str "Chassis Power is ")))

abbrev pub is_ok_status : Str → Bool
is_ok_status status = status == str "ok" || status == str "ns"

abbrev pub no_sensors : BmcSensors
no_sensors = record {
  temps_c = [];
  fans_rpm = [];
  power_watts = zero_float;
  sensor_count = 0;
  not_ok = [];
}

-- A row of the listing: the first, third and fifth column, trimmed.
pub record Row : Type 0 where
  pub name : Str
  pub status : Str
  pub reading : Str

-- A line with fewer than five columns, or without a name, is no row.
unfoldable pub columns_row : List Str → Option Row
columns_row (a ∷ b ∷ c ∷ d ∷ e ∷ _) =
    if is_empty (trim_space a)
    then none
    else some (record { name = trim_space a; status = trim_space c; reading = trim_space e })
columns_row _ = none

abbrev pub value_before : Str → Str → Str
value_before reading unit = trim_space (trim_suffix reading unit)

unfoldable pub count_row : Row → BmcSensors → BmcSensors
count_row row s = record s {
  sensor_count = suc s.sensor_count;
  not_ok =
      if is_ok_status row.status
      then s.not_ok
      else s.not_ok ++ (row.name ++ (str ": " ++ row.reading)) ∷ [];
}

-- What the facts take over of each command; a failed one leaves nothing.
unfoldable pub read_power : Tools → Str
read_power t = elim (t.run (str "ipmitool") (str "chassis" ∷ str "power" ∷ str "status" ∷ [])) [
  | err e ↦ []
  | ok out ↦ parse_chassis_power_status out
]

module _ (parse_float : Str → Option Float64) where
  unfoldable pub parse_float_or_zero : Str → Float64
  parse_float_or_zero s = elim (parse_float (trim_space s)) [ none ↦ zero_float | some v ↦ v ]

  unfoldable pub type_reading : Row → BmcSensors → BmcSensors
  type_reading row s =
      if has_suffix row.reading (str "degrees C")
      then record s {
        temps_c =
            insert row.name (parse_float_or_zero (value_before row.reading (str "degrees C")))
              s.temps_c;
      }
      else if has_suffix row.reading (str "RPM")
      then record s {
        fans_rpm = insert row.name (atoi_or_zero (value_before row.reading (str "RPM"))) s.fans_rpm;
      }
      else if has_suffix row.reading (str "Watts")
      then record s {
        power_watts =
            larger (parse_float_or_zero (value_before row.reading (str "Watts"))) s.power_watts;
      }
      else s

  unfoldable pub sdr_line : Str → BmcSensors → BmcSensors
  sdr_line line s = elim (columns_row (split b'|' line)) [
    | none ↦ s
    | some row ↦ type_reading row (count_row row s)
  ]

  unfoldable pub sdr_lines : List Str → BmcSensors → BmcSensors
  sdr_lines [] s = s
  sdr_lines (line ∷ lines) s = sdr_lines lines (sdr_line line s)

  -- An empty map that is set to nil is the same map.
  unfoldable pub parse_sdr_elist : Str → BmcSensors
  parse_sdr_elist out = sdr_lines (split b'\n' out) no_sensors

  unfoldable pub read_sensors : Tools → BmcSensors
  read_sensors t = elim (t.run (str "ipmitool") (str "sdr" ∷ str "elist" ∷ [])) [
    | err e ↦ no_sensors
    | ok out ↦ parse_sdr_elist out
  ]

  abbrev pub has_sensors : Tools → Bool
  has_sensors t = ltb 0 (read_sensors t).sensor_count

  unfoldable pub report_ipmi : Tools → Host → Str → Option (ServerFacts Section) × Option Str
  report_ipmi t h server_id =
      let f = observed (str "ipmi") h server_id in
      let filled = record f {
        power_state = read_power t;
        raw =
            some (
              if has_sensors t then (str "bmc_sensors", bmc_sensors (read_sensors t)) ∷ [] else []);
      } in
      (
        some filled,
        if is_empty (read_power t) && not (has_sensors t)
            then some (str "ipmi collector: ipmitool present but no usable output (no local BMC?)")
            else none,
      )

  -- The report, unless the command is missing.
  unfoldable pub unless_missing :
      Option Str → Tools → Host → Str → Option (ServerFacts Section) × Option Str
  unless_missing (some e) t h server_id =
      (some (observed (str "ipmi") h server_id), some (str "ipmi collector: " ++ e))
  unless_missing none t h server_id = report_ipmi t h server_id

  unfoldable pub collect_ipmi :
      Option Tools → Host → Str → Option (ServerFacts Section) × Option Str
  collect_ipmi none h server_id = (
    some (observed (str "ipmi") h server_id),
    some (str "ipmi collector: no CommandRunner configured"),
  )
  collect_ipmi (some t) h server_id =
      unless_missing (require_command t (str "ipmitool")) t h server_id

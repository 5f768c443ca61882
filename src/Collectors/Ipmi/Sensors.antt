-- ===== src/Collectors/Ipmi/Sensors.antt =====
-- What the sensor listing of a BMC comes to, and what the collector reports of it.
use rewsr_maxfields.Base.{
  suc, ◌+◌, ◌≡◌, ◌↔◌, ◌∙◌, refl, sym, ap, Bool, true, false, not, ◌&&◌, ◌||◌, Option, none, some,
  List, [], ◌∷◌, ◌++◌, append-nil, append_assoc, arith, map, Str, str, str_eq, length, any, keep,
  is_empty, if◌then◌else◌,
}
use rewsr_maxfields.Base.Float.{
  Float64, zero_float, ge_float, is_nan, larger-is_nan, ge_float-larger, ge_float-zero,
}
use rewsr_maxfields.Text.Cut.{has_suffix}
use rewsr_maxfields.Text.Split.{split}
use rewsr_maxfields.Facts.Types.{ServerFacts}
use rewsr_maxfields.Collectors.Host.{Host, Tools, observed, require_command}
use rewsr_maxfields.Collectors.Sections.{BmcSensors, Section}
use rewsr_maxfields.Collectors.Ipmi.{
  is_ok_status, no_sensors, Row, columns_row, value_before, count_row, parse_float_or_zero,
  type_reading, sdr_line, sdr_lines, parse_sdr_elist, read_power, has_sensors, report_ipmi,
  unless_missing, collect_ipmi,
}

-- The rows of the lines, in order.
abbrev pub rows_of : List Str → List Row
rows_of [] = []
rows_of (line ∷ lines) =
    let rest = rows_of lines in
    elim (columns_row (split b'|' line)) [ none ↦ rest | some row ↦ row ∷ rest ]

abbrev pub is_failing : Row → Bool
is_failing row = not (is_ok_status row.status)

abbrev pub alarm : Row → Str
alarm row = row.name ++ (str ": " ++ row.reading)

module _ (parse_float : Str → Option Float64) where
  -- A reading in watts, and not one of the units before.
  abbrev pub is_watts : Row → Bool
  is_watts row =
      not (has_suffix row.reading (str "degrees C"))
      && not (has_suffix row.reading (str "RPM"))
      && has_suffix row.reading (str "Watts")

  abbrev pub watts : Row → Float64
  watts row = parse_float_or_zero parse_float (value_before row.reading (str "Watts"))

  abbrev pub draws : Float64 → Row → Bool
  draws x row = is_watts row && ge_float (watts row) x

  -- What a row changes.
  row_lem :
      (row : Row) (s : BmcSensors)
      → is_nan s.power_watts ≡ false
      → let r = type_reading parse_float row (count_row row s) in
        (r.sensor_count ≡ suc s.sensor_count)
        × (r.not_ok ≡ (if is_failing row then s.not_ok ++ alarm row ∷ [] else s.not_ok))
        × ((x : Float64) → ge_float r.power_watts x ≡ (ge_float s.power_watts x || draws x row))
        × (is_nan r.power_watts ≡ false)
  unfolding type_reading count_row
  row_lem row s h = (
    ground arith,
    ground arith,
    λ x. ground (arith, ge_float-larger (watts row) s.power_watts x h),
    ground (arith, larger-is_nan (watts row) s.power_watts h),
  )

  run_rows : List Row → BmcSensors → BmcSensors
  run_rows [] s = s
  run_rows (row ∷ rows) s = run_rows rows (type_reading parse_float row (count_row row s))

  sdr_lines-run_rows :
      (lines : List Str) (s : BmcSensors)
      → sdr_lines parse_float lines s ≡ run_rows (rows_of lines) s
  unfolding sdr_lines sdr_line run_rows
  sdr_lines-run_rows [] s = refl
  sdr_lines-run_rows (line ∷ lines) s =
      sdr_lines-run_rows lines _ ∙ go (columns_row (split b'|' line))
    where
      go :
          (row : Option Row)
          → run_rows
              (rows_of lines)
              (elim row [ none ↦ s | some row ↦ type_reading parse_float row (count_row row s) ])
            ≡ run_rows (elim row [ none ↦ rows_of lines | some row ↦ row ∷ rows_of lines ]) s
      go none = refl
      go (some row) = refl

  run_rows_lem :
      (rows : List Row) (s : BmcSensors)
      → is_nan s.power_watts ≡ false
      → let r = run_rows rows s in
        (r.sensor_count ≡ s.sensor_count + length rows)
        × (r.not_ok ≡ s.not_ok ++ map alarm (keep is_failing rows))
        × ((x : Float64)
            → ge_float r.power_watts x ≡ (ge_float s.power_watts x || any (draws x) rows))
  unfolding run_rows
  run_rows_lem [] s h = (omega arith, sym (append-nil s.not_ok), λ x. ground arith)
  run_rows_lem (row ∷ rows) s h =
      let (one, alarms, power, number) = row_lem row s h in
      let (count, all_alarms, all_power) =
        run_rows_lem rows (type_reading parse_float row (count_row row s)) number in
      (
        ground (arith, one, count),
        all_alarms ∙ ap (λ l. l ++ map alarm (keep is_failing rows)) alarms ∙ join (is_failing row),
        λ x. ground (arith, power x, all_power x),
      )
    where
      join :
          (b : Bool)
          → (if b then s.not_ok ++ alarm row ∷ [] else s.not_ok) ++ map alarm (keep is_failing rows)
            ≡ s.not_ok
              ++ map alarm
                  (elim b [ true ↦ row ∷ keep is_failing rows | false ↦ keep is_failing rows ])
      join true = append_assoc s.not_ok (alarm row ∷ []) (map alarm (keep is_failing rows))
      join false = refl

  -- The sensors of a listing: every row is counted, the alarms are those of the rows whose status is
  -- neither ok nor ns, in order and each as often as it stands there, and the power reaches a positive
  -- number exactly when one of the readings in watts does.
  pub parse_sdr_elist_lem :
      (out : Str)
      → let rows = rows_of (split b'\n' out) in
        let s = parse_sdr_elist parse_float out in
        (s.sensor_count ≡ length rows)
        × (s.not_ok ≡ map alarm (keep is_failing rows))
        × ((x : Float64)
            → ge_float zero_float x ≡ false
            → ge_float s.power_watts x ≡ any (draws x) rows)
  unfolding parse_sdr_elist
  parse_sdr_elist_lem out =
      let rows = rows_of (split b'\n' out) in
      let (count, alarms, power) = run_rows_lem rows no_sensors ge_float-zero.2 in
      rw (sdr_lines-run_rows (split b'\n' out) no_sensors)
        (omega (arith, count), alarms, λ x h. ground (arith, power x, h))

  -- What the collector returns, by whether the command is installed.
  abbrev pub IpmiReported :
      Tools → Option Str → Option (ServerFacts Section) × Option Str → ServerFacts Section → Type 0
  IpmiReported t (some e) r f = (r.1 ≡ some (str "ipmi collector: " ++ e)) × (f.power_state ≡ [])
  IpmiReported t none r f =
      ((r.1 ≡ none) ↔ ((not (is_empty (read_power t)) || has_sensors parse_float t) ≡ true))
      × (f.power_state ≡ read_power t)

  -- The IPMI collector always returns facts. With `ipmitool` it returns no error exactly when the power
  -- status names a state or the sensor listing has a row: one of the two suffices, and the state that it
  -- reports is that of the power status. Without the command it returns the error and no state.
  pub collect_ipmi_lem :
      (t : Tools) (h : Host) (id : Str)
      → (f : ServerFacts Section) × ((collect_ipmi parse_float (some t) h id).0 ≡ some f)
        × IpmiReported t
            (require_command t (str "ipmitool"))
            (collect_ipmi parse_float (some t) h id)
            f
  unfolding collect_ipmi unless_missing report_ipmi
  collect_ipmi_lem t h id = go (require_command t (str "ipmitool"))
    where
      go :
          (missing : Option Str)
          → let r = unless_missing parse_float missing t h id in
            (f : ServerFacts Section) × (r.0 ≡ some f) × IpmiReported t missing r f
      go (some e) = (_, refl, (refl, unfold observed in refl))
      go none = (_, refl, (ground arith, refl))

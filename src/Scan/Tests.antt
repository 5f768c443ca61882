-- ===== src/Scan/Tests.antt =====
-- The command line and a scan at small data.
use rewsr_maxfields.Base.{
  ◌≡◌, ◌≢◌, ◌++◌, contains, refl, true, false, some, List, [], ◌∷◌, Str, str, str_eq, nat_eq,
}
use rewsr_maxfields.Base.Int.{pos}
use rewsr_maxfields.Text.Cut.{cut, has_prefix}
use rewsr_maxfields.Text.Split.{join}
use rewsr_maxfields.Text.Decimal.{itoa, emit}
use rewsr_maxfields.Text.Sort.{sort, str_leb}
use rewsr_maxfields.Facts.Types.{ServerFacts, Time, zero_facts}
use rewsr_maxfields.Facts.Build.{Result, ok, build_server_facts}
use rewsr_maxfields.Collectors.Sections.{Section}
use rewsr_maxfields.Collectors.Lldp.{list_neighbors}
use rewsr_maxfields.Collectors.Wiring.{scan_collectors}
use rewsr_maxfields.Collectors.Wiring.Wave2.{ipmi_power, lldp_domain}
use rewsr_maxfields.Collectors.Wiring.Fixture.{machine}
use rewsr_maxfields.Scan.{scan, main, host_name, run_scan}
use rewsr_maxfields.Scan.Flags.{
  flags, wants_help, bad_flag, unset, name_word, flag_word, parse_bool, flag_value, set_flag,
  take_flag, parse_flags,
}
use rewsr_maxfields.Scan.Report.{
  or_na, capability_lines, cpu_line, had_hardware, hardware_lines, print_facts_report,
}
use rewsr_maxfields.Scan.Command.{is_flagged, Word, main_lem}
use rewsr_maxfields.Scan.Facts.{Prints, run_scan_lem}

abbrev format : Time → Str
format t = str "now"

abbrev encode : ServerFacts Section → Result Str
encode f = ok f.server_id

json_flag :
    parse_flags unset (str "--json" ∷ []) ≡ flags (record { as_json = true; verbose = false })
unfolding parse_flags flag_word name_word take_flag set_flag flag_value parse_bool cut str str_eq
    nat_eq
json_flag = refl

-- A flag with a value, a word that ends the flags, and one behind it that is not read.
some_flags :
    parse_flags unset (str "-verbose=T" ∷ str "-" ∷ str "-json" ∷ [])
    ≡ flags (record { as_json = false; verbose = true })
unfolding parse_flags flag_word name_word take_flag set_flag flag_value parse_bool cut str str_eq
    nat_eq
some_flags = refl

other_flags :
    (parse_flags unset (str "-h" ∷ []) ≡ wants_help)
    × (parse_flags unset (str "--json=yes" ∷ []) ≡ bad_flag)
    × (parse_flags unset (str "---json" ∷ []) ≡ bad_flag)
unfolding parse_flags flag_word name_word take_flag set_flag flag_value parse_bool cut str str_eq
    nat_eq
other_flags = (refl, refl, refl)

abbrev small : ServerFacts Section
small = record zero_facts {
  server_id = str "a";
  memory_gb = pos 64;
  capabilities = str "sriov" ∷ str "gpu" ∷ [];
}

report :
    print_facts_report format small
    ≡ str "rewsr-maxfields  a"
      ∷ str "  scanned now   health=n/a"
      ∷ []
      ∷ str "  Memory   64 GB"
      ∷ []
      ∷ str "  Capabilities  gpu  sriov"
      ∷ []
      ∷ []
unfolding print_facts_report hardware_lines had_hardware cpu_line capability_lines or_na join itoa
    emit sort str str_leb nat_eq
report = refl

main_example :
    (is_flagged (str "-h" ∷ []) ≡ true → main (str "-h" ∷ []) ≡ scan (str "-h" ∷ []))
    × ((a : Str) (rest : List Str)
        → ◌≡◌ {A = List Str} (str "-h" ∷ []) (a ∷ rest)
        → has_prefix a (str "-") ≡ false
        → Word a (main (str "-h" ∷ [])) rest)
main_example = main_lem (str "-h" ∷ [])

run_scan_example :
    (f : ServerFacts Section) × (build_server_facts 9 (host_name []) (scan_collectors machine)
      ≡ ok f)
    × Prints format encode f
        (record { as_json = true; verbose = false })
        (run_scan format encode [] machine 9 (str "--json" ∷ []))
    × (f.server_id ≡ host_name [])
    × (f.observed_at ≡ 9)
    × (f.power_state ≡ ipmi_power machine.tools)
    × (f.failure_domain ≡ lldp_domain (list_neighbors machine.lldp (some machine.tools)))
    × (f.provisioning ≡ [])
    × (f.capabilities ≢ []
        → contains
            (str "  Capabilities  " ++ join (str "  ") f.capabilities)
            (print_facts_report format f)
          ≡ true)
run_scan_example = run_scan_lem format encode [] machine 9 (str "--json" ∷ []) json_flag

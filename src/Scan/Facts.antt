-- ===== src/Scan/Facts.antt =====
-- What a scan of the local host prints.
use mathlib.Core.Path.{subst}
use rewsr_maxfields.Base.{
  ◌≢◌, refl, ◌++◌, sym, true, false, str, str_eq, contains, contains-append, ==_refl, ◌≡◌, ◌∙◌,
  some, List, [], ◌∷◌, arith, Str,
}
use rewsr_maxfields.Text.Sort.{sort_sorted, IsSorted}
use rewsr_maxfields.Text.Split.{join}
use rewsr_maxfields.Scan.Report.{print_facts_report, capability_lines, hardware_lines}
use rewsr_maxfields.Facts.Types.{ServerFacts, Time}
use rewsr_maxfields.Facts.Build.{Result, ok, err, build_server_facts}
use rewsr_maxfields.Facts.Build.Unions.{build_server_facts-ok}
use rewsr_maxfields.Collectors.Sections.{Section}
use rewsr_maxfields.Collectors.Lldp.{list_neighbors}
use rewsr_maxfields.Collectors.Wiring.{Machine, scan_collectors}
use rewsr_maxfields.Collectors.Wiring.Silent.{IsSilent-linux_host}
use rewsr_maxfields.Collectors.Wiring.States.{build_states, IsBuilt}
use rewsr_maxfields.Collectors.Wiring.Wave2.{
  nothing, ipmi_power, lldp_domain, wave2_states, wave2-Answers,
}
use rewsr_maxfields.Collectors.Wiring.Authority.{first_one}
use rewsr_maxfields.Scan.{
  Output, printed, exited, print_json, run_scan, print_scan, facts_or_id, host_name,
}
use rewsr_maxfields.Scan.Flags.{ScanFlags, flags, unset, parse_flags}

scanned :
    (m : Machine) (now : Time) (id : Str)
    → IsBuilt id (nothing ∷ wave2_states m) (build_server_facts now id (scan_collectors m))
unfolding scan_collectors
scanned m now id =
    build_states now id _ nothing (wave2_states m)
      (IsSilent-linux_host m.host id m.inputs m.tools, wave2-Answers m id)

behind : (x : Str) (xs ys : List Str) → contains x ys ≡ true → contains x (xs ++ ys) ≡ true
behind x xs ys h = ground (arith, contains-append x xs ys, h)

ahead : (x : Str) (xs ys : List Str) → contains x xs ≡ true → contains x (xs ++ ys) ≡ true
ahead x xs ys h = ground (arith, contains-append x xs ys, h)

capability_lines_lem :
    (caps : List Str)
    → IsSorted caps
    → caps ≢ []
    → contains (str "  Capabilities  " ++ join (str "  ") caps) (capability_lines caps) ≡ true
unfolding capability_lines
capability_lines_lem [] sorted full = absurd (full refl)
capability_lines_lem (c ∷ cs) sorted full =
    rw (sort_sorted (c ∷ cs) sorted)
      (ground (arith, ==_refl (str "  Capabilities  " ++ join (str "  ") (c ∷ cs))))

module _ (format : Time → Str) (encode : ServerFacts Section → Result Str) where
  -- What is printed of facts: with `json` the text of the encoder, or nothing and exit code 1 where it fails;
  -- without it the report.
  abbrev pub Prints : ServerFacts Section → ScanFlags → Output → Type 0
  Prints f fl out =
      (fl.as_json ≡ false → out ≡ printed (print_facts_report format f))
      × ((text : Str) → fl.as_json ≡ true → encode f ≡ ok text → out ≡ printed (text ∷ []))
      × ((e : Str) → fl.as_json ≡ true → encode f ≡ err e → out ≡ exited 1)

  print_scan-Prints :
      (f : ServerFacts Section) (fl : ScanFlags)
      → Prints f fl (print_scan format encode fl.as_json f)
  unfolding print_scan print_json
  print_scan-Prints f fl = (λ e. rw e refl, (λ text e h. rw (e, h) refl), λ x e h. rw (e, h) refl)

  -- The line of the capabilities stands in the report.
  capability_line :
      (f : ServerFacts Section)
      → IsSorted f.capabilities
      → f.capabilities ≢ []
      → contains
          (str "  Capabilities  " ++ join (str "  ") f.capabilities)
          (print_facts_report format f)
        ≡ true
  unfolding print_facts_report
  capability_line f sorted full =
      let line : Str = str "  Capabilities  " ++ join (str "  ") f.capabilities in
      behind line (_ ∷ _ ∷ []) _ (
        behind line _ _ (
          behind line (hardware_lines f) _ (
            behind line ([] ∷ []) _ (
              ahead line (capability_lines f.capabilities) _
                (capability_lines_lem f.capabilities sorted full)))))

  run_scan_flags :
      (hostname : Str) (m : Machine) (now : Time) (args : List Str) {fl : ScanFlags}
      {f : ServerFacts Section}
      → parse_flags unset args ≡ flags fl
      → build_server_facts now (host_name hostname) (scan_collectors m) ≡ ok f
      → run_scan format encode hostname m now args ≡ print_scan format encode fl.as_json f
  unfolding run_scan facts_or_id
  run_scan_flags hostname m now args h built = ground (arith, h, built)

  -- A scan whose flags can be read never falls back to facts with nothing but an id, whatever the host
  -- and its commands answer: the build succeeds. Without `json` the report of what it builds is printed;
  -- with it the text of the encoder, or nothing, with exit code 1, where the encoder fails. The facts are
  -- of the local host and of now, their power state is what `ipmitool` prints, their failure domain is the
  -- switch of LLDP, and they have no provisioning state. Where they have capabilities, a line of the report
  -- lists all of them in their order.
  pub run_scan_lem :
      (hostname : Str) (m : Machine) (now : Time) (args : List Str) {fl : ScanFlags}
      → parse_flags unset args ≡ flags fl
      → (f : ServerFacts Section) × (build_server_facts now (host_name hostname) (scan_collectors m)
          ≡ ok f)
        × Prints f fl (run_scan format encode hostname m now args)
        × (f.server_id ≡ host_name hostname)
        × (f.observed_at ≡ now)
        × (f.power_state ≡ ipmi_power m.tools)
        × (f.failure_domain ≡ lldp_domain (list_neighbors m.lldp (some m.tools)))
        × (f.provisioning ≡ [])
        × (f.capabilities ≢ []
            → contains
                (str "  Capabilities  " ++ join (str "  ") f.capabilities)
                (print_facts_report format f)
              ≡ true)
  run_scan_lem hostname m now args {fl} h =
      let host = host_name hostname in
      let (f, built, power, provisioning, domain) = scanned m now host in
      let (named, timed, _, sorted, _, _, _, _) =
        build_server_facts-ok now host (scan_collectors m) built in
      (
        f,
        built,
        subst (Prints f fl) (sym (run_scan_flags hostname m now args h built))
            (print_scan-Prints f fl),
        named,
        timed,
        power ∙ first_one (ipmi_power m.tools),
        domain ∙ first_one (lldp_domain (list_neighbors m.lldp (some m.tools))),
        provisioning,
        capability_line f sorted,
      )

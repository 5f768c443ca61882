-- ===== src/Scan.antt =====
-- cmd/rewsr-maxfields/main.go: the command line, and the scan of the local host.
pub mod Flags
pub mod Report
pub mod Command
pub mod Facts
mod Tests
use rewsr_maxfields.Base.{
  ℕ, Bool, true, false, List, [], ◌∷◌, ◌++◌, Str, str, ◌==◌, str_eq, is_empty, if◌then◌else◌,
}
use rewsr_maxfields.Text.Cut.{has_prefix}
use rewsr_maxfields.Facts.Types.{ServerFacts, Time, zero_facts}
use rewsr_maxfields.Facts.Build.{Result, ok, err, build_server_facts}
use rewsr_maxfields.Collectors.Sections.{Section}
use rewsr_maxfields.Collectors.Wiring.{Machine, scan_collectors}
use rewsr_maxfields.Scan.Flags.{ScanFlags, Parsed, flags, wants_help, bad_flag, unset, parse_flags}
use rewsr_maxfields.Scan.Report.{print_facts_report}

-- What `main` does: scan with arguments, serve, or print the usage text behind some lines and end with an
-- exit code.
pub data Action : Type 0 where
  scan : List Str → Action
  serve : Action
  show_usage : List Str → ℕ → Action

-- The line for an unknown command, and an empty one.
unfoldable pub complaint : Str → List Str
complaint cmd = (str "unknown command: " ++ cmd) ∷ [] ∷ []

-- The command and its arguments: a flag in front stands for a scan.
unfoldable pub command : List Str → Str × List Str
command [] = (str "scan", [])
command (a ∷ args) = if has_prefix a (str "-") then (str "scan", a ∷ args) else (a, args)

-- The switch of `main`.
unfoldable pub dispatch : Str → List Str → Action
dispatch cmd args =
    if cmd == str "scan"
    then scan args
    else if cmd == str "serve"
    then serve
    else if cmd == str "-h"
    then show_usage [] 0
    else if cmd == str "--help"
    then show_usage [] 0
    else if cmd == str "help"
    then show_usage [] 0
    else show_usage (complaint cmd) 1

unfoldable pub main : List Str → Action
main args = dispatch (command args).0 (command args).1

-- What a scan prints, or the code that it exits with. A help text and a complaint about a flag are left
-- to the flag package.
pub data Output : Type 0 where
  printed : List Str → Output
  exited : ℕ → Output

-- `os.Hostname`, or "localhost".
unfoldable pub host_name : Str → Str
host_name host = if is_empty host then str "localhost" else host

-- What is built, or facts with nothing but the id.
unfoldable pub facts_or_id : Str → Result (ServerFacts Section) → ServerFacts Section
facts_or_id host (ok f) = f
facts_or_id host (err e) = record zero_facts { server_id = host }

-- `printJSON`, over the text or the error of the encoder.
unfoldable pub print_json : Result Str → Output
print_json (ok text) = printed (text ∷ [])
print_json (err e) = exited 1

module _ (format : Time → Str) (encode : ServerFacts Section → Result Str) where
  unfoldable pub print_scan : Bool → ServerFacts Section → Output
  print_scan true f = print_json (encode f)
  print_scan false f = printed (print_facts_report format f)

  -- `format` prints a time in RFC 3339. The flag `verbose` concerns the log only.
  unfoldable pub run_scan : Str → Machine → Time → List Str → Output
  run_scan hostname m now args = elim (parse_flags unset args) [
    | wants_help ↦ exited 0
    | bad_flag ↦ exited 2
    | flags fl ↦
        let host = host_name hostname in
        print_scan fl.as_json (facts_or_id host (build_server_facts now host (scan_collectors m)))
  ]

-- ===== src/Collectors/Redfish.antt =====
-- collectors/redfish.go: the power state of a server from its BMC over HTTP, and the demo answer where the
-- BMC cannot be reached. `net/http` and the decoding of the body are parameters.
use rewsr_maxfields.Base.{
  true, not, Option, none, some, List, [], ◌∷◌, ◌++◌, Str, str, ◌==◌, is_empty, if◌then◌else◌,
}
use rewsr_maxfields.Base.Int.{ℤ, pos, int_eq}
use rewsr_maxfields.Text.Case.{to_lower}
use rewsr_maxfields.Text.Cut.{trim_right_at}
use rewsr_maxfields.Text.Decimal.{itoa}
use rewsr_maxfields.Facts.Types.{ServerFacts, Time, zero_facts}
use rewsr_maxfields.Facts.Build.{Result, ok, err}
use rewsr_maxfields.Collectors.Sections.{Section, words, switched}

pub record RedfishSystem : Type 0 where
  pub power_state : Str
  pub manufacturer : Str
  pub model : Str
  pub serial_number : Str
  pub health : Str
  pub state : Str

-- The error of building a request, what sending it with its headers gives, the status and the body, and
-- the decoded body.
pub record Http : Type 0 where
  pub request : Str → Option Str
  pub send : Str → List (Str × Str) → Result (ℤ × Str)
  pub decode : Str → Result RedfishSystem

unfoldable pub system_url : Str → Str → Str
system_url base_url server_id =
    trim_right_at b'/' base_url ++ (str "/redfish/v1/Systems/" ++ server_id)

unfoldable pub headers : Str → List (Str × Str)
headers token =
    (if not (is_empty token) then (str "Authorization", str "Bearer " ++ token) ∷ [] else [])
    ++ (str "Accept", str "application/json") ∷ []

-- The system, or the error, which says that the answer is the demo.
unfoldable pub fetch_system : Http → Str → Str → Result RedfishSystem
fetch_system http url token = elim (http.request url) [
  | some e ↦ err (
      str "redfish: building request for "
      ++ (url ++ (str ": " ++ (e ++ str " (using demo fallback)"))))
  | none ↦ elim (http.send url (headers token)) [
    | err e ↦
        err (
          str "redfish: " ++ (url ++ (str " unreachable: " ++ (e ++ str " (using demo fallback)"))))
    | ok (status, body) ↦
        if not (status == pos 200)
        then err (
            str "redfish: "
            ++ (url ++ (str " returned status " ++ (itoa status ++ str " (using demo fallback)"))))
        else elim (http.decode body) [
          | err e ↦ err (
              str "redfish: decoding response from "
              ++ (url ++ (str ": " ++ (e ++ str " (using demo fallback)"))))
          | ok sys ↦ ok sys
        ]
  ]
]

unfoldable pub demo_redfish_facts : Time → Str → ServerFacts Section
demo_redfish_facts now server_id = record zero_facts {
  server_id = server_id;
  source = str "redfish_demo";
  observed_at = now;
  power_state = str "on";
  raw = some (
      (str "vendor", words (str "Demo Vendor"))
      ∷ (str "model", words (str "Demo Model X1"))
      ∷ (str "serial_number", words (str "DEMO-SERIAL-0000"))
      ∷ (str "demo_mode", switched true)
      ∷ (
        str "demo_reason",
        words (str "no reachable Redfish/BMC endpoint in this build environment"),
      )
      ∷ []);
}

unfoldable pub redfish_facts : Time → Str → RedfishSystem → ServerFacts Section
redfish_facts now server_id sys = record zero_facts {
  server_id = server_id;
  source = str "redfish";
  observed_at = now;
  power_state = to_lower sys.power_state;
  raw = some (
      (str "vendor", words sys.manufacturer)
      ∷ (str "model", words sys.model)
      ∷ (str "serial_number", words sys.serial_number)
      ∷ (str "redfish_health", words sys.health)
      ∷ (str "redfish_state", words sys.state)
      ∷ []);
}

unfoldable pub answer_redfish :
    Result RedfishSystem → Time → Str → Option (ServerFacts Section) × Option Str
answer_redfish (err e) now server_id = (some (demo_redfish_facts now server_id), some e)
answer_redfish (ok sys) now server_id = (some (redfish_facts now server_id sys), none)

unfoldable pub collect_redfish :
    Http → Str → Str → Time → Str → Option (ServerFacts Section) × Option Str
collect_redfish http base_url token now server_id =
    answer_redfish (fetch_system http (system_url base_url server_id) token) now server_id

-- ===== src/Collectors/Wiring/Tests.antt =====
-- The collectors of `serve` on a machine whose Redfish endpoint does not answer.
use rewsr_maxfields.Base.{◌≡◌, refl, none, some, [], ◌∷◌, Str, str, str_eq, is_empty}
use rewsr_maxfields.Base.Dict
use rewsr_maxfields.Text.Case.{to_lower}
use rewsr_maxfields.Text.Cut.{has_prefix, trim_prefix}
use rewsr_maxfields.Text.Space.{trim_space}
use rewsr_maxfields.Facts.Types.{ServerFacts}
use rewsr_maxfields.Facts.Build.{Result, ok, err, build_server_facts}
use rewsr_maxfields.Facts.Build.Gaps.{first_set}
use rewsr_maxfields.Collectors.Host.{require_command}
use rewsr_maxfields.Collectors.Sections.{Section}
use rewsr_maxfields.Collectors.Ipmi.{parse_chassis_power_status, read_power}
use rewsr_maxfields.Collectors.Lldp.{list_neighbors}
use rewsr_maxfields.Collectors.Redfish.{Http}
use rewsr_maxfields.Collectors.Wiring.{build_collectors}
use rewsr_maxfields.Collectors.Wiring.Fixture.{machine}
use rewsr_maxfields.Collectors.Wiring.Wave2.{ipmi_power, lldp_domain}
use rewsr_maxfields.Collectors.Wiring.Authority.{
  redfish_power, redfish_answer, build_server_facts-build_collectors,
}

abbrev unreachable : Http
unreachable = record {
  request = λ url. none;
  send = λ url headers. err (str "connection refused");
  decode = λ body. err (str "no body");
}

abbrev env : Str → Str
env key = []

abbrev get : Str → Result (Str × Str)
get id = ok (str "provisioned", str "fd-1")

-- What the local BMC says.
power_is_off : ipmi_power machine.tools ≡ str "off"
unfolding require_command read_power parse_chassis_power_status to_lower trim_space has_prefix
    trim_prefix Dict.lookup str_eq str
power_is_off = refl

build_server_facts-build_collectors_example :
    (f : ServerFacts Section) × (build_server_facts 9
        (str "srv-1")
        (build_collectors env unreachable get machine)
      ≡ ok f)
    × (f.power_state
        ≡ first_set is_empty [] (
            redfish_power (redfish_answer env unreachable get machine 9 (str "srv-1"))
            ∷ ipmi_power machine.tools
            ∷ []))
    × (f.provisioning ≡ str "provisioned")
    × (f.failure_domain
        ≡ first_set is_empty []
            (str "fd-1" ∷ lldp_domain (list_neighbors machine.lldp (some machine.tools)) ∷ []))
build_server_facts-build_collectors_example =
    build_server_facts-build_collectors env unreachable get machine 9 (str "srv-1")

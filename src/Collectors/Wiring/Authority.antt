-- ===== src/Collectors/Wiring/Authority.antt =====
-- Which source has the last word on a server that `serve` collects.
use rewsr_maxfields.Base.{◌≡◌, ◌∙◌, refl, some, List, [], ◌∷◌, arith, Str, str, is_empty}
use rewsr_maxfields.Text.Case.{to_lower}
use rewsr_maxfields.Facts.Types.{ServerFacts, Time}
use rewsr_maxfields.Facts.Build.{Result, ok, err, build_server_facts}
use rewsr_maxfields.Facts.Build.Gaps.{first_set}
use rewsr_maxfields.Serve.{env_or}
use rewsr_maxfields.Collectors.Host.{Host}
use rewsr_maxfields.Collectors.Sections.{Section}
use rewsr_maxfields.Collectors.Lldp.{list_neighbors}
use rewsr_maxfields.Collectors.Redfish.{
  RedfishSystem, Http, system_url, fetch_system, demo_redfish_facts, redfish_facts, answer_redfish,
  collect_redfish,
}
use rewsr_maxfields.Collectors.Provisioned.{collect_provisioning}
use rewsr_maxfields.Collectors.Wiring.{Machine, build_collectors}
use rewsr_maxfields.Collectors.Wiring.Silent.{States, states_of, IsSilent-linux_host}
use rewsr_maxfields.Collectors.Wiring.Wave2.{
  nothing, ipmi_power, lldp_domain, wave2_states, wave2-Answers,
}
use rewsr_maxfields.Collectors.Wiring.States.{build_states, IsBuilt}

-- The power state in the Redfish answer; without one it is that of the demo.
abbrev pub redfish_power : Result RedfishSystem → Str
redfish_power (err e) = str "on"
redfish_power (ok sys) = to_lower sys.power_state

-- The record of the provisioning store, if it can be read.
abbrev pub provisioned : Result (Str × Str) → Str × Str
provisioned (err e) = ([], [])
provisioned (ok r) = r

module _ (h : Host) (id : Str) where
  redfish_states :
      (http : Http) (base_url token : Str) (now : Time)
      → states_of (collect_redfish http base_url token now id).0
        ≡ some (redfish_power (fetch_system http (system_url base_url id) token), [], [])
  unfolding collect_redfish answer_redfish demo_redfish_facts redfish_facts
  redfish_states http base_url token now = ground arith

  provisioning_states :
      (now : Time) (get : Str → Result (Str × Str))
      → states_of (collect_provisioning now (some get) id).0
        ≡ some ([], (provisioned (get id)).0, (provisioned (get id)).1)
  unfolding collect_provisioning
  provisioning_states now get = ground arith

pub first_one : (s : Str) → first_set is_empty [] (s ∷ []) ≡ s
first_one [] = refl
first_one (c ∷ s) = refl

module _ (env : Str → Str) (http : Http) (get : Str → Result (Str × Str)) (m : Machine) (now : Time)
    (id : Str) where
  -- The answer of the Redfish endpoint that the environment names.
  abbrev pub redfish_answer : Result RedfishSystem
  redfish_answer =
      fetch_system http
        (system_url
          (env_or env (str "REWSR_MAXFIELDS_REDFISH_BASE_URL") (str "https://localhost:8443")) id)
        (env (str "REWSR_MAXFIELDS_REDFISH_TOKEN"))

  -- The states behind those of the host collector, which has none.
  abbrev answered : List States
  answered =
      (redfish_power redfish_answer, [], [])
      ∷ ([], (provisioned (get id)).0, (provisioned (get id)).1)
      ∷ wave2_states m

  built :
      IsBuilt id (nothing ∷ answered) (build_server_facts now id (build_collectors env http get m))
  unfolding build_collectors
  built = build_states now id _ nothing answered (
    IsSilent-linux_host m.host id m.inputs m.tools,
    (
      redfish_states m.host id http _ _ _,
      (provisioning_states m.host id _ get, wave2-Answers m id),
    ),
  )

  -- A build with the collectors of `serve` never fails, whatever the host, its commands, the BMC and the
  -- store answer. Its power state is that of the Redfish answer, which is "on" where there is no valid
  -- answer, and what `ipmitool` prints only where Redfish names none; its provisioning state is that of
  -- the store; its failure domain is that of the store, and the switch of LLDP only where the store has
  -- none.
  pub build_server_facts-build_collectors :
      (f : ServerFacts Section) × (build_server_facts now id (build_collectors env http get m)
        ≡ ok f)
      × (f.power_state
          ≡ first_set is_empty [] (redfish_power redfish_answer ∷ ipmi_power m.tools ∷ []))
      × (f.provisioning ≡ (provisioned (get id)).0)
      × (f.failure_domain
          ≡ first_set is_empty []
              ((provisioned (get id)).1 ∷ lldp_domain (list_neighbors m.lldp (some m.tools)) ∷ []))
  build_server_facts-build_collectors =
      let (f, r, power, provisioning, domain) = built in
      (f, r, power, provisioning ∙ first_one (provisioned (get id)).0, domain)

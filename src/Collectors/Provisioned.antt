-- ===== src/Collectors/Provisioned.antt =====
-- collectors/provisioning.go: the collector that reads the provisioning store.
use rewsr_maxfields.Base.{
  ◌≡◌, ◌≢◌, refl, Option, none, some, [], ◌∷◌, ◌++◌, arith, Str, str, str_eq, ==_refl, ◌∙◌,
}
use rewsr_maxfields.Facts.Types.{ServerFacts, Time, zero_facts}
use rewsr_maxfields.Facts.Build.{Result, ok, err}
use rewsr_maxfields.Store.Provisioning.{
  Provisions, get_provisioning, set_provisioning, get_provisioning-set_provisioning,
}

-- The store is nil or what `GetProvisioning` answers.
unfoldable pub collect_provisioning :
    {V : Type 0}
    → Time
    → Option (Str → Result (Str × Str))
    → Str
    → Option (ServerFacts V) × Option Str
collect_provisioning now none server_id = (
  some (record zero_facts { server_id = server_id; source = str "provisioning_store" }),
  some (str "provisioning collector: no ProvisioningStore configured"),
)
collect_provisioning now (some get) server_id = elim (get server_id) [
  | err e ↦ (
    some (record zero_facts { server_id = server_id; source = str "provisioning_store" }),
    some (str "provisioning collector: " ++ e),
  )
  | ok (provisioning, failure_domain) ↦ (
    some (record zero_facts {
      server_id = server_id;
      source = str "provisioning_store";
      observed_at = now;
      provisioning = provisioning;
      failure_domain = failure_domain;
    }),
    none,
  )
]

set_then_get :
    (at : Time) (t : Provisions) (id provisioning failure_domain : Str)
    → id ≢ []
    → get_provisioning none (set_provisioning at none t id provisioning failure_domain).1 id
      ≡ ok (provisioning, failure_domain)
set_then_get at t [] p d named = absurd (named refl)
set_then_get at t (c ∷ id) p d named =
    get_provisioning-set_provisioning at none t (c ∷ id) p d (c ∷ id)
    ∙ ground (arith, ==_refl (c ∷ id))

-- What the control plane sets for a server with an id is what the collector then reports of it, without
-- an error; the facts carry nothing else but the id, the source and the time of the observation.
pub collect_provisioning-set_provisioning :
    {V : Type 0} (now at : Time) (t : Provisions) (id provisioning failure_domain : Str)
    → id ≢ []
    → collect_provisioning {V = V} now
        (some (get_provisioning none (set_provisioning at none t id provisioning failure_domain).1))
        id
      ≡ (
        some (record zero_facts {
          server_id = id;
          source = str "provisioning_store";
          observed_at = now;
          provisioning = provisioning;
          failure_domain = failure_domain;
        }),
        none,
      )
unfolding collect_provisioning
collect_provisioning-set_provisioning now at t id p d named =
    ground (arith, set_then_get at t id p d named)

-- ===== src/Store/Provisioning.antt =====
-- store/provisioning.go: one row for each server, written by the control plane.
use rewsr_maxfields.Base.{
  ◌≡◌, refl, Option, none, some, [], ◌∷◌, ◌++◌, arith, Str, str, ◌==◌, str_eq, is_empty,
  if◌then◌else◌,
}
use rewsr_maxfields.Base.Dict.{Dict, lookup, insert, lookup-insert}
use rewsr_maxfields.Facts.Types.{Time}
use rewsr_maxfields.Facts.Build.{Result, ok, err}
use rewsr_maxfields.Store.{wrap_error}

-- The columns behind the primary key.
pub record Provision : Type 0 where
  pub provisioning : Str
  pub failure_domain : Str
  pub updated_at : Time

-- `provisioning_state`, by server id.
abbrev pub Provisions : Type 0
Provisions = Dict Str Provision

-- `failure` is the error of the query, if it fails.
unfoldable pub get_provisioning : Option Str → Provisions → Str → Result (Str × Str)
get_provisioning (some e) t server_id =
    err (wrap_error (str "store: querying provisioning state for ") server_id e)
get_provisioning none t server_id = elim (lookup server_id t) [
  | none ↦ err (str "store: no provisioning record for server " ++ server_id)
  | some p ↦ ok (p.provisioning, p.failure_domain)
]

-- INSERT … ON CONFLICT(server_id) DO UPDATE SET …; `failure` is its error, if it fails.
unfoldable pub set_provisioning :
    Time → Option Str → Provisions → Str → Str → Str → Result (Unit {0}) × Provisions
set_provisioning now failure t [] provisioning failure_domain =
    (err (str "store: SetProvisioning called with empty serverID"), t)
set_provisioning now (some e) t (c ∷ server_id) provisioning failure_domain =
    (err (wrap_error (str "store: saving provisioning state for ") (c ∷ server_id) e), t)
set_provisioning now none t (c ∷ server_id) provisioning failure_domain = (
  ok tt,
  insert (c ∷ server_id)
      (record { provisioning = provisioning; failure_domain = failure_domain; updated_at = now }) t,
)

-- A server with an id that was set reads back what was set last; every other server reads what it read
-- before; and where the id is empty or the database fails, nothing changes for any server.
pub get_provisioning-set_provisioning :
    (now : Time) (failure : Option Str) (t : Provisions)
    (id provisioning failure_domain other : Str)
    → get_provisioning none (set_provisioning now failure t id provisioning failure_domain).1 other
      ≡ elim failure [
        | some _ ↦ get_provisioning none t other
        | none ↦
            if is_empty id
            then get_provisioning none t other
            else if other == id
            then ok (provisioning, failure_domain)
            else get_provisioning none t other
      ]
unfolding get_provisioning set_provisioning
get_provisioning-set_provisioning now none t [] p d other = refl
get_provisioning-set_provisioning now (some e) t [] p d other = refl
get_provisioning-set_provisioning now (some e) t (c ∷ id) p d other = refl
get_provisioning-set_provisioning now none t (c ∷ id) p d other =
    let row : Provision = record { provisioning = p; failure_domain = d; updated_at = now } in
    ground (arith, lookup-insert other (c ∷ id) row t)

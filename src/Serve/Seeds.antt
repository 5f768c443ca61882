-- ===== src/Serve/Seeds.antt =====
-- What seeding leaves in the provisioning store, and the list of servers in the environment.
use rewsr_maxfields.Base.{
  ◌≡◌, ◌∙◌, Bool, true, false, not, ◌&&◌, none, List, [], ◌∷◌, arith, Str, str, ◌==◌, str_eq,
  is_empty, contains,
}
use rewsr_maxfields.Facts.Types.{Time}
use rewsr_maxfields.Facts.Build.{Result, ok, err}
use rewsr_maxfields.Store.Provisioning.{
  Provisions, get_provisioning, get_provisioning-set_provisioning,
}
use rewsr_maxfields.Serve.{seed_one, seed}

-- The answer for a server after seeding one.
abbrev pub or_seeded : Bool → Result (Str × Str) → Result (Str × Str)
or_seeded seeded (ok p) = ok p
or_seeded true (err e) = ok (str "provisioned", str "demo-fd-1")
or_seeded false (err e) = err e

seed_one_lem :
    (now : Time) (id other : Str) (t : Provisions)
    → get_provisioning none (seed_one now none none id t) other
      ≡ or_seeded (other == id && not (is_empty id)) (get_provisioning none t other)
unfolding seed_one
seed_one_lem now id other t = ground (
  arith,
  get_provisioning-set_provisioning now none t id (str "provisioned") (str "demo-fd-1") other,
)

-- A server id that the list has, and that is not empty.
abbrev pub is_seeded : Str → List Str → Bool
is_seeded id ids = contains id ids && not (is_empty id)

-- Seeding never changes a record that is there. A server without one reads the demo record afterwards
-- if it is in the list with an id that is not empty, and otherwise still reads what it read before.
pub seed_lem :
    (now : Time) (ids : List Str) (t : Provisions) (id : Str)
    → get_provisioning none (seed now ids t) id
      ≡ or_seeded (is_seeded id ids) (get_provisioning none t id)
unfolding seed
seed_lem now [] t id = ground arith
seed_lem now (i ∷ ids) t id =
    seed_lem now ids (seed_one now none none i t) id ∙ ground (arith, seed_one_lem now i id t)

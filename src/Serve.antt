-- ===== src/Serve.antt =====
-- cmd/rewsr-maxfields/main.go: the environment of `serve`, and the provisioning records it seeds.
pub mod Interval
pub mod Seeds
pub mod Servers
mod Tests
use rewsr_maxfields.Base.{
  ◌≡◌, ◌≢◌, refl, Bool, true, false, not, ◌&&◌, ◌||◌, Option, none, some, List, [], ◌∷◌, ◌++◌,
  arith, Str, str, ◌==◌, str_eq, is_empty, contains, if◌then◌else◌,
}
use rewsr_maxfields.Base.Int.{ℤ, pos}
use rewsr_maxfields.Text.Split.{split}
use rewsr_maxfields.Text.Space.{trim_space}
use rewsr_maxfields.Facts.Types.{Time}
use rewsr_maxfields.Facts.Build.{Result, ok, err}
use rewsr_maxfields.Store.Provisioning.{Provisions, get_provisioning, set_provisioning}

-- `env` answers the empty text for a variable that is not set.
unfoldable pub env_or : (Str → Str) → Str → Str → Str
env_or env key fallback = let v = env key in if is_empty v then fallback else v

-- The trimmed parts that are not empty.
unfoldable pub listed_ids : List Str → List Str
listed_ids [] = []
listed_ids (part ∷ parts) =
    let id = trim_space part in
    let rest = listed_ids parts in if is_empty id then rest else id ∷ rest

unfoldable pub env_server_ids : (Str → Str) → List Str
env_server_ids env =
    let v = env (str "REWSR_MAXFIELDS_SERVER_IDS") in
    if is_empty v then str "demo-server-1" ∷ [] else listed_ids (split b',' v)

-- One server: a record is set if none is read. `read` and `write` are the errors of the database.
unfoldable pub seed_one : Time → Option Str → Option Str → Str → Provisions → Provisions
seed_one now read write id t = elim (get_provisioning read t id) [
  | ok _ ↦ t
  | err _ ↦ (set_provisioning now write t id (str "provisioned") (str "demo-fd-1")).1
]

-- The loop of `runServe`, over a database that answers.
unfoldable pub seed : Time → List Str → Provisions → Provisions
seed now [] t = t
seed now (id ∷ ids) t = seed now ids (seed_one now none none id t)

-- `parse` is `time.ParseDuration`, which counts nanoseconds. An error is logged.
unfoldable pub env_duration : (Str → Result ℤ) → (Str → Str) → Str → ℤ → ℤ
env_duration parse env key fallback =
    let v = env key in
    if is_empty v then fallback else elim (parse v) [ err _ ↦ fallback | ok d ↦ d ]

-- 60*time.Second unless the environment says otherwise.
unfoldable pub refresh_interval : (Str → Result ℤ) → (Str → Str) → ℤ
refresh_interval parse env =
    env_duration parse env (str "REWSR_MAXFIELDS_REFRESH_INTERVAL") (pos 60000000000)

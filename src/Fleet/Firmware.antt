-- ===== src/Fleet/Firmware.antt =====
-- `FirmwareSpread`. What `decodeRaw` makes of the values in `Raw` is given by two functions, which
-- answer `none` for an incompatible shape. Go visits the entries of a map in an order of its own: the
-- results below do not depend on it.
pub mod Spread
use rewsr_maxfields.Base.{
  ℕ, Bool, true, false, ◌||◌, Option, none, some, List, [], ◌∷◌, ◌++◌, map, Str, str, ◌==◌, str_eq,
  pair_eq, contains, is_empty, if◌then◌else◌,
}
use rewsr_maxfields.Base.Dict.{Dict, lookup, at, insert}
use rewsr_maxfields.Facts.Types.{ServerFacts}
use rewsr_maxfields.Fleet.{bump}

-- Server counts by component and firmware version.
abbrev pub Spread : Type 0
Spread = Dict Str (Dict Str ℕ)

-- The closure `bump`.
unfoldable pub bump_version : Str → Str → Spread → Spread
bump_version component version spread =
    if is_empty component || is_empty version
    then spread
    else insert component (bump version (at [] component spread)) spread

-- The loop over the drives, and the loop over the NICs: each distinct key of a server counts once.
unfoldable pub bump_keys : Str → List (Str × Str) → List (Str × Str) → Spread → Spread
bump_keys prefix [] seen spread = spread
bump_keys prefix (key ∷ keys) seen spread =
    if contains key seen
    then bump_keys prefix keys seen spread
    else bump_keys prefix keys (key ∷ seen) (bump_version (prefix ++ key.0) key.1 spread)

-- The fields of a driver section that are read; a missing one is the empty text.
unfoldable pub driver_key : Dict Str Str → Str × Str
driver_key driver = (at [] (str "driver") driver, at [] (str "firmware-version") driver)

module _ {V : Type 0} (decode_nvme : V → Option (List (Str × Str)))
    (decode_nics : V → Option (Dict Str (Dict Str Str))) where
  -- The (model, firmware) rows of a `Raw`.
  unfoldable pub nvme_keys : Dict Str V → List (Str × Str)
  nvme_keys raw = elim (lookup (str "nvme") raw) [
    | none ↦ []
    | some v ↦ elim (decode_nvme v) [ none ↦ [] | some rows ↦ rows ]
  ]

  -- The (driver, firmware version) rows of a `Raw`.
  unfoldable pub nic_keys : Dict Str V → List (Str × Str)
  nic_keys raw = elim (lookup (str "nic_offload") raw) [
    | none ↦ []
    | some v ↦ elim (decode_nics v) [ none ↦ [] | some nics ↦ map (λ (_, d). driver_key d) nics ]
  ]

  unfoldable pub spread_one : Option (Dict Str V) → Spread → Spread
  spread_one none spread = spread
  spread_one (some raw) spread =
      bump_keys (str "nic:") (nic_keys raw) [] (bump_keys (str "nvme:") (nvme_keys raw) [] spread)

  unfoldable pub spread_loop : List (Option (ServerFacts V)) → Spread → Spread
  spread_loop [] spread = spread
  spread_loop (none ∷ fs) spread = spread_loop fs spread
  spread_loop (some f ∷ fs) spread = spread_loop fs (spread_one f.raw spread)

  unfoldable pub firmware_spread : List (Option (ServerFacts V)) → Spread
  firmware_spread fs = spread_loop fs []

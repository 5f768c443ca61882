-- ===== src/Fleet/Firmware/Spread.antt =====
-- What the numbers of `FirmwareSpread` count.
use rewsr_maxfields.Base.{
  ℕ, ◌+◌, ◌≡◌, ◌≢◌, ◌∙◌, refl, ap, sym, Bool, not, ◌&&◌, Option, none, some, List, [], ◌∷◌, ◌++◌,
  arith, Str, str, ◌==◌, str_eq, pair_eq, contains,
}
use rewsr_maxfields.Base.Dict.{Dict, lookup, at, lookup-insert}
use rewsr_maxfields.Facts.Types.{ServerFacts}
use rewsr_maxfields.Fleet.{bump, incr}
use rewsr_maxfields.Fleet.Capable.{count_servers}
use rewsr_maxfields.Fleet.Counts.{at-bump}
use rewsr_maxfields.Fleet.Firmware.{
  Spread, bump_version, bump_keys, nvme_keys, nic_keys, spread_one, spread_loop, firmware_spread,
}

-- The number under a component and a version.
abbrev pub at_version : Str → Str → Spread → ℕ
at_version component version spread = at 0 version (at [] component spread)

at_version-nil : (c v : Str) → at_version c v [] ≡ 0
unfolding lookup
at_version-nil c v = refl

at_version-bump_version :
    (c v component version : Str) (spread : Spread)
    → v ≢ []
    → c ≢ []
    → at_version c v (bump_version component version spread)
      ≡ incr (c == component && v == version) (at_version c v spread)
unfolding bump_version
at_version-bump_version c v [] version spread hv hc = ground arith
at_version-bump_version c v (a ∷ component) [] spread hv hc = ground arith
at_version-bump_version c v (a ∷ component) (b ∷ version) spread hv hc =
    let k = a ∷ component in
    let inner = at [] k spread in
    ground
      (arith, lookup-insert c k (bump (b ∷ version) inner) spread, at-bump v (b ∷ version) inner)

append_cancel {ℓ} : {A : Type ℓ} (p : List A) {x y : List A} → p ++ x ≡ p ++ y → x ≡ y
append_cancel [] h = h
append_cancel (a ∷ p) h = append_cancel p (cc)

append-ne-nil {ℓ} : {A : Type ℓ} (p x : List A) → p ≢ [] → p ++ x ≢ []
append-ne-nil [] x h = absurd (h refl)
append-ne-nil (a ∷ p) x h = ground arith

-- The keys of a list count once each under their own prefix.
at_version-bump_keys :
    (prefix m v : Str) (keys seen : List (Str × Str)) (spread : Spread)
    → prefix ≢ []
    → v ≢ []
    → at_version (prefix ++ m) v (bump_keys prefix keys seen spread)
      ≡ incr
          (not (contains (m, v) seen) && contains (m, v) keys)
          (at_version (prefix ++ m) v spread)
unfolding bump_keys
at_version-bump_keys prefix m v [] seen spread hp hv = ground arith
at_version-bump_keys prefix m v ((m', v') ∷ keys) seen spread hp hv = ground (
  arith,
  at_version-bump_keys prefix m v keys seen spread hp hv,
  at_version-bump_keys prefix m v keys ((m', v') ∷ seen) (bump_version (prefix ++ m') v' spread) hp
      hv,
  at_version-bump_version (prefix ++ m) v (prefix ++ m') v' spread hv (append-ne-nil prefix m hp),
  append_cancel prefix {x = m} {y = m'},
)

-- Under another prefix they change nothing.
at_version-bump_keys_other :
    (c v prefix : Str) (keys seen : List (Str × Str)) (spread : Spread)
    → c ≢ []
    → v ≢ []
    → ((m : Str) → c ≢ prefix ++ m)
    → at_version c v (bump_keys prefix keys seen spread) ≡ at_version c v spread
unfolding bump_keys
at_version-bump_keys_other c v prefix [] seen spread hc hv other = refl
at_version-bump_keys_other c v prefix ((m', v') ∷ keys) seen spread hc hv other = ground (
  arith,
  at_version-bump_keys_other c v prefix keys seen spread hc hv other,
  at_version-bump_keys_other c v prefix keys ((m', v') ∷ seen)
      (bump_version (prefix ++ m') v' spread) hc hv other,
  at_version-bump_version c v (prefix ++ m') v' spread hv hc,
  other m',
)

nvme_ne_nic : (m m' : Str) → str "nvme:" ++ m ≢ str "nic:" ++ m'
unfolding str
nvme_ne_nic m m' = ground arith

prefixes_ne_nil : (str "nvme:" ≢ []) × (str "nic:" ≢ [])
unfolding str
prefixes_ne_nil = ground arith

module _ {V : Type 0} (decode_nvme : V → Option (List (Str × Str)))
    (decode_nics : V → Option (Dict Str (Dict Str Str))) where
  -- The rows of a server; a nil `Raw` has none.
  abbrev pub nvme_rows : ServerFacts V → List (Str × Str)
  nvme_rows f = elim f.raw [ none ↦ [] | some raw ↦ nvme_keys decode_nvme decode_nics raw ]

  abbrev pub nic_rows : ServerFacts V → List (Str × Str)
  nic_rows f = elim f.raw [ none ↦ [] | some raw ↦ nic_keys decode_nvme decode_nics raw ]

  one_nvme :
      (model v : Str) (f : ServerFacts V) (spread : Spread)
      → v ≢ []
      → at_version (str "nvme:" ++ model) v (spread_one decode_nvme decode_nics f.raw spread)
        ≡ incr (contains (model, v) (nvme_rows f)) (at_version (str "nvme:" ++ model) v spread)
  unfolding spread_one
  one_nvme model v f spread hv = go f.raw
    where
      go :
          (raw : Option (Dict Str V))
          → at_version (str "nvme:" ++ model) v (spread_one decode_nvme decode_nics raw spread)
            ≡ incr
                (contains
                  (model, v)
                  (elim raw [ none ↦ [] | some r ↦ nvme_keys decode_nvme decode_nics r ]))
                (at_version (str "nvme:" ++ model) v spread)
      go none = refl
      go (some raw) =
          at_version-bump_keys_other (str "nvme:" ++ model) v (str "nic:") _ []
            (bump_keys (str "nvme:") (nvme_keys decode_nvme decode_nics raw) [] spread)
            (append-ne-nil _ model prefixes_ne_nil.0) hv (nvme_ne_nic model)
          ∙ at_version-bump_keys (str "nvme:") model v _ [] spread prefixes_ne_nil.0 hv

  one_nic :
      (driver v : Str) (f : ServerFacts V) (spread : Spread)
      → v ≢ []
      → at_version (str "nic:" ++ driver) v (spread_one decode_nvme decode_nics f.raw spread)
        ≡ incr (contains (driver, v) (nic_rows f)) (at_version (str "nic:" ++ driver) v spread)
  unfolding spread_one
  one_nic driver v f spread hv = go f.raw
    where
      go :
          (raw : Option (Dict Str V))
          → at_version (str "nic:" ++ driver) v (spread_one decode_nvme decode_nics raw spread)
            ≡ incr
                (contains
                  (driver, v)
                  (elim raw [ none ↦ [] | some r ↦ nic_keys decode_nvme decode_nics r ]))
                (at_version (str "nic:" ++ driver) v spread)
      go none = refl
      go (some raw) =
          at_version-bump_keys (str "nic:") driver v _ []
            (bump_keys (str "nvme:") (nvme_keys decode_nvme decode_nics raw) [] spread)
            prefixes_ne_nil.1 hv
          ∙ ap (incr (contains (driver, v) (nic_keys decode_nvme decode_nics raw))) (
              at_version-bump_keys_other (str "nic:" ++ driver) v (str "nvme:") _ [] spread
                (append-ne-nil _ driver prefixes_ne_nil.1) hv (λ m e. nvme_ne_nic m driver (sym e)))

  spread_loop_counts :
      (c v : Str) (p : ServerFacts V → Bool)
      → ((f : ServerFacts V) (spread : Spread)
          → at_version c v (spread_one decode_nvme decode_nics f.raw spread)
            ≡ incr (p f) (at_version c v spread))
      → (fs : List (Option (ServerFacts V))) (spread : Spread)
      → at_version c v (spread_loop decode_nvme decode_nics fs spread)
        ≡ at_version c v spread + count_servers p fs
  unfolding spread_loop
  spread_loop_counts c v p law [] spread = omega arith
  spread_loop_counts c v p law (none ∷ fs) spread = spread_loop_counts c v p law fs spread
  spread_loop_counts c v p law (some f ∷ fs) spread = ground (
    arith,
    spread_loop_counts c v p law fs (spread_one decode_nvme decode_nics f.raw spread),
    law f spread,
  )

  -- For a version that is not empty, `FirmwareSpread` counts under "nvme:" and a model the servers with
  -- at least one drive of that model and firmware, and under "nic:" and a driver the servers with at
  -- least one NIC of that driver and firmware: a server counts once, however many it has.
  pub firmware_spread_lem :
      (fs : List (Option (ServerFacts V))) (name version : Str)
      → version ≢ []
      → (at_version (str "nvme:" ++ name) version (firmware_spread decode_nvme decode_nics fs)
          ≡ count_servers (λ f. contains (name, version) (nvme_rows f)) fs)
        × (at_version (str "nic:" ++ name) version (firmware_spread decode_nvme decode_nics fs)
            ≡ count_servers (λ f. contains (name, version) (nic_rows f)) fs)
  unfolding firmware_spread
  firmware_spread_lem fs name version hv = (
    omega (
      arith,
      spread_loop_counts (str "nvme:" ++ name) version _ (λ f s. one_nvme name version f s hv) fs
          [],
      at_version-nil (str "nvme:" ++ name) version,
    ),
    omega (
      arith,
      spread_loop_counts (str "nic:" ++ name) version _ (λ f s. one_nic name version f s hv) fs [],
      at_version-nil (str "nic:" ++ name) version,
    ),
  )

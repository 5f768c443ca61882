-- ===== src/Collectors/Lldp/Domain.antt =====
-- Which failure domain the switches give a host.
use rewsr_maxfields.Base.{
  ◌≡◌, ◌⊎◌, refl, Bool, true, false, ◌&&◌, ◌||◌, Option, none, some, List, [], ◌∷◌, ◌++◌, arith,
  Str, str, ◌==◌, str_eq, any, all, is_empty, if◌then◌else◌, inl, inr,
}
use rewsr_maxfields.Facts.Types.{ServerFacts}
use rewsr_maxfields.Facts.Build.{Result, ok, err}
use rewsr_maxfields.Collectors.Host.{Host, Tools, observed}
use rewsr_maxfields.Collectors.Sections.{LldpNeighbor, Section}
use rewsr_maxfields.Collectors.Lldp.{
  Members, one_chassis, switch_domain, report_lldp, list_neighbors, collect_lldp,
}

abbrev pub names : Str → LldpNeighbor → Bool
names chassis n = n.chassis_name == chassis

abbrev pub agrees : Str → LldpNeighbor → Bool
agrees chassis n = is_empty n.chassis_name || n.chassis_name == chassis

one_chassis_lem :
    (ns : List LldpNeighbor) (chassis : Str)
    → is_empty chassis ≡ false
    → one_chassis ns chassis ≡ (chassis, all (agrees chassis) ns)
unfolding one_chassis
one_chassis_lem [] chassis h = refl
one_chassis_lem (n ∷ ns) chassis h = ground (arith, one_chassis_lem ns chassis h)

domains_differ : (a b : Str) → (str "switch:" ++ a == str "switch:" ++ b) ≡ (a == b)
unfolding str
domains_differ a b = ground arith

no_domain : (b : Str) → ([] == str "switch:" ++ b) ≡ false
unfolding str
no_domain b = ground arith

module _ (c : Str) (h : is_empty c ≡ false) where
  switch_domain_lem :
      (ns : List LldpNeighbor)
      → (switch_domain ns == str "switch:" ++ c) ≡ (any (names c) ns && all (agrees c) ns)
  unfolding switch_domain one_chassis
  switch_domain_lem [] = no_domain c
  switch_domain_lem (n ∷ ns) = ground (
    arith,
    h,
    no_domain c,
    domains_differ n.chassis_name c,
    one_chassis_lem ns n.chassis_name,
    switch_domain_lem ns,
  )

switch_domain_cases :
    (ns : List LldpNeighbor)
    → (switch_domain ns ≡ [])
      ⊎ ((c : Str) × (is_empty c ≡ false) × (switch_domain ns ≡ str "switch:" ++ c))
unfolding switch_domain
switch_domain_cases ns = go (one_chassis ns []).0 (one_chassis ns []).1
  where
    go :
        (chassis : Str) (single : Bool)
        → ((if single then (if is_empty chassis then [] else str "switch:" ++ chassis) else [])
            ≡ [])
          ⊎ ((c : Str) × (is_empty c ≡ false)
              × ((if single
                    then (if is_empty chassis then [] else str "switch:" ++ chassis)
                    else [])
                  ≡ str "switch:" ++ c))
    go chassis false = inl refl
    go [] true = inl refl
    go (b ∷ chassis) true = inr (b ∷ chassis, refl, refl)

module _ (decode : Str → Result Members) (t : Option Tools) (h : Host) where
  -- What the collector returns, by the neighbors that are listed or the error.
  abbrev pub LldpReported :
      Result (List LldpNeighbor)
      → Option (ServerFacts Section) × Option Str
      → ServerFacts Section
      → Type 0
  LldpReported (err e) r f = (r.1 ≡ some e) × (f.failure_domain ≡ [])
  LldpReported (ok ns) r f =
      (r.1 ≡ none)
      × ((c : Str)
          → is_empty c ≡ false
          → (f.failure_domain == str "switch:" ++ c) ≡ (any (names c) ns && all (agrees c) ns))
      × ((f.failure_domain ≡ [])
          ⊎ ((c : Str) × (is_empty c ≡ false) × (f.failure_domain ≡ str "switch:" ++ c)))

  -- The LLDP collector always returns facts. Where the neighbors can be listed it returns no error, and
  -- its failure domain is "switch:" and a chassis exactly when some neighbor names the chassis and no
  -- neighbor names another; otherwise it has none, in whatever order the neighbors are listed. Where
  -- they cannot be listed it returns the error and no domain.
  pub collect_lldp_lem :
      (id : Str)
      → (f : ServerFacts Section) × ((collect_lldp decode t h id).0 ≡ some f)
        × LldpReported (list_neighbors decode t) (collect_lldp decode t h id) f
  unfolding collect_lldp
  collect_lldp_lem id = go (list_neighbors decode t)
    where
      bare : (observed {V = Section} (str "linux_lldp") h id).failure_domain ≡ []
      bare = unfold observed in refl

      go :
          (r : Result (List LldpNeighbor))
          → (f : ServerFacts Section) × ((report_lldp h id r).0 ≡ some f)
            × LldpReported r (report_lldp h id r) f
      go (err e) = unfold report_lldp in (_, refl, (refl, bare))
      go (ok []) = unfold report_lldp in (_, refl, (refl, (λ c e. rw bare (no_domain c)), inl bare))
      go (ok (n ∷ ns)) =
          unfold report_lldp in
          (_, refl, (refl, (λ c e. switch_domain_lem c e (n ∷ ns)), switch_domain_cases (n ∷ ns)))

-- ===== src/Fleet/Counts.antt =====
-- The counters of `Aggregate`.
use rewsr_maxfields.Base.{
  ℕ, suc, ◌+◌, ◌≡◌, ◌≢◌, ◌∙◌, refl, Bool, true, not, ◌&&◌, Option, none, some, List, [], ◌∷◌, arith,
  Str, str, ◌==◌, str_eq, Eq, contains, count, IsNodup, count_of_IsNodup, is_empty,
}
use rewsr_maxfields.Base.Dict.{Dict, at, lookup-insert, at-nil}
use rewsr_maxfields.Base.Int.{ℤ, int_eq, is_pos}
use rewsr_maxfields.Facts.Types.{ServerFacts, NicFacts}
use rewsr_maxfields.Fleet.{
  Summary, empty_summary, bump, bump_all, bump_ports, aggregate_one, aggregate_loop, aggregate,
  incr,
}
use rewsr_maxfields.Fleet.Capable.{count_servers}

healthy_ne_degraded : str "healthy" ≢ str "degraded"
unfolding str
healthy_ne_degraded = ground arith

pub at-bump {ℓ} :
    {K : Type ℓ} ⦃e : Eq K⦄ (j k : K) (d : Dict K ℕ) → at 0 j (bump k d) ≡ incr (j == k) (at 0 j d)
unfolding bump
at-bump j k d = ground (arith, lookup-insert j k (suc (at 0 k d)) d)

at-bump_all :
    (j : Str) (ks : List Str) (d : Dict Str ℕ) → at 0 j (bump_all ks d) ≡ at 0 j d + count j ks
unfolding bump_all
at-bump_all j [] d = omega arith
at-bump_all j (k ∷ ks) d = ground (arith, at-bump_all j ks (bump k d), at-bump j k d)

-- The ports of a list of NICs that run at a speed above zero.
abbrev pub count_ports : ℤ → List NicFacts → ℕ
count_ports v [] = 0
count_ports v (n ∷ ns) = incr (v == n.speed_gbps && is_pos n.speed_gbps) (count_ports v ns)

at-bump_ports :
    (v : ℤ) (ns : List NicFacts) (d : Dict ℤ ℕ)
    → at 0 v (bump_ports ns d) ≡ at 0 v d + count_ports v ns
unfolding bump_ports
at-bump_ports v [] d = omega arith
at-bump_ports v (n ∷ ns) d = ground (
  arith,
  at-bump_ports v ns d,
  at-bump_ports v ns (bump n.speed_gbps d),
  at-bump v n.speed_gbps d,
)

module _ {V : Type 0} where
  abbrev pub sum_servers : (ServerFacts V → ℕ) → List (Option (ServerFacts V)) → ℕ
  sum_servers g [] = 0
  sum_servers g (none ∷ fs) = sum_servers g fs
  sum_servers g (some f ∷ fs) = g f + sum_servers g fs

  -- A measure of the summary that each server raises by its own amount.
  measure_loop :
      (size : Summary → ℕ) (g : ServerFacts V → ℕ)
      → ((f : ServerFacts V) (s : Summary) → size (aggregate_one f s) ≡ size s + g f)
      → (fs : List (Option (ServerFacts V))) (s : Summary)
      → size (aggregate_loop fs s) ≡ size s + sum_servers g fs
  unfolding aggregate_loop
  measure_loop size g law [] s = omega arith
  measure_loop size g law (none ∷ fs) s = measure_loop size g law fs s
  measure_loop size g law (some f ∷ fs) s =
      omega (arith, measure_loop size g law fs (aggregate_one f s), law f s)

  sum_servers-incr :
      (p : ServerFacts V → Bool) (fs : List (Option (ServerFacts V)))
      → sum_servers (λ f. incr (p f) 0) fs ≡ count_servers p fs
  sum_servers-incr p [] = refl
  sum_servers-incr p (none ∷ fs) = sum_servers-incr p fs
  sum_servers-incr p (some f ∷ fs) = ground (arith, sum_servers-incr p fs)

  -- A counter that goes up by one at the servers that pass a test.
  counter_loop :
      (size : Summary → ℕ) (p : ServerFacts V → Bool)
      → ((f : ServerFacts V) (s : Summary) → size (aggregate_one f s) ≡ incr (p f) (size s))
      → size empty_summary ≡ 0
      → (fs : List (Option (ServerFacts V)))
      → size (aggregate_loop fs empty_summary) ≡ count_servers p fs
  counter_loop size p law zero fs = omega (
    arith,
    measure_loop size (λ f. incr (p f) 0) (λ f s. ground (arith, law f s)) fs empty_summary,
    sum_servers-incr p fs,
  )

  sum_loop :
      (size : Summary → ℕ) (g : ServerFacts V → ℕ)
      → ((f : ServerFacts V) (s : Summary) → size (aggregate_one f s) ≡ size s + g f)
      → size empty_summary ≡ 0
      → (fs : List (Option (ServerFacts V)))
      → size (aggregate_loop fs empty_summary) ≡ sum_servers g fs
  sum_loop size g law zero fs = omega (arith, measure_loop size g law fs empty_summary)

  abbrev pub has_model : Str → ServerFacts V → Bool
  has_model m f = m == f.cpu.model && not (is_empty f.cpu.model)

  -- `Aggregate` counts the servers, nil entries aside: all; those that are healthy, those that are
  -- degraded and those of any other health; those whose power is "on"; and those of each CPU model that
  -- is not empty. Every capability and network mode it counts as often as the servers list it, so that a
  -- server that lists one twice counts twice, and the ports of each speed above zero.
  pub aggregate_counts :
      (fs : List (Option (ServerFacts V)))
      → let s = aggregate fs in
        (s.servers ≡ count_servers (λ f. true) fs)
        × (s.healthy ≡ count_servers (λ f. f.health == str "healthy") fs)
        × (s.degraded ≡ count_servers (λ f. f.health == str "degraded") fs)
        × (s.unknown
            ≡ count_servers
                (λ f. not (f.health == str "healthy") && not (f.health == str "degraded"))
                fs)
        × (s.powered_on ≡ count_servers (λ f. f.power_state == str "on") fs)
        × ((c : Str) → at 0 c s.capability_counts ≡ sum_servers (λ f. count c f.capabilities) fs)
        × ((c : Str) → at 0 c s.network_mode_counts ≡ sum_servers (λ f. count c f.network_modes) fs)
        × ((v : ℤ) → at 0 v s.nic_speed_ports ≡ sum_servers (λ f. count_ports v f.nics) fs)
        × ((m : Str) → at 0 m s.cpu_models ≡ count_servers (has_model m) fs)
  unfolding aggregate aggregate_one
  aggregate_counts fs = (
    counter_loop (λ s. s.servers) (λ f. true) (λ f s. refl) refl fs,
    counter_loop (λ s. s.healthy) (λ f. f.health == str "healthy") (λ f s. refl) refl fs,
    counter_loop (λ s. s.degraded) (λ f. f.health == str "degraded")
        (λ f s. ground (arith, healthy_ne_degraded)) refl fs,
    counter_loop (λ s. s.unknown)
        (λ f. not (f.health == str "healthy") && not (f.health == str "degraded")) (λ f s. refl)
        refl fs,
    counter_loop (λ s. s.powered_on) (λ f. f.power_state == str "on") (λ f s. refl) refl fs,
    λ c.
        sum_loop (λ s. at 0 c s.capability_counts) (λ f. count c f.capabilities)
          (λ f s. at-bump_all c f.capabilities s.capability_counts) (at-nil 0 c) fs,
    λ c.
        sum_loop (λ s. at 0 c s.network_mode_counts) (λ f. count c f.network_modes)
          (λ f s. at-bump_all c f.network_modes s.network_mode_counts) (at-nil 0 c) fs,
    λ v.
        sum_loop (λ s. at 0 v s.nic_speed_ports) (λ f. count_ports v f.nics)
          (λ f s. at-bump_ports v f.nics s.nic_speed_ports) (at-nil 0 v) fs,
    λ m.
        counter_loop (λ s. at 0 m s.cpu_models) (has_model m)
          (λ f s. ground (arith, at-bump m f.cpu.model s.cpu_models)) (at-nil 0 m) fs,
  )

  statuses_loop :
      (fs : List (Option (ServerFacts V))) (s : Summary)
      → s.healthy + s.degraded + s.unknown ≡ s.servers
      → let t = aggregate_loop fs s in t.healthy + t.degraded + t.unknown ≡ t.servers
  unfolding aggregate_loop
  statuses_loop [] s h = h
  statuses_loop (none ∷ fs) s h = statuses_loop fs s h
  statuses_loop (some f ∷ fs) s h =
      statuses_loop fs (aggregate_one f s) (unfold aggregate_one in ground arith)

  -- Every server has exactly one of the three health states.
  pub aggregate_statuses :
      (fs : List (Option (ServerFacts V)))
      → let s = aggregate fs in s.healthy + s.degraded + s.unknown ≡ s.servers
  unfolding aggregate
  aggregate_statuses fs = statuses_loop fs empty_summary (omega arith)

  -- No server lists a capability twice.
  abbrev pub AllDistinct : List (Option (ServerFacts V)) → Type 0
  AllDistinct [] = Unit
  AllDistinct (none ∷ fs) = AllDistinct fs
  AllDistinct (some f ∷ fs) = IsNodup f.capabilities × AllDistinct fs

  sum_servers-distinct :
      (c : Str) (fs : List (Option (ServerFacts V)))
      → AllDistinct fs
      → sum_servers (λ f. count c f.capabilities) fs
        ≡ count_servers (λ f. contains c f.capabilities) fs
  sum_servers-distinct c [] h = refl
  sum_servers-distinct c (none ∷ fs) h = sum_servers-distinct c fs h
  sum_servers-distinct c (some f ∷ fs) (u, h) =
      ground (arith, sum_servers-distinct c fs h, count_of_IsNodup c f.capabilities u)

  -- Where no server lists a capability twice, the count of a capability is the number of servers that
  -- hold it.
  pub aggregate_holders :
      (c : Str) (fs : List (Option (ServerFacts V)))
      → AllDistinct fs
      → at 0 c (aggregate fs).capability_counts ≡ count_servers (λ f. contains c f.capabilities) fs
  aggregate_holders c fs h = (aggregate_counts fs).5 c ∙ sum_servers-distinct c fs h

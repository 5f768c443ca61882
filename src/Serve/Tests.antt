-- ===== src/Serve/Tests.antt =====
-- Seeding and the list of servers at small data.
use rewsr_maxfields.Base.{ℕ, ◌≡◌, refl, [], ◌∷◌, str, str_eq, nat_eq, All}
use rewsr_maxfields.Text.Space.{trim_space}
use rewsr_maxfields.Store.Provisioning.{Provisions}
use rewsr_maxfields.Base.Int.{pos}
use rewsr_maxfields.Facts.Build.{ok}
use rewsr_maxfields.Store.{empty_table}
use rewsr_maxfields.Refresh.{refresh_all, panicked, start_every}
use rewsr_maxfields.Serve.{refresh_interval}
use rewsr_maxfields.Serve.Interval.{start_every-refresh_interval}
use rewsr_maxfields.Serve.Servers.{IsPlain}

abbrev known : Provisions
known =
    (str "a", record { provisioning = str "active"; failure_domain = str "fd-9"; updated_at = 1 })
    ∷ []

plain : All IsPlain (str "a" ∷ str "b" ∷ [])
unfolding str nat_eq trim_space
plain = ((refl, (refl, tt), refl), ((refl, (refl, tt), refl), tt))

-- An interval of zero reaches the ticker.
start_every-refresh_interval_example :
    start_every {V = ℕ}
      (λ f. ok (str "text"))
      (refresh_interval (λ s. ok (pos 0)) (λ key. str "0s"))
      []
      []
      empty_table
    ≡ panicked empty_table
unfolding refresh_all str
start_every-refresh_interval_example =
    start_every-refresh_interval {V = ℕ} (λ f. ok (str "text")) (λ s. ok (pos 0)) (λ key. str "0s")
      [] [] empty_table

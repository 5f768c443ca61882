-- ===== src/Serve/Interval.antt =====
-- The interval of `serve`, from the environment to the ticker of the refresher.
use rewsr_maxfields.Base.{
  ◌≡◌, Bool, false, not, ◌&&◌, List, arith, Str, str, is_empty, if◌then◌else◌,
}
use rewsr_maxfields.Base.Int.{ℤ, is_pos}
use rewsr_maxfields.Facts.Types.{ServerFacts}
use rewsr_maxfields.Facts.Build.{Result, ok, err}
use rewsr_maxfields.Store.{Table}
use rewsr_maxfields.Refresh.{Visit, Event, stopped, panicked, refresh_all, start, start_every}
use rewsr_maxfields.Serve.{env_duration, refresh_interval}

-- A duration that can be read and is not positive.
abbrev pub not_positive : Result ℤ → Bool
not_positive (err e) = false
not_positive (ok d) = not (is_pos d)

module _ {V : Type 0} (encode : ServerFacts V → Result Str) where
  -- The refresher of `serve` panics behind its first batch exactly when the variable is set to a duration
  -- that can be read and is not positive. Otherwise, where the variable is not set or cannot be read
  -- too, it runs until it is told to stop.
  pub start_every-refresh_interval :
      (parse : Str → Result ℤ) (env : Str → Str) (visits : List (Visit V)) (events : List (Event V))
      (t : Table)
      → let v = env (str "REWSR_MAXFIELDS_REFRESH_INTERVAL") in
        start_every encode (refresh_interval parse env) visits events t ≡ (
          if not (is_empty v) && not_positive (parse v)
          then panicked (refresh_all encode visits t)
          else stopped (start encode visits events t))
  unfolding start_every refresh_interval env_duration
  start_every-refresh_interval parse env visits events t = ground arith

-- ===== src/Refresh.antt =====
-- refresh/refresher.go: collection for each server in turn, at the start and on every tick.
pub mod Batches
pub mod Views
mod Tests
use rewsr_maxfields.Base.{Option, none, some, List, [], ◌∷◌, ◌++◌, map, Str, if◌then◌else◌}
use rewsr_maxfields.Base.Int.{ℤ, is_pos}
use rewsr_maxfields.Facts.Types.{ServerFacts, Collector, Time}
use rewsr_maxfields.Facts.Build.{Result, ok, err, build_server_facts}
use rewsr_maxfields.Store.{Table, save_facts}

-- What the environment gives on the visit of one server: the answers of the collectors, the clock at
-- the end of the collection and at the insertion, and the error of the insertion, if it fails.
pub record Visit (V : Type 0) : Type 0 where
  pub server_id : Str
  pub answers : List (Collector V)
  pub built_at : Time
  pub saved_at : Time
  pub failure : Option Str

-- What `Start` waits for: a tick of the ticker, with the visits of that batch, or the end of the
-- context.
pub data Event (V : Type 0) : Type 0 where
  tick : List (Visit V) → Event V
  done : Event V

-- How `Start` ends, with the table that it leaves: it runs until it is told to stop, or
-- `time.NewTicker` panics.
pub data Ended : Type 0 where
  stopped : Table → Ended
  panicked : Table → Ended

module _ {V : Type 0} (encode : ServerFacts V → Result Str) where
  -- A failed collection is logged and skipped; so is a failed insertion.
  unfoldable pub visit_server : Visit V → Table → Table
  visit_server v t = elim (build_server_facts v.built_at v.server_id v.answers) [
    | err _ ↦ t
    | ok f ↦ (save_facts encode v.saved_at v.failure (some f) t).1
  ]

  unfoldable pub refresh_all : List (Visit V) → Table → Table
  refresh_all [] t = t
  refresh_all (v ∷ visits) t = refresh_all visits (visit_server v t)

  -- The loop returns at the end of the context.
  unfoldable pub wait_loop : List (Event V) → Table → Table
  wait_loop [] t = t
  wait_loop (done ∷ events) t = t
  wait_loop (tick visits ∷ events) t = wait_loop events (refresh_all visits t)

  -- With an interval that the ticker takes.
  unfoldable pub start : List (Visit V) → List (Event V) → Table → Table
  start visits events t = wait_loop events (refresh_all visits t)

  -- The ticker is made behind the first batch, and panics if the interval is not positive.
  unfoldable pub start_every : ℤ → List (Visit V) → List (Event V) → Table → Ended
  start_every interval visits events t =
      if is_pos interval then stopped (start visits events t) else panicked (refresh_all visits t)

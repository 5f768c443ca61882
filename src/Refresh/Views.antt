-- ===== src/Refresh/Views.antt =====
-- The refresher over the store as a map: what is answered once the context has ended.
use rewsr_maxfields.Base.{◌≡◌, ◌∙◌, refl, Option, some, List, [], ◌∷◌, ◌++◌, Str}
use rewsr_maxfields.Facts.Types.{ServerFacts}
use rewsr_maxfields.Facts.Build.{Result, ok, err, build_server_facts}
use rewsr_maxfields.Store.{Row, Table, empty_table, save_facts, IsNewestPick}
use rewsr_maxfields.Store.Refines.{
  Write, no_facts, write_views, save_all, Ascend, Restores, Represents, get_latest_facts-save_all,
}
use rewsr_maxfields.Refresh.{Visit, Event, visit_server, refresh_all, start}
use rewsr_maxfields.Refresh.Batches.{visits_before_done, start-refresh_all}

-- The write of a visit, if its collection succeeds.
abbrev written : {V : Type 0} → Visit V → Result (ServerFacts V) → List (Write V) → List (Write V)
written v (err _) ws = ws
written v (ok f) ws = record { now = v.saved_at; failure = v.failure; facts = f } ∷ ws

-- The writes of the visits, in order.
abbrev pub writes_of : {V : Type 0} → List (Visit V) → List (Write V)
writes_of [] = []
writes_of (v ∷ visits) =
    written v (build_server_facts v.built_at v.server_id v.answers) (writes_of visits)

module _ {V : Type 0} (encode : ServerFacts V → Result Str) where
  refresh_all-save_all :
      (visits : List (Visit V)) (t : Table)
      → refresh_all encode visits t ≡ save_all encode (writes_of visits) t
  unfolding refresh_all visit_server
  refresh_all-save_all [] t = refl
  refresh_all-save_all (v ∷ visits) t =
      refresh_all-save_all visits _ ∙ go (build_server_facts v.built_at v.server_id v.answers)
    where
      go :
          (r : Result (ServerFacts V))
          → save_all encode
              (writes_of visits)
              (elim r [ err _ ↦ t | ok f ↦ (save_facts encode v.saved_at v.failure (some f) t).1 ])
            ≡ save_all encode (written v r (writes_of visits)) t
      go (err _) = refl
      go (ok f) = refl

  -- From an empty store, once the context of `Start` has ended, `GetLatestFacts` answers for every server
  -- the facts of the last visit of that server that succeeded before the end, in the first batch or at a
  -- tick, and the error of an unknown server where none did: a later visit always replaces an earlier
  -- one, and a failed collection or insertion never removes what is there. The visits are later one
  -- after the other, and what can be encoded is restored by the decoder.
  pub get_latest_facts-start :
      (decode : Str → Result (ServerFacts V)) (pick : List Row → Option Row)
      → IsNewestPick pick
      → (visits : List (Visit V)) (events : List (Event V))
      → let ws = writes_of (visits ++ visits_before_done events) in
        Restores encode decode ws
        → Ascend encode 0 ws
        → Represents encode decode pick
            (start encode visits events empty_table)
            (write_views encode ws no_facts)
  get_latest_facts-start decode pick law visits events restored ascend =
      rw
        (
          start-refresh_all encode visits events empty_table,
          refresh_all-save_all (visits ++ visits_before_done events) empty_table,
        )
        (get_latest_facts-save_all pick law encode decode _ restored ascend)

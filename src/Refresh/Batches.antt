-- ===== src/Refresh/Batches.antt =====
-- What a batch leaves in the table, and that one server's failure does not touch the others.
use mathlib.Core.Path.{subst}
use rewsr_maxfields.Base.{
  ◌≡◌, ◌≢◌, ◌∙◌, refl, ap, sym, Option, none, some, List, [], ◌∷◌, ◌++◌, arith, Str,
}
use rewsr_maxfields.Facts.Types.{ServerFacts, Collector, Time}
use rewsr_maxfields.Facts.Build.{Result, ok, err, build_server_facts}
use rewsr_maxfields.Facts.Build.Unions.{build_server_facts-ok}
use rewsr_maxfields.Store.{Row, Table, save_facts, IsNewestPick, get_latest_facts, rows_of}
use rewsr_maxfields.Store.Save.{IsTable, save_facts-IsTable, row_time}
use rewsr_maxfields.Store.Latest.{
  get_latest_facts-save_facts, get_latest_facts-save_facts_ne, AllBefore,
}
use rewsr_maxfields.Refresh.{Visit, Event, tick, done, visit_server, refresh_all, wait_loop, start}

built_id :
    {V : Type 0} (now : Time) (id : Str) (cs : List (Collector V)) {f : ServerFacts V}
    → build_server_facts now id cs ≡ ok f
    → f.server_id ≡ id
built_id now id cs h = (build_server_facts-ok now id cs h).0

module _ {V : Type 0} where
  -- No visit is of the server.
  abbrev pub Elsewhere : Str → List (Visit V) → Type 0
  Elsewhere id [] = Unit
  Elsewhere id (v ∷ visits) = (id ≢ v.server_id) × Elsewhere id visits

  -- The visits of the ticks before the end of the context, in order.
  abbrev pub visits_before_done : List (Event V) → List (Visit V)
  visits_before_done [] = []
  visits_before_done (done ∷ events) = []
  visits_before_done (tick visits ∷ events) = visits ++ visits_before_done events

module _ {V : Type 0} (encode : ServerFacts V → Result Str) where
  visit_server-IsTable : (v : Visit V) (t : Table) → IsTable t → IsTable (visit_server encode v t)
  unfolding visit_server
  visit_server-IsTable v t h = go (build_server_facts v.built_at v.server_id v.answers)
    where
      go :
          (r : Result (ServerFacts V))
          → IsTable
              (elim r [ err _ ↦ t | ok f ↦ (save_facts encode v.saved_at v.failure (some f) t).1 ])
      go (err _) = h
      go (ok f) = save_facts-IsTable encode v.saved_at v.failure (some f) t h

  refresh_all-IsTable :
      (visits : List (Visit V)) (t : Table) → IsTable t → IsTable (refresh_all encode visits t)
  unfolding refresh_all
  refresh_all-IsTable [] t h = h
  refresh_all-IsTable (v ∷ visits) t h = refresh_all-IsTable visits _ (visit_server-IsTable v t h)

  wait_loop-IsTable :
      (events : List (Event V)) (t : Table) → IsTable t → IsTable (wait_loop encode events t)
  unfolding wait_loop
  wait_loop-IsTable [] t h = h
  wait_loop-IsTable (done ∷ events) t h = h
  wait_loop-IsTable (tick visits ∷ events) t h =
      wait_loop-IsTable events _ (refresh_all-IsTable visits t h)

  -- Whatever the collectors answer, whichever insertions fail and however many ticks come, the ids of
  -- the table stay ascending and the next one fresh.
  pub start-IsTable :
      (visits : List (Visit V)) (events : List (Event V)) (t : Table)
      → IsTable t
      → IsTable (start encode visits events t)
  unfolding start
  start-IsTable visits events t h = wait_loop-IsTable events _ (refresh_all-IsTable visits t h)

  refresh_all-append :
      (vs ws : List (Visit V)) (t : Table)
      → refresh_all encode (vs ++ ws) t ≡ refresh_all encode ws (refresh_all encode vs t)
  unfolding refresh_all
  refresh_all-append [] ws t = refl
  refresh_all-append (v ∷ vs) ws t = refresh_all-append vs ws (visit_server encode v t)

  wait_loop-refresh_all :
      (events : List (Event V)) (t : Table)
      → wait_loop encode events t ≡ refresh_all encode (visits_before_done events) t
  unfolding wait_loop
  wait_loop-refresh_all [] t = unfold refresh_all in refl
  wait_loop-refresh_all (done ∷ events) t = unfold refresh_all in refl
  wait_loop-refresh_all (tick visits ∷ events) t =
      wait_loop-refresh_all events (refresh_all encode visits t)
      ∙ sym (refresh_all-append visits (visits_before_done events) t)

  -- `Start` visits the servers once before it waits, then once for each tick, one after the other, and
  -- visits none after the context has ended.
  pub start-refresh_all :
      (visits : List (Visit V)) (events : List (Event V)) (t : Table)
      → start encode visits events t ≡ refresh_all encode (visits ++ visits_before_done events) t
  unfolding start
  start-refresh_all visits events t =
      wait_loop-refresh_all events (refresh_all encode visits t)
      ∙ sym (refresh_all-append visits (visits_before_done events) t)

  visit_saves :
      (v : Visit V) (t : Table) (f : ServerFacts V)
      → build_server_facts v.built_at v.server_id v.answers ≡ ok f
      → v.failure ≡ none
      → visit_server encode v t ≡ (save_facts encode v.saved_at none (some f) t).1
  unfolding visit_server
  visit_saves v t f built fine = ground (arith, built, fine)

  module _ (decode : Str → Result (ServerFacts V)) (pick : List Row → Option Row)
      (law : IsNewestPick pick) where
    visit-Elsewhere :
        (v : Visit V) (t : Table) (id : Str)
        → id ≢ v.server_id
        → get_latest_facts decode pick none (visit_server encode v t) id
          ≡ get_latest_facts decode pick none t id
    unfolding visit_server
    visit-Elsewhere v t id other = go (build_server_facts v.built_at v.server_id v.answers) refl
      where
        go :
            (r : Result (ServerFacts V))
            → build_server_facts v.built_at v.server_id v.answers ≡ r
            → get_latest_facts decode pick none
                (elim r [
                  | err _ ↦ t
                  | ok f ↦ (save_facts encode v.saved_at v.failure (some f) t).1
                ])
                id
              ≡ get_latest_facts decode pick none t id
        go (err _) e = refl
        go (ok f) e =
            get_latest_facts-save_facts_ne pick law encode decode v.saved_at v.failure none (some f)
              t id
              (λ g same. ground (arith, other, same, built_id v.built_at v.server_id v.answers e))

    -- A batch that does not visit a server leaves its latest facts as they are, whatever its visits of
    -- other servers do.
    pub refresh_all-Elsewhere :
        (visits : List (Visit V)) (t : Table) (id : Str)
        → Elsewhere id visits
        → get_latest_facts decode pick none (refresh_all encode visits t) id
          ≡ get_latest_facts decode pick none t id
    unfolding refresh_all
    refresh_all-Elsewhere [] t id h = refl
    refresh_all-Elsewhere (v ∷ visits) t id (h, hs) =
        refresh_all-Elsewhere visits (visit_server encode v t) id hs ∙ visit-Elsewhere v t id h

    -- A server is visited in a batch in which the visits before and after are of other servers. If its
    -- collection succeeds, its facts are encoded, restored by the decoder and inserted, and it is newer
    -- than every row of the server, then its facts are the latest after the batch, no matter which of
    -- the other visits fail.
    pub refresh_all-latest :
        (before after : List (Visit V)) (v : Visit V) (t : Table) (f : ServerFacts V) (text : Str)
        → Elsewhere v.server_id after
        → build_server_facts v.built_at v.server_id v.answers ≡ ok f
        → v.failure ≡ none
        → v.server_id ≢ []
        → encode f ≡ ok text
        → decode text ≡ ok f
        → AllBefore (row_time v.saved_at f) (rows_of v.server_id (refresh_all encode before t).rows)
        → get_latest_facts decode pick none (refresh_all encode (before ++ v ∷ after) t) v.server_id
          ≡ ok f
    unfolding refresh_all visit_server
    refresh_all-latest before after v t f text apart built fine named e d newer =
        ap (λ (t : Table). get_latest_facts decode pick none t v.server_id)
          (refresh_all-append before (v ∷ after) t)
        ∙ refresh_all-Elsewhere after _ v.server_id apart
        ∙ saved
      where
        t' : Table
        t' = refresh_all encode before t

        id_of : f.server_id ≡ v.server_id
        id_of = built_id v.built_at v.server_id v.answers built

        saved : get_latest_facts decode pick none (visit_server encode v t') v.server_id ≡ ok f
        saved =
            ap (λ (t : Table). get_latest_facts decode pick none t v.server_id)
              (visit_saves v t' f built fine)
            ∙ subst
                (λ id.
                  get_latest_facts decode pick none
                    (save_facts encode v.saved_at none (some f) t').1 id
                  ≡ ok f)
                id_of
                (get_latest_facts-save_facts pick law encode decode v.saved_at f text t'
                  (λ z. named (sym id_of ∙ z)) e d
                  (subst (λ id. AllBefore (row_time v.saved_at f) (rows_of id t'.rows)) (sym id_of)
                    newer))

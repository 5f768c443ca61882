-- ===== src/Facts/Build/Outcomes.antt =====
-- When a build fails, and what it merges when it does not.
use mathlib.Core.List.{foldl}
use rewsr_maxfields.Base.{
  ◌+◌, ◌≡◌, refl, ◌∙◌, Option, none, some, List, [], ◌∷◌, ◌++◌, arith, append-nil, append_assoc,
  Str, str, length,
}
use rewsr_maxfields.Facts.Types.{ServerFacts, Collector, Time, zero_facts}
use rewsr_maxfields.Facts.Merge.{merge_into}
use rewsr_maxfields.Facts.Build.{
  Result, ok, err, Run, join_errors, show_error, note_error, note_facts, run_collectors, first_run,
  complete, finish, build_server_facts,
}

abbrev pub onto {ℓ} : {A : Type ℓ} → Option A → List A → List A
onto none rest = rest
onto (some a) rest = a ∷ rest

module _ {V : Type 0} where
  -- The facts that the collectors return, in order, whether or not an error comes with them.
  abbrev pub reported : List (Collector V) → Str → List (ServerFacts V)
  reported [] server_id = []
  reported (c ∷ cs) server_id = onto (c server_id).0 (reported cs server_id)

  -- The errors that they return, in order.
  abbrev pub errors_of : List (Collector V) → Str → List Str
  errors_of [] server_id = []
  errors_of (c ∷ cs) server_id = onto (c server_id).1 (errors_of cs server_id)

  abbrev pub after : Run V → List (ServerFacts V) → List Str → Run V
  after r fs errs = record {
    merged = foldl merge_into r.merged fs;
    errs = r.errs ++ errs;
    successes = r.successes + length fs;
  }

  after_one :
      (cf : Option (ServerFacts V)) (e : Option Str) (r : Run V) (fs : List (ServerFacts V))
      (errs : List Str)
      → after (note_facts cf (record r { errs = note_error e r.errs })) fs errs
        ≡ after r (onto cf fs) (onto e errs)
  after_one none none r fs errs = refl
  after_one none (some e) r fs errs = ground (arith, append_assoc r.errs (e ∷ []) errs)
  after_one (some f) none r fs errs = ground arith
  after_one (some f) (some e) r fs errs = ground (arith, append_assoc r.errs (e ∷ []) errs)

  pub run_collectors_lem :
      (cs : List (Collector V)) (server_id : Str) (r : Run V)
      → run_collectors cs server_id r ≡ after r (reported cs server_id) (errors_of cs server_id)
  unfolding run_collectors
  run_collectors_lem [] server_id r = ground (arith, append-nil r.errs)
  run_collectors_lem (c ∷ cs) server_id r =
      run_collectors_lem cs server_id _ ∙ after_one (c server_id).0 (c server_id).1 r _ _

  -- Facts of the request alone, into which the reports are merged.
  abbrev pub merge_all : Str → List (ServerFacts V) → ServerFacts V
  merge_all server_id =
      foldl merge_into (record zero_facts { server_id = server_id; raw = some [] })

  abbrev pub outcome : Time → Str → List (ServerFacts V) → List Str → Result (ServerFacts V)
  outcome now server_id [] errs = err (
      str "all collectors failed for server "
      ++ (server_id ++ (str ": " ++ show_error (join_errors errs))))
  outcome now server_id (f ∷ fs) errs = ok (complete now server_id (merge_all server_id (f ∷ fs)))

  -- A build fails exactly when no collector returns facts, with all their errors joined. Otherwise
  -- it succeeds, whatever errors came along, with the merge of the reports in the collectors' order.
  pub build_server_facts_lem :
      (now : Time) (server_id : Str) (cs : List (Collector V))
      → build_server_facts now server_id cs
        ≡ outcome now server_id (reported cs server_id) (errors_of cs server_id)
  unfolding build_server_facts finish
  build_server_facts_lem now server_id cs =
      rw (run_collectors_lem cs server_id (first_run server_id)) (split (reported cs server_id))
    where
      split :
          (fs : List (ServerFacts V))
          → finish now server_id (record {
            merged = merge_all server_id fs;
            errs = errors_of cs server_id;
            successes = 0 + length fs;
          })
            ≡ outcome now server_id fs (errors_of cs server_id)
      split [] = ground arith
      split (f ∷ fs) = ground arith

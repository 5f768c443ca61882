-- ===== src/Facts/Build.antt =====
-- facts/merge.go: `BuildServerFacts` over the collectors in turn. A collector is the answer that it
-- gives in this run.
pub mod Gaps
pub mod Health
pub mod Outcomes
pub mod Unions
use rewsr_maxfields.Base.{
  ℕ, suc, Bool, true, false, Option, none, some, List, [], ◌∷◌, ◌++◌, Str, str,
}
use rewsr_maxfields.Text.Split.{join}
use rewsr_maxfields.Facts.Types.{ServerFacts, Collector, Time, zero_facts}
use rewsr_maxfields.Facts.Infer.{infer_capabilities, infer_health}
use rewsr_maxfields.Facts.Merge.{merge_into}

-- A result or an error.
pub data Result {ℓ} (A : Type ℓ) : Type ℓ where
  ok : A → Result A
  err : Str → Result A

-- `joinErrors`: nil for no error.
unfoldable pub join_errors : List Str → Option Str
join_errors [] = none
join_errors (e ∷ errs) = some (join (str "; ") (e ∷ errs))

-- What `%w` prints.
abbrev pub show_error : Option Str → Str
show_error none = str "%!w(<nil>)"
show_error (some e) = e

-- The variables of the loop.
pub record Run (V : Type 0) : Type 0 where
  pub merged : ServerFacts V
  pub errs : List Str
  pub successes : ℕ

abbrev pub note_error : Option Str → List Str → List Str
note_error none errs = errs
note_error (some e) errs = errs ++ e ∷ []

module _ {V : Type 0} where
  abbrev pub note_facts : Option (ServerFacts V) → Run V → Run V
  note_facts none r = r
  note_facts (some cf) r = record r { merged = merge_into r.merged cf; successes = suc r.successes }

  -- The loop over the collectors.
  unfoldable pub run_collectors : List (Collector V) → Str → Run V → Run V
  run_collectors [] server_id r = r
  run_collectors (c ∷ cs) server_id r =
      let (cf, e) = c server_id in
      run_collectors cs server_id (note_facts cf (record r { errs = note_error e r.errs }))

  abbrev pub first_run : Str → Run V
  first_run server_id = record {
    merged = record zero_facts { server_id = server_id; raw = some [] };
    errs = [];
    successes = 0;
  }

  -- The assignments behind the loop, in their order: health is inferred from the merged facts with
  -- the inferred capabilities.
  unfoldable pub complete : Time → Str → ServerFacts V → ServerFacts V
  complete now server_id m =
      let m₁ = record m { server_id = server_id; observed_at = now } in
      let m₂ = record m₁ { capabilities = infer_capabilities (some m₁) } in
      record m₂ { health = infer_health (some m₂) }

  unfoldable pub finish : Time → Str → Run V → Result (ServerFacts V)
  finish now server_id r = elim r.successes [
    | ℕ.zero ↦ err (
        str "all collectors failed for server "
        ++ (server_id ++ (str ": " ++ show_error (join_errors r.errs))))
    | suc _ ↦ ok (complete now server_id r.merged)
  ]

  unfoldable pub build_server_facts : Time → Str → List (Collector V) → Result (ServerFacts V)
  build_server_facts now server_id cs =
      finish now server_id (run_collectors cs server_id (first_run server_id))

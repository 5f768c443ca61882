-- ===== src/Collectors/Wiring/States.antt =====
-- Which collector decides the power state, the provisioning state and the failure domain of a server that
-- `serve` collects.
use rewsr_maxfields.Base.{
  ◌≡◌, ◌∙◌, refl, ap, Option, none, some, List, [], ◌∷◌, arith, map, Str, is_empty,
}
use rewsr_maxfields.Facts.Types.{ServerFacts, Collector, Time}
use rewsr_maxfields.Facts.Build.{Result, ok, build_server_facts}
use rewsr_maxfields.Facts.Build.Outcomes.{
  reported, errors_of, onto, outcome, build_server_facts_lem,
}
use rewsr_maxfields.Facts.Build.Gaps.{first_set, build_server_facts-IsFirst}
use rewsr_maxfields.Collectors.Sections.{Section}
use rewsr_maxfields.Collectors.Wiring.Silent.{States, states_of}

-- Each collector returns facts, with these states.
abbrev pub Answers : Str → List (Collector Section) → List States → Type 0
Answers id [] [] = Unit
Answers id [] (s ∷ ss) = ⊥
Answers id (c ∷ cs) [] = ⊥
Answers id (c ∷ cs) (s ∷ ss) = (states_of (c id).0 ≡ some s) × Answers id cs ss

abbrev state_list : List (ServerFacts Section) → List States
state_list [] = []
state_list (f ∷ fs) = (f.power_state, f.provisioning, f.failure_domain) ∷ state_list fs

state_list-onto :
    (o : Option (ServerFacts Section)) (s : States) (fs : List (ServerFacts Section))
    → states_of o ≡ some s
    → state_list (onto o fs) ≡ s ∷ state_list fs
state_list-onto none s fs e = ground arith
state_list-onto (some f) s fs e = ground arith

reported_lem :
    (id : Str) (cs : List (Collector Section)) (ss : List States)
    → Answers id cs ss
    → state_list (reported cs id) ≡ ss
reported_lem id [] [] h = refl
reported_lem id [] (s ∷ ss) h = absurd h
reported_lem id (c ∷ cs) [] h = absurd h
reported_lem id (c ∷ cs) (s ∷ ss) (e, h) =
    state_list-onto (c id).0 s (reported cs id) e ∙ ap (λ l. s ∷ l) (reported_lem id cs ss h)

powers :
    (fs : List (ServerFacts Section)) → map (λ f. f.power_state) fs ≡ map (λ s. s.0) (state_list fs)
powers [] = refl
powers (f ∷ fs) = ap (λ l. f.power_state ∷ l) (powers fs)

provisions :
    (fs : List (ServerFacts Section))
    → map (λ f. f.provisioning) fs ≡ map (λ s. s.1) (state_list fs)
provisions [] = refl
provisions (f ∷ fs) = ap (λ l. f.provisioning ∷ l) (provisions fs)

domains :
    (fs : List (ServerFacts Section))
    → map (λ f. f.failure_domain) fs ≡ map (λ s. s.2) (state_list fs)
domains [] = refl
domains (f ∷ fs) = ap (λ l. f.failure_domain ∷ l) (domains fs)

-- What is built, and the states that the first collectors to have one give it.
abbrev pub IsBuilt : Str → List States → Result (ServerFacts Section) → Type 0
IsBuilt id ss r =
    (f : ServerFacts Section) × (r ≡ ok f)
    × (f.power_state ≡ first_set is_empty [] (map (λ s. s.0) ss))
    × (f.provisioning ≡ first_set is_empty [] (map (λ s. s.1) ss))
    × (f.failure_domain ≡ first_set is_empty [] (map (λ s. s.2) ss))

outcome_built :
    (now : Time) (id : Str) (fs : List (ServerFacts Section)) (errs : List Str) (s : States)
    (ss : List States)
    → state_list fs ≡ s ∷ ss
    → (f : ServerFacts Section) × (outcome now id fs errs ≡ ok f)
outcome_built now id [] errs s ss e = ground arith
outcome_built now id (f ∷ fs) errs s ss e = (_, refl)

pub build_states :
    (now : Time) (id : Str) (cs : List (Collector Section)) (s : States) (ss : List States)
    → Answers id cs (s ∷ ss)
    → IsBuilt id (s ∷ ss) (build_server_facts now id cs)
build_states now id cs s ss h =
    let e = reported_lem id cs (s ∷ ss) h in
    let (f, built) = outcome_built now id (reported cs id) (errors_of cs id) s ss e in
    let r : build_server_facts now id cs ≡ ok f = build_server_facts_lem now id cs ∙ built in
    let first = build_server_facts-IsFirst now id cs r in
    (
      f,
      r,
      first.power_state
          ∙ ap (first_set is_empty []) (powers (reported cs id) ∙ ap (map (λ s. s.0)) e),
      first.provisioning
          ∙ ap (first_set is_empty []) (provisions (reported cs id) ∙ ap (map (λ s. s.1)) e),
      first.failure_domain
          ∙ ap (first_set is_empty []) (domains (reported cs id) ∙ ap (map (λ s. s.2)) e),
    )

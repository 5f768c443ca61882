-- ===== src/Fleet/Capable.antt =====
-- `FindCapable`: which servers are listed, how often, and in which order.
use rewsr_maxfields.Base.{
  ℕ, ◌≡◌, ◌∙◌, refl, Bool, true, ◌&&◌, Option, none, some, List, [], ◌∷◌, arith, Str, ◌==◌, str_eq,
  contains, count,
}
use rewsr_maxfields.Text.Sort.{IsSorted, sort-IsSorted, count-sort}
use rewsr_maxfields.Facts.Types.{ServerFacts}
use rewsr_maxfields.Fleet.{is_capable, capable_ids, find_capable, incr}

module _ {V : Type 0} where
  -- The servers that pass a test, nil entries aside.
  abbrev pub count_servers : (ServerFacts V → Bool) → List (Option (ServerFacts V)) → ℕ
  count_servers p [] = 0
  count_servers p (none ∷ fs) = count_servers p fs
  count_servers p (some f ∷ fs) = incr (p f) (count_servers p fs)

  abbrev pub holds_all : List Str → ServerFacts V → Bool
  holds_all [] f = true
  holds_all (r ∷ required) f = contains r f.capabilities && holds_all required f

  is_capable-holds_all :
      (required : List Str) (f : ServerFacts V) → is_capable required f ≡ holds_all required f
  unfolding is_capable
  is_capable-holds_all [] f = refl
  is_capable-holds_all (r ∷ required) f = ground (arith, is_capable-holds_all required f)

  count-capable_ids :
      (id : Str) (fs : List (Option (ServerFacts V))) (required : List Str)
      → count id (capable_ids fs required)
        ≡ count_servers (λ f. id == f.server_id && holds_all required f) fs
  unfolding capable_ids
  count-capable_ids id [] required = refl
  count-capable_ids id (none ∷ fs) required = count-capable_ids id fs required
  count-capable_ids id (some f ∷ fs) required =
      ground (arith, count-capable_ids id fs required, is_capable-holds_all required f)

  -- `FindCapable` lists an id as often as there are servers of that id that hold every required
  -- capability, and the list is ascending. With no requirement that is every server.
  pub find_capable_lem :
      (fs : List (Option (ServerFacts V))) (required : List Str)
      → ((id : Str)
          → count id (find_capable fs required)
            ≡ count_servers (λ f. id == f.server_id && holds_all required f) fs)
        × IsSorted (find_capable fs required)
  unfolding find_capable
  find_capable_lem fs required = (
    λ id. count-sort id (capable_ids fs required) ∙ count-capable_ids id fs required,
    sort-IsSorted (capable_ids fs required),
  )

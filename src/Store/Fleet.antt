-- ===== src/Store/Fleet.antt =====
-- The queries over all servers, and how they agree with the query for one.
use rewsr_maxfields.Base.{
  ℕ, ◌<◌, ◌≡◌, ◌∙◌, sym, ap, inl, inr, refl, Bool, false, ◌||◌, Option, none, some, List, [], ◌∷◌,
  arith, Str, ◌==◌, str_eq, contains, IsNodup, Option-cases,
}
use rewsr_maxfields.Text.Sort.{IsSorted, sort-IsSorted, sort-IsNodup, contains-sort}
use rewsr_maxfields.Facts.Types.{ServerFacts, Time}
use rewsr_maxfields.Facts.Build.{Result}
use rewsr_maxfields.Store.{
  Row, Table, rows_of, IsIn, AllUpTo, IsNewestPick, get_latest_facts, answer_row, distinct_ids,
  list_server_ids, max_row,
}
use rewsr_maxfields.Store.Save.{IdsAbove, IdsAscend}

-- Some row is of the server.
abbrev pub has_row : Str → List Row → Bool
has_row id [] = false
has_row id (r ∷ rows) = id == r.server_id || has_row id rows

contains-distinct_ids :
    (id : Str) (rows : List Row) → contains id (distinct_ids rows) ≡ has_row id rows
unfolding distinct_ids
contains-distinct_ids id [] = refl
contains-distinct_ids id (r ∷ rows) =
    ground (arith, contains-distinct_ids id rows, contains-distinct_ids r.server_id rows)

distinct_ids-IsNodup : (rows : List Row) → IsNodup (distinct_ids rows)
unfolding distinct_ids
distinct_ids-IsNodup [] = tt
distinct_ids-IsNodup (r ∷ rows) = ground (arith, distinct_ids-IsNodup rows)

-- `ListServerIDs` lists exactly the servers with at least one row, each once and in ascending order.
pub list_server_ids_lem :
    (t : Table)
    → ((id : Str) → contains id (list_server_ids t) ≡ has_row id t.rows)
      × IsNodup (list_server_ids t)
      × IsSorted (list_server_ids t)
unfolding list_server_ids
list_server_ids_lem t = (
  λ id. contains-sort id (distinct_ids t.rows) ∙ contains-distinct_ids id t.rows,
  sort-IsNodup (distinct_ids t.rows) (distinct_ids-IsNodup t.rows),
  sort-IsSorted (distinct_ids t.rows),
)

-- The last row of a list.
abbrev last_row : List Row → Option Row
last_row [] = none
last_row (r ∷ []) = some r
last_row (r ∷ s ∷ rows) = last_row (s ∷ rows)

abbrev pub TimesAbove : Time → List Row → Type 0
TimesAbove n [] = Unit
TimesAbove n (r ∷ rows) = (n < r.observed_at) × TimesAbove n rows

-- Each row is newer than the rows before it.
abbrev pub TimesAscend : List Row → Type 0
TimesAscend [] = Unit
TimesAscend (r ∷ rows) = TimesAbove r.observed_at rows × TimesAscend rows

IdsAbove-in : (n : ℕ) (rows : List Row) (r : Row) → IdsAbove n rows → IsIn r rows → n < r.id
IdsAbove-in n [] r h m = absurd m
IdsAbove-in n (s ∷ rows) r (h, hs) (inl e) = let l : r.id ≡ s.id = ap (λ q. q.id) e in omega arith
IdsAbove-in n (s ∷ rows) r (h, hs) (inr m) = IdsAbove-in n rows r hs m

last_row-IsIn : (rows : List Row) (r : Row) → last_row rows ≡ some r → IsIn r rows
last_row-IsIn [] r h = ground arith
last_row-IsIn (s ∷ []) r h = inl (ground arith)
last_row-IsIn (s ∷ x ∷ rows) r h = inr (last_row-IsIn (x ∷ rows) r h)

max_row-last : (rows : List Row) → IdsAscend rows → max_row rows ≡ last_row rows
unfolding max_row
max_row-last [] h = refl
max_row-last (r ∷ []) h = refl
max_row-last (r ∷ s ∷ rows) (above, ascend) = elim (Option-cases (last_row (s ∷ rows))) [
  | inl e ↦ absurd (never s rows e)
  | inr (x, e) ↦
      let l = IdsAbove-in r.id (s ∷ rows) x above (last_row-IsIn (s ∷ rows) x e) in
      ground (arith, max_row-last (s ∷ rows) ascend, e, l)
]
  where
    never : (s : Row) (rows : List Row) → last_row (s ∷ rows) ≡ none → ⊥
    never s [] e = ground arith
    never s (x ∷ rows) e = never x rows e

-- In ascending times the newest row is the last.
newest-last :
    (rows : List Row) (s : Row)
    → TimesAscend rows
    → IsIn s rows
    → AllUpTo s.observed_at rows
    → last_row rows ≡ some s
newest-last [] s a m up = absurd m
newest-last (r ∷ []) s a (inl e) up = ap some (sym e)
newest-last (r ∷ []) s a (inr m) up = absurd m
newest-last (r ∷ x ∷ rows) s ((l, ls), a) (inl e) (u, (v, up)) =
    let t : s.observed_at ≡ r.observed_at = ap (λ q. q.observed_at) e in absurd (omega arith)
newest-last (r ∷ x ∷ rows) s (l, a) (inr m) (u, up) = newest-last (x ∷ rows) s a m up

module _ (pick : List Row → Option Row) (law : IsNewestPick pick) where
  pick-last_row : (rows : List Row) → TimesAscend rows → pick rows ≡ last_row rows
  pick-last_row [] h = law.pick-nil
  pick-last_row (r ∷ rows) h = elim (Option-cases (pick (r ∷ rows))) [
    | inl e ↦ absurd (law.pick-cons r rows e)
    | inr (s, e) ↦ e ∙ sym (newest-last (r ∷ rows) s h (law.pick-mem _ s e) (law.pick-newest _ s e))
  ]

  -- Where the rows of a server were inserted with ascending ids and ever later times, `GetLatestFacts`
  -- decodes the very row that `GetAllLatestFacts` takes for the server, although one goes by the time
  -- and the other by the row id.
  pub get_latest_facts-max_row :
      {V : Type 0} (decode : Str → Result (ServerFacts V)) (t : Table) (id : Str)
      → IdsAscend (rows_of id t.rows)
      → TimesAscend (rows_of id t.rows)
      → get_latest_facts decode pick none t id ≡ answer_row decode id (max_row (rows_of id t.rows))
  unfolding get_latest_facts
  get_latest_facts-max_row decode t id ids times =
      ap (answer_row decode id)
        (pick-last_row (rows_of id t.rows) times ∙ sym (max_row-last (rows_of id t.rows) ids))

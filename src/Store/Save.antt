-- ===== src/Store/Save.antt =====
-- `SaveFacts`: what each outcome leaves in the table.
use rewsr_maxfields.Base.{
  ℕ, suc, ◌<◌, ◌≡◌, ◌≢◌, refl, Option, none, some, List, [], ◌∷◌, ◌++◌, arith, Str, str, str_eq,
  is_empty, if◌then◌else◌,
}
use rewsr_maxfields.Facts.Types.{ServerFacts, Time, is_zero_time}
use rewsr_maxfields.Facts.Build.{Result, ok, err}
use rewsr_maxfields.Store.{Row, Table, insert_row, save_text, save_facts}

-- Every id is below `n`.
abbrev pub IdsBelow : ℕ → List Row → Type 0
IdsBelow n [] = Unit
IdsBelow n (r ∷ rows) = (r.id < n) × IdsBelow n rows

abbrev pub IdsAbove : ℕ → List Row → Type 0
IdsAbove n [] = Unit
IdsAbove n (r ∷ rows) = (n < r.id) × IdsAbove n rows

abbrev pub IdsAscend : List Row → Type 0
IdsAscend [] = Unit
IdsAscend (r ∷ rows) = IdsAbove r.id rows × IdsAscend rows

-- The ids ascend in the order of insertion, and the next one is fresh.
abbrev pub IsTable : Table → Type 0
IsTable t = IdsBelow t.next_id t.rows × IdsAscend t.rows

IdsBelow-append :
    (n : ℕ) (rows : List Row) (r : Row)
    → IdsBelow n rows
    → r.id ≡ n
    → IdsBelow (suc n) (rows ++ r ∷ [])
IdsBelow-append n [] r h e = (omega arith, tt)
IdsBelow-append n (s ∷ rows) r (h, hs) e = (omega arith, IdsBelow-append n rows r hs e)

IdsAbove-append :
    (n : ℕ) (rows : List Row) (r : Row) → IdsAbove n rows → n < r.id → IdsAbove n (rows ++ r ∷ [])
IdsAbove-append n [] r h l = (l, tt)
IdsAbove-append n (s ∷ rows) r (h, hs) l = (h, IdsAbove-append n rows r hs l)

IdsAscend-append :
    (rows : List Row) (r : Row) → IdsBelow r.id rows → IdsAscend rows → IdsAscend (rows ++ r ∷ [])
IdsAscend-append [] r b a = (tt, tt)
IdsAscend-append (s ∷ rows) r (b, bs) (above, ascend) =
    (IdsAbove-append s.id rows r above b, IdsAscend-append rows r bs ascend)

insert_row-IsTable :
    (server_id : Str) (at : Time) (text : Str) (t : Table)
    → IsTable t
    → IsTable (insert_row server_id at text t)
unfolding insert_row
insert_row-IsTable server_id at text t (below, ascend) =
    (IdsBelow-append t.next_id t.rows _ below refl, IdsAscend-append t.rows _ below ascend)

module _ {V : Type 0} where
  -- The time in the column: that of the facts, or now for facts that carry none.
  abbrev pub row_time : Time → ServerFacts V → Time
  row_time now f = if is_zero_time f.observed_at then now else f.observed_at

  -- The row that a successful insertion appends.
  abbrev pub new_row : Time → ServerFacts V → Str → Table → Row
  new_row now f text t = record {
    id = t.next_id;
    server_id = f.server_id;
    observed_at = row_time now f;
    data_text = text;
  }

  save_text-IsTable :
      (now : Time) (failure : Option Str) (f : ServerFacts V) (text : Result Str) (t : Table)
      → IsTable t
      → IsTable (save_text now failure f text t).1
  unfolding save_text
  save_text-IsTable now failure f (err e) t h = h
  save_text-IsTable now (some e) f (ok text) t h = h
  save_text-IsTable now none f (ok text) t h = insert_row-IsTable f.server_id _ text t h

module _ {V : Type 0} (encode : ServerFacts V → Result Str) where
  -- `SaveFacts` keeps the ids of the table ascending and the next one fresh, whatever it answers.
  pub save_facts-IsTable :
      (now : Time) (failure : Option Str) (f : Option (ServerFacts V)) (t : Table)
      → IsTable t
      → IsTable (save_facts encode now failure f t).1
  unfolding save_facts
  save_facts-IsTable now failure none t h = h
  save_facts-IsTable now failure (some f) t h =
      ground (arith, save_text-IsTable now failure f (encode f) t h)

  -- What an outcome says of the table.
  abbrev pub Saved :
      Time → Option Str → Option (ServerFacts V) → Table → Result (Unit {0}) × Table → Type 0
  Saved now failure f t (err e, t') = t' ≡ t
  Saved now failure none t (ok _, t') = ⊥
  Saved now failure (some f) t (ok _, t') =
      (f.server_id ≢ [])
      × (failure ≡ none)
      × ((text : Str) × (encode f ≡ ok text)
          × (t' ≡ record { rows = t.rows ++ new_row now f text t ∷ []; next_id = suc t.next_id }))

  save_text-Saved :
      (now : Time) (failure : Option Str) (f : ServerFacts V) (text : Result Str) (t : Table)
      → f.server_id ≢ []
      → encode f ≡ text
      → Saved now failure (some f) t (save_text now failure f text t)
  unfolding save_text
  save_text-Saved now failure f (err e) t h known = refl
  save_text-Saved now (some e) f (ok text) t h known = refl
  save_text-Saved now none f (ok text) t h known =
      (h, refl, (text, known, unfold insert_row in refl))

  -- `SaveFacts` either answers an error and leaves the table as it was, or succeeds, and then the facts
  -- were given, have an id, were encoded, and stand in one new row behind the others, under a time that
  -- is theirs or, if they carry none, now.
  pub save_facts-Saved :
      (now : Time) (failure : Option Str) (f : Option (ServerFacts V)) (t : Table)
      → Saved now failure f t (save_facts encode now failure f t)
  unfolding save_facts
  save_facts-Saved now failure none t = refl
  save_facts-Saved now failure (some f) t = go f.server_id refl
    where
      go :
          (id : Str)
          → f.server_id ≡ id
          → Saved now failure (some f) t (
              if is_empty id
              then (err (str "store: SaveFacts called with empty ServerID"), t)
              else save_text now failure f (encode f) t)
      go [] e = refl
      go (c ∷ id) e = save_text-Saved now failure f (encode f) t (λ z. ground (arith, z, e)) refl

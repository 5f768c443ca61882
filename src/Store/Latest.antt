-- ===== src/Store/Latest.antt =====
-- `GetLatestFacts` behind `SaveFacts`.
use rewsr_maxfields.Base.{
  ◌<◌, ◌≡◌, ◌≢◌, ◌∙◌, ap, inl, inr, refl, Option, none, some, List, [], ◌∷◌, ◌++◌, arith,
  append-nil, Str, ◌==◌, str_eq, ==_refl, if◌then◌else◌, Option-cases,
}
use rewsr_maxfields.Facts.Types.{ServerFacts, Time}
use rewsr_maxfields.Facts.Build.{Result, ok, err}
use rewsr_maxfields.Store.{
  Row, Table, insert_row, save_text, save_facts, rows_of, IsIn, AllUpTo, IsNewestPick,
  get_latest_facts, answer_row,
}
use rewsr_maxfields.Store.Save.{row_time, new_row, Saved, save_facts-Saved}

-- Every row is older than `t`.
abbrev pub AllBefore : Time → List Row → Type 0
AllBefore t [] = Unit
AllBefore t (s ∷ rows) = (s.observed_at < t) × AllBefore t rows

rows_of-append :
    (id : Str) (rows : List Row) (r : Row)
    → rows_of id (rows ++ r ∷ []) ≡ rows_of id rows ++ (if id == r.server_id then r ∷ [] else [])
unfolding rows_of
rows_of-append id [] r = ground arith
rows_of-append id (s ∷ rows) r = ground (arith, rows_of-append id rows r)

newest_is_last :
    (rows : List Row) (r s : Row)
    → AllBefore r.observed_at rows
    → IsIn s (rows ++ r ∷ [])
    → AllUpTo s.observed_at (rows ++ r ∷ [])
    → s ≡ r
newest_is_last [] r s h (inl e) up = e
newest_is_last [] r s h (inr m) up = absurd m
newest_is_last (x ∷ rows) r s (h, hs) (inl e) (u, up) = absurd (older rows up)
  where
    older : (rows : List Row) → AllUpTo s.observed_at (rows ++ r ∷ []) → ⊥
    older [] (u, up) =
        let l : s.observed_at ≡ x.observed_at = ap (λ q. q.observed_at) e in omega arith
    older (y ∷ rows) (u, up) = older rows up
newest_is_last (x ∷ rows) r s (h, hs) (inr m) (u, up) = newest_is_last rows r s hs m up

module _ (pick : List Row → Option Row) (law : IsNewestPick pick) where
  pick-append :
      (rows : List Row) (r : Row) → AllBefore r.observed_at rows → pick (rows ++ r ∷ []) ≡ some r
  pick-append rows r h = elim (Option-cases (pick (rows ++ r ∷ []))) [
    | inl e ↦ absurd (never rows e)
    | inr (s, e) ↦
        e ∙ ap some (newest_is_last rows r s h (law.pick-mem _ s e) (law.pick-newest _ s e))
  ]
    where
      never : (rows : List Row) → pick (rows ++ r ∷ []) ≡ none → ⊥
      never [] e = law.pick-cons r [] e
      never (x ∷ rows) e = law.pick-cons x (rows ++ r ∷ []) e

  module _ {V : Type 0} (encode : ServerFacts V → Result Str)
      (decode : Str → Result (ServerFacts V)) where
    pub save_row :
        (now : Time) (f : ServerFacts V) (text : Str) (t : Table)
        → f.server_id ≢ []
        → encode f ≡ ok text
        → save_facts encode now none (some f) t
          ≡ (ok tt, insert_row f.server_id (row_time now f) text t)
    unfolding save_facts save_text
    save_row now f text t h e = ground (arith, h, e)

    -- Facts that are saved with an id, a codec that restores them and a time later than every row of
    -- their server are the latest facts of that server.
    pub get_latest_facts-save_facts :
        (now : Time) (f : ServerFacts V) (text : Str) (t : Table)
        → f.server_id ≢ []
        → encode f ≡ ok text
        → decode text ≡ ok f
        → AllBefore (row_time now f) (rows_of f.server_id t.rows)
        → get_latest_facts decode pick none (save_facts encode now none (some f) t).1 f.server_id
          ≡ ok f
    unfolding get_latest_facts insert_row
    get_latest_facts-save_facts now f text t h e d newer =
        let r = new_row now f text t in
        rw (save_row now f text t h e) (
          ap (λ rows. answer_row decode f.server_id (pick rows))
            (rows_of-append f.server_id t.rows r)
          ∙ rw (==_refl f.server_id) (
              ap (answer_row decode f.server_id) (pick-append (rows_of f.server_id t.rows) r newer)
              ∙ ground (arith, d)))

    rows_of-Saved :
        (now : Time) (failure : Option Str) (f : Option (ServerFacts V)) (t : Table) (id : Str)
        → ((g : ServerFacts V) → f ≡ some g → id ≢ g.server_id)
        → (r : Result (Unit {0}) × Table) → Saved encode now failure f t r
        → rows_of id r.1.rows ≡ rows_of id t.rows
    rows_of-Saved now failure f t id other (err e, t') same = rw same
    rows_of-Saved now failure none t id other (ok _, t') impossible = absurd impossible
    rows_of-Saved now failure (some f) t id other (ok _, t') (h, fine, (text, known, e)) =
        ap (λ (t : Table). rows_of id t.rows) e
        ∙ rows_of-append id t.rows (new_row now f text t)
        ∙ ground (arith, other f refl, append-nil (rows_of id t.rows))

    -- Saving facts of one server changes nothing that is answered for another, whether or not the
    -- insertion succeeds.
    pub get_latest_facts-save_facts_ne :
        (now : Time) (failure broken : Option Str) (f : Option (ServerFacts V)) (t : Table)
        (id : Str)
        → ((g : ServerFacts V) → f ≡ some g → id ≢ g.server_id)
        → get_latest_facts decode pick broken (save_facts encode now failure f t).1 id
          ≡ get_latest_facts decode pick broken t id
    unfolding get_latest_facts
    get_latest_facts-save_facts_ne now failure broken f t id other =
        let same =
          rows_of-Saved now failure f t id other (save_facts encode now failure f t)
            (save_facts-Saved encode now failure f t) in
        go broken same
      where
        go :
            (broken : Option Str)
            → rows_of id (save_facts encode now failure f t).1.rows ≡ rows_of id t.rows
            → get_latest_facts decode pick broken (save_facts encode now failure f t).1 id
              ≡ get_latest_facts decode pick broken t id
        go none same = ap (λ rows. answer_row decode id (pick rows)) same
        go (some e) same = refl

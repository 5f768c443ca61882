-- ===== src/Store/Refines.antt =====
-- The store as what it promises: a map from a server to its latest facts, whatever rows stand behind it.
use rewsr_maxfields.Base.{
  suc, ◌≤◌, ◌<◌, ◌≡◌, ◌≢◌, ◌∙◌, refl, ap, Bool, true, false, not, ◌&&◌, Option, none, some, List,
  [], ◌∷◌, ◌++◌, arith, Str, str, ◌==◌, str_eq, ==→≡, is_empty, if◌then◌else◌, Bool-cases, inl, inr,
}
use rewsr_maxfields.Facts.Types.{ServerFacts, Time}
use rewsr_maxfields.Facts.Build.{Result, ok, err}
use rewsr_maxfields.Store.{
  Row, Table, empty_table, insert_row, save_text, save_facts, rows_of, IsNewestPick,
  get_latest_facts,
}
use rewsr_maxfields.Store.Save.{row_time}
use rewsr_maxfields.Store.Latest.{
  AllBefore, save_row, get_latest_facts-save_facts, get_latest_facts-save_facts_ne,
}

-- A call of `SaveFacts`, the clock at its time, and the error of its insertion, if it fails.
pub record Write (V : Type 0) : Type 0 where
  pub now : Time
  pub failure : Option Str
  pub facts : ServerFacts V

-- The abstract store.
abbrev pub View : Type 0 → Type 0
View V = Str → Option (ServerFacts V)

abbrev pub no_facts : {V : Type 0} → View V
no_facts id = none

abbrev is_ok : Result Str → Bool
is_ok (ok _) = true
is_ok (err _) = false

abbrev is_none : Option Str → Bool
is_none none = true
is_none (some _) = false

module _ {V : Type 0} (encode : ServerFacts V → Result Str) where
  -- Facts with an id that can be encoded, and an insertion that succeeds.
  abbrev pub is_accepted : Write V → Bool
  is_accepted w = not (is_empty w.facts.server_id) && is_none w.failure && is_ok (encode w.facts)

  -- An accepted write replaces the facts of its server; another changes nothing.
  abbrev pub write_view : Write V → View V → View V
  write_view w m id = if is_accepted w && id == w.facts.server_id then some w.facts else m id

  abbrev pub write_views : List (Write V) → View V → View V
  write_views [] m = m
  write_views (w ∷ ws) m = write_views ws (write_view w m)

  -- The writes as the store does them.
  abbrev pub save_all : List (Write V) → Table → Table
  save_all [] t = t
  save_all (w ∷ ws) t = save_all ws (save_facts encode w.now w.failure (some w.facts) t).1

  -- Each write is later than the ones before.
  abbrev pub Ascend : Time → List (Write V) → Type 0
  Ascend time [] = Unit
  Ascend time (w ∷ ws) = (time ≤ row_time w.now w.facts) × Ascend (suc (row_time w.now w.facts)) ws

  module _ (decode : Str → Result (ServerFacts V)) where
    -- What can be encoded is restored.
    abbrev pub Restores : List (Write V) → Type 0
    Restores [] = Unit
    Restores (w ∷ ws) =
        ((text : Str) → encode w.facts ≡ ok text → decode text ≡ ok w.facts) × Restores ws

    abbrev pub answer : Str → Option (ServerFacts V) → Result (ServerFacts V)
    answer id none = err (str "store: no facts on record for server " ++ id)
    answer id (some f) = ok f

    -- Every answer of `GetLatestFacts` is that of the map.
    abbrev pub Represents : (List Row → Option Row) → Table → View V → Type 0
    Represents pick t m = (id : Str) → get_latest_facts decode pick none t id ≡ answer id (m id)

  -- A write that is not accepted leaves the table as it was.
  rejected :
      (w : Write V) (t : Table)
      → is_accepted w ≡ false
      → (save_facts encode w.now w.failure (some w.facts) t).1 ≡ t
  unfolding save_facts save_text
  rejected w t h = ground arith

  accepted :
      (w : Write V)
      → is_accepted w ≡ true
      → (text : Str) × (encode w.facts ≡ ok text) × (w.failure ≡ none) × (w.facts.server_id ≢ [])
  accepted w h = go (encode w.facts) refl
    where
      go :
          (r : Result Str)
          → encode w.facts ≡ r
          → (text : Str) × (encode w.facts ≡ ok text)
            × (w.failure ≡ none)
            × (w.facts.server_id ≢ [])
      go (err e) known = ground (arith, h, known)
      go (ok text) known = (text, known, ground (arith, h, known), λ z. ground (arith, h, z))

module _ {V : Type 0} (pick : List Row → Option Row) (law : IsNewestPick pick)
    (encode : ServerFacts V → Result Str) (decode : Str → Result (ServerFacts V)) where
  saved :
      (w : Write V) (t : Table)
      → is_accepted encode w ≡ true
      → (text : Str) × (encode w.facts ≡ ok text)
        × ((save_facts encode w.now w.failure (some w.facts) t).1
            ≡ insert_row w.facts.server_id (row_time w.now w.facts) text t)
  saved w t h =
      let (text, known, fine, named) = accepted encode w h in
      (
        text,
        known,
        rw fine (ap (λ r. r.1) (save_row pick law encode decode w.now w.facts text t named known)),
      )

  AllBefore-append :
      (m n : Time) (rows : List Row) (r : Row)
      → AllBefore m rows
      → m ≤ n
      → r.observed_at < n
      → AllBefore n (rows ++ r ∷ [])
  AllBefore-append m n [] r h l k = (k, tt)
  AllBefore-append m n (s ∷ rows) r (h, hs) l k =
      (omega (arith, h), AllBefore-append m n rows r hs l k)

  AllBefore-weaken : (m n : Time) (rows : List Row) → AllBefore m rows → m ≤ n → AllBefore n rows
  AllBefore-weaken m n [] h l = tt
  AllBefore-weaken m n (s ∷ rows) (h, hs) l = (omega (arith, h), AllBefore-weaken m n rows hs l)

  AllBefore-rows_of :
      (n : Time) (id : Str) (rows : List Row) → AllBefore n rows → AllBefore n (rows_of id rows)
  unfolding rows_of
  AllBefore-rows_of n id [] h = tt
  AllBefore-rows_of n id (s ∷ rows) (h, hs) =
      go (id == s.server_id) (AllBefore-rows_of n id rows hs)
    where
      go :
          (b : Bool)
          → AllBefore n (rows_of id rows)
          → AllBefore n (elim b [ true ↦ s ∷ rows_of id rows | false ↦ rows_of id rows ])
      go true rest = (h, rest)
      go false rest = rest

  AllBefore-save :
      (w : Write V) (t : Table) (time : Time)
      → AllBefore time t.rows
      → time ≤ row_time w.now w.facts
      → AllBefore
          (suc (row_time w.now w.facts))
          (save_facts encode w.now w.failure (some w.facts) t).1.rows
  AllBefore-save w t time h l = elim (Bool-cases (is_accepted encode w)) [
    | inr e ↦ rw (rejected encode w t e) (AllBefore-weaken time _ t.rows h (omega (arith, l)))
    | inl e ↦
        let (text, known, same) = saved w t e in
        rw same
          (unfold insert_row in AllBefore-append time _ t.rows _ h (omega (arith, l)) (omega arith))
  ]

  -- One write: the table goes on to represent the map.
  Represents-save :
      (w : Write V) (t : Table) (m : View V)
      → ((text : Str) → encode w.facts ≡ ok text → decode text ≡ ok w.facts)
      → AllBefore (row_time w.now w.facts) t.rows
      → Represents encode decode pick t m
      → Represents encode decode pick
          (save_facts encode w.now w.failure (some w.facts) t).1
          (write_view encode w m)
  Represents-save w t m restored older h id = elim (Bool-cases (is_accepted encode w)) [
    | inr e ↦ rw (rejected encode w t e, e) (h id)
    | inl e ↦ elim (Bool-cases (id == w.facts.server_id)) [
      | inr other ↦
          rw (e, other)
            (get_latest_facts-save_facts_ne pick law encode decode w.now w.failure none
                (some w.facts) t id (λ g same. ground (arith, same, other))
              ∙ h id)
      | inl same ↦
          let (text, known, fine, named) = accepted encode w e in
          rw (e, same, fine, ==→≡ id w.facts.server_id same)
            (get_latest_facts-save_facts pick law encode decode w.now w.facts text t named known
              (restored text known) (AllBefore-rows_of _ w.facts.server_id t.rows older))
    ]
  ]

  save_all-Represents :
      (ws : List (Write V)) (t : Table) (m : View V) (time : Time)
      → Restores encode decode ws
      → Ascend encode time ws
      → AllBefore time t.rows
      → Represents encode decode pick t m
      → Represents encode decode pick (save_all encode ws t) (write_views encode ws m)
  save_all-Represents [] t m time restored ascend older h = h
  save_all-Represents (w ∷ ws) t m time (r, restored) (l, ascend) older h =
      save_all-Represents ws _ (write_view encode w m) _ restored ascend
        (AllBefore-save w t time older l)
        (Represents-save w t m r (AllBefore-weaken time _ t.rows older l) h)

  -- The store refines a map from a server to its latest facts: after any writes to an empty store, each
  -- later than the ones before, `GetLatestFacts` answers for every server the facts of the last accepted
  -- write of that server, and the error of an unknown server where there is none. A write is accepted
  -- if its facts have an id and can be encoded and its insertion succeeds; another changes no answer.
  -- What can be encoded is restored by the decoder.
  pub get_latest_facts-save_all :
      (ws : List (Write V))
      → Restores encode decode ws
      → Ascend encode 0 ws
      → Represents encode decode pick
          (save_all encode ws empty_table)
          (write_views encode ws no_facts)
  unfolding get_latest_facts rows_of
  get_latest_facts-save_all ws restored ascend =
      save_all-Represents ws empty_table no_facts 0 restored ascend tt empty
    where
      empty : Represents encode decode pick empty_table no_facts
      empty id = rw law.pick-nil refl

-- ===== src/Store.antt =====
-- store/: the SQLite tables and the statements that are run on them. The driver and `encoding/json`
-- are parameters: `encode` and `decode` of the facts, an error that the database may answer with, and
-- the row that a query with a limit of one picks among the newest.
pub mod Latest
pub mod Fleet
pub mod Provisioning
pub mod Save
pub mod Refines
pub mod Tests
use rewsr_maxfields.Base.{
  ℕ, suc, ◌+◌, ◌≤◌, ◌<◌, ◌≡◌, ◌≢◌, ◌⊎◌, Bool, true, false, not, ◌&&◌, Option, none, some, List, [],
  ◌∷◌, ◌++◌, map, Str, str, ◌==◌, str_eq, contains, is_empty, keep, leb, if◌then◌else◌,
}
use rewsr_maxfields.Text.Sort.{sort}
use rewsr_maxfields.Facts.Types.{ServerFacts, Time, is_zero_time}
use rewsr_maxfields.Facts.Build.{Result, ok, err}

-- A row of `server_facts`.
pub record Row : Type 0 where
  pub id : ℕ
  pub server_id : Str
  pub observed_at : Time
  pub data_text : Str

-- The rows in the order of insertion, and the next AUTOINCREMENT id.
pub record Table : Type 0 where
  pub rows : List Row
  pub next_id : ℕ

abbrev pub empty_table : Table
empty_table = record { rows = []; next_id = 1 }

-- INSERT INTO server_facts (server_id, observed_at, data) VALUES (?, ?, ?)
unfoldable pub insert_row : Str → Time → Str → Table → Table
insert_row server_id observed_at text t = record {
  rows =
      t.rows
      ++ record {
        id = t.next_id;
        server_id = server_id;
        observed_at = observed_at;
        data_text = text;
      }
        ∷ [];
  next_id = suc t.next_id;
}

-- WHERE server_id = ?
unfoldable pub rows_of : Str → List Row → List Row
rows_of server_id rows = keep (λ r. server_id == r.server_id) rows

-- The row is one of the list.
abbrev pub IsIn : Row → List Row → Type 0
IsIn r [] = ⊥
IsIn r (s ∷ rows) = (r ≡ s) ⊎ IsIn r rows

-- No row is newer than `t`.
abbrev pub AllUpTo : Time → List Row → Type 0
AllUpTo t [] = Unit
AllUpTo t (s ∷ rows) = (s.observed_at ≤ t) × AllUpTo t rows

-- `ORDER BY observed_at DESC LIMIT 1` answers a row that none is newer than, if there is a row. Which
-- one among equally new rows SQL leaves open.
pub record IsNewestPick (pick : List Row → Option Row) : Type 0 where
  pub pick-nil : pick [] ≡ none
  pub pick-cons : (r : Row) (rows : List Row) → pick (r ∷ rows) ≢ none
  pub pick-mem : (rows : List Row) (r : Row) → pick rows ≡ some r → IsIn r rows
  pub pick-newest : (rows : List Row) (r : Row) → pick rows ≡ some r → AllUpTo r.observed_at rows

-- The last of the newest rows, as the index on (server_id, observed_at) gives it.
unfoldable pub pick_last : List Row → Option Row
pick_last [] = none
pick_last (r ∷ rows) = elim (pick_last rows) [
  | none ↦ some r
  | some s ↦ if leb r.observed_at s.observed_at then some s else some r
]

-- `fmt.Errorf("store: … %s: %w", …)`
abbrev pub wrap_error : Str → Str → Str → Str
wrap_error what server_id e = what ++ (server_id ++ (str ": " ++ e))

-- The steps behind the checks: encode, default the time, insert.
unfoldable pub save_text :
    {V : Type 0}
    → Time
    → Option Str
    → ServerFacts V
    → Result Str
    → Table
    → Result (Unit {0}) × Table
save_text now failure f (err e) t =
    (err (wrap_error (str "store: marshaling facts for ") f.server_id e), t)
save_text now (some e) f (ok text) t =
    (err (wrap_error (str "store: saving facts for ") f.server_id e), t)
save_text now none f (ok text) t = (
  ok tt,
  insert_row f.server_id (if is_zero_time f.observed_at then now else f.observed_at) text t,
)

module _ {V : Type 0} (encode : ServerFacts V → Result Str) where
  -- `failure` is the error of the INSERT, if it fails.
  unfoldable pub save_facts :
      Time → Option Str → Option (ServerFacts V) → Table → Result (Unit {0}) × Table
  save_facts now failure none t = (err (str "store: SaveFacts called with nil facts"), t)
  save_facts now failure (some f) t =
      if is_empty f.server_id
      then (err (str "store: SaveFacts called with empty ServerID"), t)
      else save_text now failure f (encode f) t

-- The scanned text decoded, with an error that says where it was.
abbrev pub decode_row :
    {V : Type 0} → (Str → Result (ServerFacts V)) → Str → Str → Result (ServerFacts V)
decode_row decode what text = elim (decode text) [ err e ↦ err (what ++ e) | ok f ↦ ok f ]

abbrev pub answer_row :
    {V : Type 0} → (Str → Result (ServerFacts V)) → Str → Option Row → Result (ServerFacts V)
answer_row decode server_id none = err (str "store: no facts on record for server " ++ server_id)
answer_row decode server_id (some r) =
    decode_row decode (str "store: decoding facts for " ++ (server_id ++ str ": ")) r.data_text

module _ {V : Type 0} (decode : Str → Result (ServerFacts V)) (pick : List Row → Option Row) where
  -- `failure` is the error of the query, if it fails.
  unfoldable pub get_latest_facts : Option Str → Table → Str → Result (ServerFacts V)
  get_latest_facts (some e) t server_id =
      err (wrap_error (str "store: querying facts for ") server_id e)
  get_latest_facts none t server_id = answer_row decode server_id (pick (rows_of server_id t.rows))

-- SELECT DISTINCT server_id FROM server_facts
unfoldable pub distinct_ids : List Row → List Str
distinct_ids [] = []
distinct_ids (r ∷ rows) =
    let rest = distinct_ids rows in if contains r.server_id rest then rest else r.server_id ∷ rest

-- ORDER BY server_id
unfoldable pub list_server_ids : Table → List Str
list_server_ids t = sort (distinct_ids t.rows)

-- `failure` is the error of the query, if it fails.
unfoldable pub query_server_ids : Option Str → Table → Result (List Str)
query_server_ids (some e) t = err (str "store: listing server ids: " ++ e)
query_server_ids none t = ok (list_server_ids t)

-- The row with MAX(id) of a group.
unfoldable pub max_row : List Row → Option Row
max_row [] = none
max_row (r ∷ rows) = elim (max_row rows) [
  | none ↦ some r
  | some s ↦ if leb r.id s.id then some s else some r
]

-- The latest row of each server, ordered by server id.
unfoldable pub latest_rows : List Str → List Row → List Row
latest_rows [] rows = []
latest_rows (id ∷ ids) rows = elim (max_row (rows_of id rows)) [
  | none ↦ latest_rows ids rows
  | some r ↦ r ∷ latest_rows ids rows
]

module _ {V : Type 0} (decode : Str → Result (ServerFacts V)) where
  -- The scan of the joined rows: the first row that does not decode ends it.
  unfoldable pub decode_all : List Row → Result (List (ServerFacts V))
  decode_all [] = ok []
  decode_all (r ∷ rows) = elim (decode r.data_text) [
    | err e ↦ err (str "store: decoding fleet facts: " ++ e)
    | ok f ↦ elim (decode_all rows) [ err e ↦ err e | ok fs ↦ ok (f ∷ fs) ]
  ]

  unfoldable pub get_all_latest_facts : Table → Result (List (ServerFacts V))
  get_all_latest_facts t = decode_all (latest_rows (list_server_ids t) t.rows)

  unfoldable pub query_all_latest_facts : Option Str → Table → Result (List (ServerFacts V))
  query_all_latest_facts (some e) t = err (str "store: querying latest fleet facts: " ++ e)
  query_all_latest_facts none t = get_all_latest_facts t

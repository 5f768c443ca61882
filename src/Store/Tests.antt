-- ===== src/Store/Tests.antt =====
-- Runs that follow store/list_test.go, the row picked with SQLite's index, and the theorems there.
use rewsr_maxfields.Base.{
  ℕ, ◌≤◌, ◌≡◌, ◌≢◌, inl, inr, refl, none, some, List, [], ◌∷◌, arith, Str, str, ◌==◌, nat_eq,
  str_eq, is_empty, if◌then◌else◌, Option-cases,
}
use rewsr_maxfields.Base.Int.{pos}
use rewsr_maxfields.Text.Sort.{sort}
use rewsr_maxfields.Facts.Types.{ServerFacts, zero_facts}
use rewsr_maxfields.Facts.Build.{Result, ok}
use rewsr_maxfields.Store.{
  Row, Table, empty_table, save_facts, rows_of, IsIn, AllUpTo, IsNewestPick, pick_last,
  distinct_ids, list_server_ids, max_row, get_all_latest_facts, latest_rows, decode_all,
}
use rewsr_maxfields.Store.Save.{IsTable, save_facts-IsTable, Saved, save_facts-Saved, row_time}
use rewsr_maxfields.Store.Latest.{AllBefore}
use rewsr_maxfields.Store.Refines.{
  Write, no_facts, write_views, save_all, Represents, get_latest_facts-save_all,
}
use rewsr_maxfields.Store.Provisioning.{
  get_provisioning, set_provisioning, get_provisioning-set_provisioning,
}

pick_last-cons : (r : Row) (rows : List Row) → pick_last (r ∷ rows) ≢ none
unfolding pick_last
pick_last-cons r rows = ground arith

pick_last-mem : (rows : List Row) (r : Row) → pick_last rows ≡ some r → IsIn r rows
unfolding pick_last
pick_last-mem [] r h = ground arith
pick_last-mem (s ∷ rows) r h = ground (arith, pick_last-mem rows r)

AllUpTo-weaken : (a b : ℕ) (rows : List Row) → a ≤ b → AllUpTo a rows → AllUpTo b rows
AllUpTo-weaken a b [] l h = tt
AllUpTo-weaken a b (r ∷ rows) l (h, hs) = (omega arith, AllUpTo-weaken a b rows l hs)

pick_last-none : (rows : List Row) (t : ℕ) → pick_last rows ≡ none → AllUpTo t rows
pick_last-none [] t h = tt
pick_last-none (r ∷ rows) t h = absurd (pick_last-cons r rows h)

pick_last-newest :
    (rows : List Row) (r : Row) → pick_last rows ≡ some r → AllUpTo r.observed_at rows
unfolding pick_last
pick_last-newest [] r h = tt
pick_last-newest (s ∷ rows) r h = elim (Option-cases (pick_last rows)) [
  | inl e ↦ ground (arith, e, pick_last-none rows r.observed_at e)
  | inr (x, e) ↦
      ground (arith, e, pick_last-newest rows x e, AllUpTo-weaken x.observed_at s.observed_at rows)
]

pub pick_last-IsNewestPick : IsNewestPick pick_last
pick_last-IsNewestPick = record {
  pick-nil = unfold pick_last in refl;
  pick-cons = pick_last-cons;
  pick-mem = pick_last-mem;
  pick-newest = pick_last-newest;
}

abbrev pub stored : ServerFacts ℕ
stored = record zero_facts { server_id = str "srv-1"; observed_at = 5; memory_gb = pos 64 }

abbrev pub encoded : ServerFacts ℕ → Result Str
encoded f = ok f.server_id

abbrev pub decoded : Str → Result (ServerFacts ℕ)
decoded text = ok stored

-- Ids 1 to 3; the last two rows of one server, at times 2 and 4.
abbrev pub table : Table
table = record {
  rows =
      record { id = 1; server_id = str "srv-b"; observed_at = 3; data_text = str "srv-b" }
      ∷ record { id = 2; server_id = str "srv-1"; observed_at = 2; data_text = str "old" }
      ∷ record { id = 3; server_id = str "srv-1"; observed_at = 4; data_text = str "new" }
      ∷ [];
  next_id = 4;
}

pub table-IsTable : IsTable table
table-IsTable = ground arith

listed : list_server_ids table ≡ str "srv-1" ∷ str "srv-b" ∷ []
unfolding list_server_ids distinct_ids sort str str_eq
listed = refl

-- The decoder that reads the text as the id alone.
abbrev by_text : Str → Result (ServerFacts ℕ)
by_text text = ok (record zero_facts { server_id = text })

all_latest :
    get_all_latest_facts by_text table
    ≡ ok (
        record zero_facts { server_id = str "new" }
        ∷ record zero_facts { server_id = str "srv-b" }
        ∷ [])
unfolding get_all_latest_facts latest_rows decode_all list_server_ids distinct_ids max_row rows_of
    sort str str_eq
all_latest = refl

pub named : str "srv-1" ≢ []
unfolding str
named = ground arith

other_server : str "srv-b" ≢ str "srv-1"
unfolding str
other_server = ground arith

pub rows_of-table :
    rows_of (str "srv-1") table.rows
    ≡ record { id = 2; server_id = str "srv-1"; observed_at = 2; data_text = str "old" }
      ∷ record { id = 3; server_id = str "srv-1"; observed_at = 4; data_text = str "new" }
      ∷ []
unfolding rows_of str str_eq
rows_of-table = refl

save_facts-IsTable_example : IsTable (save_facts encoded 9 none (some stored) table).1
save_facts-IsTable_example = save_facts-IsTable encoded 9 none (some stored) table table-IsTable

save_facts-Saved_example :
    Saved encoded 9 none (some stored) table (save_facts encoded 9 none (some stored) table)
save_facts-Saved_example = save_facts-Saved encoded 9 none (some stored) table

pub older_rows : AllBefore (row_time 9 stored) (rows_of (str "srv-1") table.rows)
older_rows = rw rows_of-table (ground arith)

another : (g : ServerFacts ℕ) → some stored ≡ some g → str "srv-b" ≢ g.server_id
another g e = ground (arith, e, other_server)

get_provisioning-set_provisioning_example :
    get_provisioning none
      (set_provisioning 3 none [] (str "srv-1") (str "active") (str "fd-1")).1
      (str "srv-1")
    ≡ (if is_empty (str "srv-1")
        then get_provisioning none [] (str "srv-1")
        else if str "srv-1" == str "srv-1"
        then ok (str "active", str "fd-1")
        else get_provisioning none [] (str "srv-1"))
get_provisioning-set_provisioning_example =
    get_provisioning-set_provisioning 3 none [] (str "srv-1") (str "active") (str "fd-1")
      (str "srv-1")

-- Facts that carry no time, which are saved at 5 and 9; a third insertion fails.
abbrev timeless : ServerFacts ℕ
timeless = record zero_facts { server_id = str "srv-1"; memory_gb = pos 64 }

abbrev writes : List (Write ℕ)
writes =
    record { now = 5; failure = none; facts = timeless }
    ∷ record { now = 9; failure = none; facts = timeless }
    ∷ record { now = 10; failure = some (str "disk full"); facts = timeless }
    ∷ []

abbrev timeless_decoded : Str → Result (ServerFacts ℕ)
timeless_decoded text = ok timeless

last_accepted : write_views encoded writes no_facts (str "srv-1") ≡ some timeless
unfolding str str_eq
last_accepted = refl

get_latest_facts-save_all_example :
    Represents encoded timeless_decoded pick_last
      (save_all encoded writes empty_table)
      (write_views encoded writes no_facts)
get_latest_facts-save_all_example =
    get_latest_facts-save_all pick_last pick_last-IsNewestPick encoded timeless_decoded writes
      ((λ text e. refl), ((λ text e. refl), ((λ text e. refl), tt)))
      (omega arith, (omega arith, (omega arith, tt)))

-- ===== src/Refresh/Tests.antt =====
-- A batch in which one collection fails and one insertion fails, and the theorems at its data.
use rewsr_maxfields.Base.{ℕ, str_eq, ◌≡◌, refl, none, some, List, [], ◌∷◌, ◌++◌, arith, Str, str}
use rewsr_maxfields.Facts.Types.{ServerFacts, Collector, zero_facts}
use rewsr_maxfields.Base.Int.{pos}
use rewsr_maxfields.Text.Case.{equal_fold}
use rewsr_maxfields.Text.Sort.{sort}
use rewsr_maxfields.Text.Split.{split, join}
use rewsr_maxfields.Facts.Infer.{
  add, add_all, add_disks, add_nics, infer_capabilities, infer_health, has_hardware_facts,
}
use rewsr_maxfields.Facts.Merge.{
  merge_into, merge_cpu, merge_source, merge_raw, fill_raw, union_strings, union_loop,
}
use rewsr_maxfields.Facts.Build.{
  Result, ok, err, join_errors, run_collectors, complete, finish, build_server_facts,
}
use rewsr_maxfields.Store.{empty_table, get_latest_facts, pick_last, rows_of}
use rewsr_maxfields.Store.Save.{row_time}
use rewsr_maxfields.Store.Latest.{AllBefore}
use rewsr_maxfields.Store.Tests.{encoded, table, named, rows_of-table, pick_last-IsNewestPick}
use rewsr_maxfields.Refresh.Views.{writes_of, get_latest_facts-start}
use rewsr_maxfields.Store.Refines.{Ascend, Restores, Represents, write_views, no_facts}
use rewsr_maxfields.Refresh.{Visit, Event, tick, done, refresh_all, start}
use rewsr_maxfields.Refresh.Batches.{visits_before_done, Elsewhere, refresh_all-latest}

abbrev answers : List (Collector ℕ)
answers =
    (λ _. (some (record zero_facts { source = str "linux_host"; memory_gb = pos 64 }), none)) ∷ []

abbrev collected : ServerFacts ℕ
collected = record zero_facts {
  server_id = str "srv-1";
  observed_at = 7;
  source = str "linux_host";
  memory_gb = pos 64;
  health = str "healthy";
  raw = some [];
}

-- A visit that succeeds, one whose collection fails, and one whose insertion fails.
abbrev visit : Visit ℕ
visit = record {
  server_id = str "srv-1";
  answers = answers;
  built_at = 7;
  saved_at = 8;
  failure = none;
}

abbrev dead : Visit ℕ
dead = record visit { server_id = str "srv-2"; answers = [] }

abbrev unsaved : Visit ℕ
unsaved = record visit { server_id = str "srv-3"; failure = some (str "disk full") }

collection : build_server_facts 7 (str "srv-1") answers ≡ ok collected
unfolding build_server_facts run_collectors finish complete merge_into merge_cpu merge_source
    merge_raw fill_raw union_strings union_loop infer_capabilities infer_health has_hardware_facts
    add add_all add_disks add_nics str_eq str equal_fold sort split
collection = refl

collection_fails :
    build_server_facts {V = ℕ} 7 (str "srv-2") []
    ≡ err (str "all collectors failed for server srv-2: %!w(<nil>)")
unfolding build_server_facts run_collectors finish join_errors join str
collection_fails = refl

abbrev restored : Str → Result (ServerFacts ℕ)
restored text = ok collected

elsewhere : Elsewhere (str "srv-1") (dead ∷ unsaved ∷ [])
unfolding str
elsewhere = ground arith

newer : AllBefore (row_time 8 collected) (rows_of (str "srv-1") table.rows)
newer = rw rows_of-table (ground arith)

nothing_before : refresh_all encoded [] table ≡ table
unfolding refresh_all
nothing_before = refl

refresh_all-latest_example :
    get_latest_facts restored pick_last none
      (refresh_all encoded ([] ++ visit ∷ dead ∷ unsaved ∷ []) table)
      (str "srv-1")
    ≡ ok collected
refresh_all-latest_example =
    refresh_all-latest encoded restored pick_last pick_last-IsNewestPick [] (dead ∷ unsaved ∷ [])
      visit table collected (str "srv-1") elsewhere collection refl named refl refl
      (rw nothing_before newer)

-- A first batch with a failed collection, a tick with another, and a tick behind the end.
abbrev first_batch : List (Visit ℕ)
first_batch = visit ∷ dead ∷ []

abbrev events : List (Event ℕ)
events = tick (dead ∷ []) ∷ done ∷ tick (visit ∷ []) ∷ []

batches-Restores : Restores encoded restored (writes_of (first_batch ++ visits_before_done events))
unfolding build_server_facts run_collectors finish complete merge_into merge_cpu merge_source
    merge_raw fill_raw union_strings union_loop infer_capabilities infer_health has_hardware_facts
    add add_all add_disks add_nics str_eq str equal_fold sort split
batches-Restores = ((λ text e. refl), tt)

batches-Ascend : Ascend encoded 0 (writes_of (first_batch ++ visits_before_done events))
unfolding build_server_facts run_collectors finish complete merge_into merge_cpu merge_source
    merge_raw fill_raw union_strings union_loop infer_capabilities infer_health has_hardware_facts
    add add_all add_disks add_nics str_eq str equal_fold sort split
batches-Ascend = (omega arith, tt)

get_latest_facts-start_example :
    Represents encoded restored pick_last
      (start encoded first_batch events empty_table)
      (write_views encoded (writes_of (first_batch ++ visits_before_done events)) no_facts)
get_latest_facts-start_example =
    get_latest_facts-start encoded restored pick_last pick_last-IsNewestPick first_batch events
      batches-Restores batches-Ascend

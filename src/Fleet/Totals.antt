-- ===== src/Fleet/Totals.antt =====
-- The totals of `Aggregate`: `int` sums that wrap.
use rewsr_maxfields.Base.{
  ◌≡◌, ◌∙◌, refl, sym, ap, Option, none, some, List, [], ◌∷◌, ◌++◌, arith, map,
}
use rewsr_maxfields.Base.Int.{ℤ, pos, ◌+ℤ◌, add_int, wrap, add_int-wrap, wrap_of_IsInt}
use rewsr_maxfields.Facts.Types.{ServerFacts, DiskFacts, NicFacts}
use rewsr_maxfields.Fleet.{
  Summary, empty_summary, add_disk_sizes, add_nic_speeds, aggregate_one, aggregate_loop, aggregate,
}

-- The exact sum.
abbrev pub sum_ℤ : List ℤ → ℤ → ℤ
sum_ℤ [] total = total
sum_ℤ (x ∷ xs) total = sum_ℤ xs (total +ℤ x)

abbrev add_ints : List ℤ → ℤ → ℤ
add_ints [] total = total
add_ints (x ∷ xs) total = add_ints xs (add_int total x)

sum_ℤ-append : (xs ys : List ℤ) (t : ℤ) → sum_ℤ (xs ++ ys) t ≡ sum_ℤ ys (sum_ℤ xs t)
sum_ℤ-append [] ys t = refl
sum_ℤ-append (x ∷ xs) ys t = sum_ℤ-append xs ys (t +ℤ x)

add_ints-wrap : (xs : List ℤ) (t : ℤ) → add_ints xs (wrap t) ≡ wrap (sum_ℤ xs t)
add_ints-wrap [] t = refl
add_ints-wrap (x ∷ xs) t = rw (add_int-wrap t x) (add_ints-wrap xs (t +ℤ x))

add_disk_sizes-add_ints :
    (ds : List DiskFacts) (t : ℤ) → add_disk_sizes ds t ≡ add_ints (map (λ d. d.size_gb) ds) t
unfolding add_disk_sizes
add_disk_sizes-add_ints [] t = refl
add_disk_sizes-add_ints (d ∷ ds) t = add_disk_sizes-add_ints ds (add_int t d.size_gb)

add_nic_speeds-add_ints :
    (ns : List NicFacts) (t : ℤ) → add_nic_speeds ns t ≡ add_ints (map (λ n. n.speed_gbps) ns) t
unfolding add_nic_speeds
add_nic_speeds-add_ints [] t = refl
add_nic_speeds-add_ints (n ∷ ns) t = add_nic_speeds-add_ints ns (add_int t n.speed_gbps)

pub zero_wrap : pos 0 ≡ wrap (pos 0)
zero_wrap = sym (wrap_of_IsInt (pos 0) (omega arith))

module _ {V : Type 0} where
  -- The values that the servers report, in order; nil entries report none.
  abbrev pub values : (ServerFacts V → List ℤ) → List (Option (ServerFacts V)) → List ℤ
  values g [] = []
  values g (none ∷ fs) = values g fs
  values g (some f ∷ fs) = g f ++ values g fs

  total_loop :
      (total : Summary → ℤ) (g : ServerFacts V → List ℤ)
      → ((f : ServerFacts V) (s : Summary) → total (aggregate_one f s) ≡ add_ints (g f) (total s))
      → (fs : List (Option (ServerFacts V))) (s : Summary) (t : ℤ) → total s ≡ wrap t
      → total (aggregate_loop fs s) ≡ wrap (sum_ℤ (values g fs) t)
  unfolding aggregate_loop
  total_loop total g law [] s t h = h
  total_loop total g law (none ∷ fs) s t h = total_loop total g law fs s t h
  total_loop total g law (some f ∷ fs) s t h =
      total_loop total g law fs (aggregate_one f s) (sum_ℤ (g f) t)
        (law f s ∙ ap (add_ints (g f)) h ∙ add_ints-wrap (g f) t)
      ∙ ap wrap (sym (sum_ℤ-append (g f) (values g fs) t))

  -- Each total of `Aggregate` is the exact sum of what the servers report, wrapped into an `int` once.
  pub aggregate_totals :
      (fs : List (Option (ServerFacts V)))
      → let s = aggregate fs in
        (s.total_cores ≡ wrap (sum_ℤ (values (λ f. f.cpu.cores ∷ []) fs) (pos 0)))
        × (s.total_threads ≡ wrap (sum_ℤ (values (λ f. f.cpu.threads ∷ []) fs) (pos 0)))
        × (s.total_memory_gb ≡ wrap (sum_ℤ (values (λ f. f.memory_gb ∷ []) fs) (pos 0)))
        × (s.total_disk_gb ≡ wrap (sum_ℤ (values (λ f. map (λ d. d.size_gb) f.disks) fs) (pos 0)))
        × (s.total_nic_gbps
            ≡ wrap (sum_ℤ (values (λ f. map (λ n. n.speed_gbps) f.nics) fs) (pos 0)))
  unfolding aggregate aggregate_one
  aggregate_totals fs = (
    total_loop (λ s. s.total_cores) (λ f. f.cpu.cores ∷ []) (λ f s. refl) fs empty_summary (pos 0)
        zero_wrap,
    total_loop (λ s. s.total_threads) (λ f. f.cpu.threads ∷ []) (λ f s. refl) fs empty_summary
        (pos 0) zero_wrap,
    total_loop (λ s. s.total_memory_gb) (λ f. f.memory_gb ∷ []) (λ f s. refl) fs empty_summary
        (pos 0) zero_wrap,
    total_loop (λ s. s.total_disk_gb) (λ f. map (λ d. d.size_gb) f.disks)
        (λ f s. add_disk_sizes-add_ints f.disks s.total_disk_gb) fs empty_summary (pos 0) zero_wrap,
    total_loop (λ s. s.total_nic_gbps) (λ f. map (λ n. n.speed_gbps) f.nics)
        (λ f s. add_nic_speeds-add_ints f.nics s.total_nic_gbps) fs empty_summary (pos 0) zero_wrap,
  )

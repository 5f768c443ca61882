-- ===== src/Fleet/Domains.antt =====
-- The failure domains of `Aggregate`: a partition of the servers.
use rewsr_maxfields.Base.{
  ◌≡◌, ◌∙◌, refl, ap, sym, Option, none, some, List, [], ◌∷◌, ◌++◌, arith, Bool, Str, str, ◌==◌,
  str_eq, append_assoc, append-nil, if◌then◌else◌,
}
use rewsr_maxfields.Base.Dict.{Dict, lookup, at, lookup-insert, at-nil}
use rewsr_maxfields.Text.Sort.{sort}
use rewsr_maxfields.Facts.Types.{ServerFacts}
use rewsr_maxfields.Fleet.{
  Summary, empty_summary, domain_of, aggregate_one, aggregate_loop, sort_domains, aggregate,
}

-- The server is of the domain; "unassigned" is also the domain of a server without one.
abbrev pub belongs : Str → Str → Bool
belongs d [] = d == str "unassigned"
belongs d (c ∷ domain) = d == c ∷ domain

domain_of_lem : (d domain : Str) → (d == domain_of domain) ≡ belongs d domain
unfolding domain_of
domain_of_lem d [] = refl
domain_of_lem d (c ∷ domain) = refl

module _ {V : Type 0} where
  -- The ids of the servers of a domain, in the order of the input.
  abbrev pub members : Str → List (Option (ServerFacts V)) → List Str
  members d [] = []
  members d (none ∷ fs) = members d fs
  members d (some f ∷ fs) =
      let rest = members d fs in if belongs d f.failure_domain then f.server_id ∷ rest else rest

  domains_loop :
      (d : Str) (fs : List (Option (ServerFacts V))) (s : Summary)
      → at [] d (aggregate_loop fs s).failure_domains ≡ at [] d s.failure_domains ++ members d fs
  unfolding aggregate_loop
  domains_loop d [] s = sym (append-nil _)
  domains_loop d (none ∷ fs) s = domains_loop d fs s
  domains_loop d (some f ∷ fs) s =
      let k = domain_of f.failure_domain in
      let old = at [] k s.failure_domains in
      domains_loop d fs (aggregate_one f s)
      ∙ unfold aggregate_one in
        ground (
          arith,
          lookup-insert d k (old ++ f.server_id ∷ []) s.failure_domains,
          domain_of_lem d f.failure_domain,
          append_assoc old (f.server_id ∷ []) (members d fs),
        )

sort-nil : sort [] ≡ []
unfolding sort
sort-nil = refl

at-sort_domains : (k : Str) (d : Dict Str (List Str)) → at [] k (sort_domains d) ≡ sort (at [] k d)
unfolding sort_domains lookup
at-sort_domains k [] = ground (arith, sort-nil)
at-sort_domains k ((j, ids) ∷ d) = ground (arith, at-sort_domains k d)

-- `Aggregate` lists under each failure domain the ids of its servers in ascending order, and under
-- "unassigned" also those with no recorded domain.
pub aggregate_domains :
    {V : Type 0} (fs : List (Option (ServerFacts V))) (d : Str)
    → at [] d (aggregate fs).failure_domains ≡ sort (members d fs)
unfolding aggregate
aggregate_domains fs d =
    at-sort_domains d (aggregate_loop fs empty_summary).failure_domains
    ∙ ap sort (domains_loop d fs empty_summary ∙ ap (λ ids. ids ++ members d fs) (at-nil [] d))

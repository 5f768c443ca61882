-- ===== src/Serve/Servers.antt =====
-- The list of servers in the environment.
use rewsr_maxfields.Base.{
  ℕ, ◌≡◌, ◌∙◌, refl, ap, false, List, [], ◌∷◌, arith, Str, str, str_eq, is_empty, All,
}
use rewsr_maxfields.Text.Split.{split, join, Lacks, split_one, split-append}
use rewsr_maxfields.Text.Space.{trim_space}
use rewsr_maxfields.Serve.{listed_ids, env_server_ids}

-- Splitting what was joined gives the parts back, where none holds the separator.
split-join :
    (sep : ℕ) (p : Str) (ps : List Str)
    → All (Lacks sep) (p ∷ ps)
    → split sep (join (sep ∷ []) (p ∷ ps)) ≡ p ∷ ps
unfolding join
split-join sep p [] (h, _) = split_one sep p h
split-join sep p (q ∷ ps) (h, hs) =
    split-append sep p (join (sep ∷ []) (q ∷ ps)) h ∙ ap (◌∷◌ p) (split-join sep q ps hs)

-- An id that can stand in the variable: not empty, without a comma, and without space at its ends.
abbrev pub IsPlain : Str → Type 0
IsPlain id = (is_empty id ≡ false) × Lacks b',' id × (trim_space id ≡ id)

listed_ids_plain : (ids : List Str) → All IsPlain ids → listed_ids ids ≡ ids
unfolding listed_ids
listed_ids_plain [] h = refl
listed_ids_plain (id ∷ ids) ((full, _, trimmed), hs) =
    ground (arith, full, trimmed, listed_ids_plain ids hs)

lacking : (ids : List Str) → All IsPlain ids → All (Lacks b',') ids
lacking [] h = tt
lacking (id ∷ ids) ((_, l, _), hs) = (l, lacking ids hs)

joined_full :
    (id : Str) (ids : List Str)
    → is_empty id ≡ false
    → is_empty (join (b',' ∷ []) (id ∷ ids)) ≡ false
unfolding join
joined_full [] ids h = ground arith
joined_full (c ∷ id) [] h = refl
joined_full (c ∷ id) (i ∷ ids) h = refl

-- A list of at least one plain id that is joined with commas into the variable is read back as it was.
pub env_server_ids-join :
    (env : Str → Str) (id : Str) (ids : List Str)
    → All IsPlain (id ∷ ids)
    → env (str "REWSR_MAXFIELDS_SERVER_IDS") ≡ join (b',' ∷ []) (id ∷ ids)
    → env_server_ids env ≡ id ∷ ids
unfolding env_server_ids
env_server_ids-join env id ids h e =
    rw (e, joined_full id ids h.0.0)
      (ap listed_ids (split-join b',' id ids (lacking (id ∷ ids) h))
        ∙ listed_ids_plain (id ∷ ids) h)

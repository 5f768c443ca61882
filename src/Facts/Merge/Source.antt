-- ===== src/Facts/Merge/Source.antt =====
-- `mergeSource`: the source string is a list of names joined by "+".
use rewsr_maxfields.Base.{◌≡◌, refl, List, [], ◌∷◌, arith, Str, str, nat_eq, str_eq}
use rewsr_maxfields.Text.Split.{split, Lacks, split_one, split-append_any}
use rewsr_maxfields.Facts.Merge.{merge_source, union_loop}

plus_is : str "+" ≡ b'+' ∷ []
unfolding str
plus_is = refl

-- The names that a source string lists: none for the empty text.
abbrev pub names : Str → List Str
names [] = []
names (c ∷ s) = split b'+' (c ∷ s)

-- A name without a "+" joins the names of `dst` behind the others if it is new, and is dropped if it
-- stands there already or is empty.
pub names-merge_source :
    (dst src : Str)
    → Lacks b'+' src
    → names (merge_source dst src) ≡ union_loop (src ∷ []) (names dst)
unfolding merge_source union_loop
names-merge_source [] [] lacks = refl
names-merge_source [] (c ∷ src) lacks = split_one b'+' (c ∷ src) lacks
names-merge_source (d ∷ dst) src lacks =
    ground (arith, split-append_any b'+' (d ∷ dst) src, split_one b'+' src lacks, plus_is)

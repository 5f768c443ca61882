-- ===== src/Facts/Merge/Union.antt =====
-- `unionStrings`: a union that keeps order, and adds no empty text.
use rewsr_maxfields.Base.{
  ◌≡◌, ◌∙◌, sym, inl, inr, Bool-cases, not, ◌&&◌, ◌||◌, List, [], ◌∷◌, ◌++◌, arith, append-nil,
  append_assoc, Str, str_eq, contains, contains-append, IsNodup, IsNodup-concat, is_empty,
}
use rewsr_maxfields.Facts.Merge.{union_loop, union_strings}

contains-union_loop :
    (c : Str) (src out : List Str)
    → contains c (union_loop src out) ≡ (contains c out || contains c src && not (is_empty c))
unfolding union_loop
contains-union_loop c [] out = ground arith
contains-union_loop c (v ∷ src) out = ground (
  arith,
  contains-union_loop c src out,
  contains-union_loop c src (out ++ v ∷ []),
  contains-append c out (v ∷ []),
)

union_loop-IsNodup : (src out : List Str) → IsNodup out → IsNodup (union_loop src out)
unfolding union_loop
union_loop-IsNodup [] out u = u
union_loop-IsNodup (v ∷ src) out u = union_loop-IsNodup src _ (ground (arith, IsNodup-concat v out))

union_loop-append : (src out : List Str) → (more : List Str) × (union_loop src out ≡ out ++ more)
unfolding union_loop
union_loop-append [] out = ([], sym (append-nil out))
union_loop-append (v ∷ src) out = elim (Bool-cases (is_empty v || contains v out)) [
  | inl old ↦ rw old (union_loop-append src out)
  | inr new ↦
      let (more, e) = union_loop-append src (out ++ v ∷ []) in
      rw new (v ∷ more, e ∙ append_assoc out (v ∷ []) more)
]

-- `unionStrings` keeps `dst` as it is in front, holds what `dst` holds and every text of `src` that is
-- not empty, and repeats nothing that `dst` did not repeat.
pub union_strings_lem :
    (dst src : List Str)
    → ((c : Str)
        → contains c (union_strings dst src)
          ≡ (contains c dst || contains c src && not (is_empty c)))
      × ((more : List Str) × (union_strings dst src ≡ dst ++ more))
      × (IsNodup dst → IsNodup (union_strings dst src))
unfolding union_strings
union_strings_lem dst [] = (λ c. ground arith, ([], sym (append-nil dst)), λ u. u)
union_strings_lem dst (v ∷ src) = (
  λ c. contains-union_loop c (v ∷ src) dst,
  union_loop-append (v ∷ src) dst,
  union_loop-IsNodup (v ∷ src) dst,
)

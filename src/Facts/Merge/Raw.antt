-- ===== src/Facts/Merge/Raw.antt =====
-- The merge of `Raw`: each key keeps the value that came first.
use rewsr_maxfields.Base.{◌≡◌, Option, none, some, [], ◌∷◌, arith, Str, str_eq}
use rewsr_maxfields.Base.Dict.{Dict, lookup, insert, lookup-insert, lookup-nil}
use rewsr_maxfields.Facts.Merge.{fill_raw, merge_raw}

module _ {V : Type 0} where
  -- A lookup in a map that may be nil.
  abbrev pub lookup_raw : Str → Option (Dict Str V) → Option V
  lookup_raw k none = none
  lookup_raw k (some d) = lookup k d

  abbrev pub first_of_two : Option V → Option V → Option V
  first_of_two none b = b
  first_of_two (some a) b = some a

  lookup-fill_raw :
      (k : Str) (src dst : Dict Str V)
      → lookup k (fill_raw src dst) ≡ first_of_two (lookup k dst) (lookup k src)
  unfolding fill_raw lookup
  lookup-fill_raw k [] dst = ground arith
  lookup-fill_raw k ((j, v) ∷ src) dst = ground (
    arith,
    lookup-fill_raw k src dst,
    lookup-fill_raw k src (insert j v dst),
    lookup-insert k j v dst,
  )

  pub lookup-merge_raw :
      (k : Str) (dst src : Option (Dict Str V))
      → lookup_raw k (merge_raw dst src) ≡ first_of_two (lookup_raw k dst) (lookup_raw k src)
  unfolding merge_raw
  lookup-merge_raw k dst none = ground arith
  lookup-merge_raw k none (some src) =
      ground (arith, lookup-fill_raw k src [], lookup-nil {V = V} k)
  lookup-merge_raw k (some dst) (some src) = lookup-fill_raw k src dst

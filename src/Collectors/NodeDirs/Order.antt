-- ===== src/Collectors/NodeDirs/Order.antt =====
-- The exchange sort of the node ids.
use rewsr_maxfields.Base.{
  ℕ, zero, suc, ◌≡◌, ◌⊎◌, ◌∙◌, refl, true, false, List, [], ◌∷◌, arith, length, count, All, ap,
  Bool-cases, inl, inr,
}
use rewsr_maxfields.Base.Int.{ℤ, ltb_ℤ, int_eq}
use rewsr_maxfields.Collectors.NodeDirs.{sweep, exchange_loop, sort_ids}

-- No element is less.
abbrev pub IsLeast : ℤ → List ℤ → Type 0
IsLeast x ys = All (λ y. ltb_ℤ y x ≡ false) ys

-- Each element is at most every one behind it.
abbrev pub Ascends : List ℤ → Type 0
Ascends [] = Unit
Ascends (x ∷ xs) = IsLeast x xs × Ascends xs

ltb_ℤ_irr : (x : ℤ) → ltb_ℤ x x ≡ false
ltb_ℤ_irr x = ground arith

-- z ≤ y and y ≤ x give z ≤ x.
ltb_ℤ_trans : (x y z : ℤ) → ltb_ℤ x y ≡ false → ltb_ℤ y z ≡ false → ltb_ℤ x z ≡ false
ltb_ℤ_trans x y z h k = ground arith

ltb_ℤ_asym : (x y : ℤ) → ltb_ℤ x y ≡ true → ltb_ℤ y x ≡ false
ltb_ℤ_asym x y h = ground arith

count_swap :
    (a m x y : ℤ) (rest ys : List ℤ)
    → count a (m ∷ rest) ≡ count a (y ∷ ys)
    → count a (m ∷ x ∷ rest) ≡ count a (x ∷ y ∷ ys)
count_swap a m x y rest ys h = ground (arith, h)

count_keep :
    (a m x y : ℤ) (rest ys : List ℤ)
    → count a (m ∷ rest) ≡ count a (x ∷ ys)
    → count a (m ∷ y ∷ rest) ≡ count a (x ∷ y ∷ ys)
count_keep a m x y rest ys h = ground (arith, h)

-- What the inner loop leaves of `x` and the elements behind it.
abbrev Swept : ℤ → List ℤ → ℤ × List ℤ → Type 0
Swept x ys (least, rest) =
    IsLeast least rest
    × (ltb_ℤ x least ≡ false)
    × (length rest ≡ length ys)
    × ((a : ℤ) → count a (least ∷ rest) ≡ count a (x ∷ ys))

sweep_lem : (x : ℤ) (ys : List ℤ) → Swept x ys (sweep x ys)
unfolding sweep
sweep_lem x [] = (tt, ltb_ℤ_irr x, refl, λ a. refl)
sweep_lem x (y ∷ ys) = elim (Bool-cases (ltb_ℤ y x)) [
  | inl e ↦
      let (least, above, same, counts) = sweep_lem y ys in
      rw e (
        (ltb_ℤ_trans x y _ (ltb_ℤ_asym y x e) above, least),
        ltb_ℤ_trans x y _ (ltb_ℤ_asym y x e) above,
        ap suc same,
        λ a. count_swap a _ x y _ ys (counts a),
      )
  | inr e ↦
      let (least, above, same, counts) = sweep_lem x ys in
      rw e (
        (ltb_ℤ_trans y x _ e above, least),
        above,
        ap suc same,
        λ a. count_keep a _ x y _ ys (counts a),
      )
]

count-cons_same :
    (a m : ℤ) (xs ys : List ℤ) → count a xs ≡ count a ys → count a (m ∷ xs) ≡ count a (m ∷ ys)
count-cons_same a m xs ys h = ground (arith, h)

-- A bound on every element bounds the sorted ones.
IsLeast-count : (m : ℤ) (xs : List ℤ) → IsLeast m xs → (a : ℤ) → ltb_ℤ a m ≡ true → count a xs ≡ 0
IsLeast-count m [] h a l = refl
IsLeast-count m (x ∷ xs) (h, hs) a l = ground (arith, IsLeast-count m xs hs a l)

count_none-IsLeast :
    (m : ℤ) (xs : List ℤ) → ((a : ℤ) → ltb_ℤ a m ≡ true → count a xs ≡ 0) → IsLeast m xs
count_none-IsLeast m [] h = tt
count_none-IsLeast m (x ∷ xs) h =
    (first (Bool-cases (ltb_ℤ x m)), count_none-IsLeast m xs (λ a l. ground (arith, h a l)))
  where
    first : (ltb_ℤ x m ≡ true) ⊎ (ltb_ℤ x m ≡ false) → ltb_ℤ x m ≡ false
    first (inl e) = ground (arith, h x e)
    first (inr e) = e

exchange_loop_lem :
    (n : ℕ) (ids : List ℤ)
    → length ids ≡ n
    → Ascends (exchange_loop n ids) × ((a : ℤ) → count a (exchange_loop n ids) ≡ count a ids)
unfolding exchange_loop
exchange_loop_lem zero [] e = (tt, λ a. refl)
exchange_loop_lem zero (x ∷ ids) e = ground arith
exchange_loop_lem (suc n) [] e = ground arith
exchange_loop_lem (suc n) (x ∷ ids) e =
    let (least, _, same, counts) = sweep_lem x ids in
    let (ascend, sorted) = exchange_loop_lem n (sweep x ids).1 (omega arith) in
    (
      (count_none-IsLeast _ _ (λ a l. sorted a ∙ IsLeast-count _ _ least a l), ascend),
      λ a. count-cons_same a (sweep x ids).0 _ _ (sorted a) ∙ counts a,
    )

-- The exchange sort of the node ids ends with each id at most every one behind it, and holds every id
-- as often as before: one pass of the outer loop for each element is enough.
pub sort_ids_lem :
    (ids : List ℤ) → Ascends (sort_ids ids) × ((a : ℤ) → count a (sort_ids ids) ≡ count a ids)
unfolding sort_ids
sort_ids_lem ids = exchange_loop_lem (length ids) ids refl

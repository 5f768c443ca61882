-- ===== src/Text/Sort.antt =====
-- `sort.Strings`: ascending in the order of code points.
use rewsr_maxfields.Base.{
  ◌≡◌, ◌∙◌, refl, ap, Bool, true, false, List, [], ◌∷◌, arith, Str, ◌==◌, nat_eq, str_eq, ltb,
  contains, IsNodup, count, if◌then◌else◌, ◌||◌, ◌&&◌,
}

-- a ≤ b
unfoldable pub str_leb : Str → Str → Bool
unfolding nat_eq
str_leb [] t = true
str_leb (a ∷ s) [] = false
str_leb (a ∷ s) (b ∷ t) = ltb a b || a == b && str_leb s t

insert_sorted : Str → List Str → List Str
insert_sorted x [] = x ∷ []
insert_sorted x (y ∷ ys) =
    let rest = insert_sorted x ys in if str_leb x y then x ∷ y ∷ ys else y ∷ rest

-- The result does not depend on the method: the order is total on distinct texts.
unfoldable pub sort : List Str → List Str
unfolding insert_sorted str_leb
sort [] = []
sort (x ∷ xs) = insert_sorted x (sort xs)

-- Each element is at most the one behind it.
abbrev pub IsSorted : List Str → Type 0
IsSorted [] = Unit
IsSorted (x ∷ []) = Unit
IsSorted (x ∷ y ∷ ys) = (str_leb x y ≡ true) × IsSorted (y ∷ ys)

pub str_leb_total : (s t : Str) → str_leb s t ≡ false → str_leb t s ≡ true
unfolding str_leb
str_leb_total [] t h = ground arith
str_leb_total (a ∷ s) [] h = ground arith
str_leb_total (a ∷ s) (b ∷ t) h = ground (arith, str_leb_total s t)

insert_sorted-IsSorted : (x : Str) (l : List Str) → IsSorted l → IsSorted (insert_sorted x l)
unfolding insert_sorted
insert_sorted-IsSorted x [] h = tt
insert_sorted-IsSorted x (y ∷ []) h = ground (arith, str_leb_total x y)
insert_sorted-IsSorted x (y ∷ z ∷ l) h =
    ground (arith, str_leb_total x y, insert_sorted-IsSorted x (z ∷ l))

pub sort-IsSorted : (l : List Str) → IsSorted (sort l)
unfolding sort
sort-IsSorted [] = tt
sort-IsSorted (x ∷ l) = insert_sorted-IsSorted x (sort l) (sort-IsSorted l)

contains-insert_sorted :
    (a x : Str) (l : List Str) → contains a (insert_sorted x l) ≡ (a == x || contains a l)
unfolding insert_sorted
contains-insert_sorted a x [] = refl
contains-insert_sorted a x (y ∷ l) = ground (arith, contains-insert_sorted a x l)

pub contains-sort : (a : Str) (l : List Str) → contains a (sort l) ≡ contains a l
unfolding sort
contains-sort a [] = refl
contains-sort a (x ∷ l) = ground (arith, contains-insert_sorted a x (sort l), contains-sort a l)

count-insert_sorted : (a x : Str) (l : List Str) → count a (insert_sorted x l) ≡ count a (x ∷ l)
unfolding insert_sorted
count-insert_sorted a x [] = refl
count-insert_sorted a x (y ∷ l) = ground (arith, count-insert_sorted a x l)

pub count-sort : (a : Str) (l : List Str) → count a (sort l) ≡ count a l
unfolding sort
count-sort a [] = refl
count-sort a (x ∷ l) = ground (arith, count-insert_sorted a x (sort l), count-sort a l)

insert_sorted-IsNodup :
    (x : Str) (l : List Str) → contains x l ≡ false → IsNodup l → IsNodup (insert_sorted x l)
unfolding insert_sorted
insert_sorted-IsNodup x [] h u = ground arith
insert_sorted-IsNodup x (y ∷ l) h u =
    ground (arith, insert_sorted-IsNodup x l, contains-insert_sorted y x l)

pub sort-IsNodup : (l : List Str) → IsNodup l → IsNodup (sort l)
unfolding sort
sort-IsNodup [] u = tt
sort-IsNodup (x ∷ l) (fresh, u) =
    insert_sorted-IsNodup x (sort l) (contains-sort x l ∙ fresh) (sort-IsNodup l u)

insert_sorted_lem : (x : Str) (l : List Str) → IsSorted (x ∷ l) → insert_sorted x l ≡ x ∷ l
unfolding insert_sorted
insert_sorted_lem x [] h = refl
insert_sorted_lem x (y ∷ l) (e, h) = rw e refl

-- Sorting a sorted list changes nothing.
pub sort_sorted : (l : List Str) → IsSorted l → sort l ≡ l
unfolding sort
sort_sorted [] h = refl
sort_sorted (x ∷ []) h = refl
sort_sorted (x ∷ y ∷ l) h =
    ap (insert_sorted x) (sort_sorted (y ∷ l) h.1) ∙ insert_sorted_lem x (y ∷ l) h

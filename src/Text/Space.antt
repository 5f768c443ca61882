-- ===== src/Text/Space.antt =====
-- `strings.TrimSpace` and `strings.Fields`.
pub mod Trimmed
use rewsr_maxfields.Base.{
  ℕ, Bool, not, ◌&&◌, ◌||◌, List, [], ◌∷◌, Str, ◌==◌, nat_eq, leb, is_empty, keep, if◌then◌else◌,
}
use rewsr_maxfields.Text.Split.{split_by}

-- `unicode.IsSpace`
unfoldable pub is_space : ℕ → Bool
unfolding nat_eq
is_space c =
    leb 9 c && leb c 13
    || c == 32
    || c == 0x85
    || c == 0xa0
    || c == 0x1680
    || leb 0x2000 c && leb c 0x200a
    || c == 0x2028
    || c == 0x2029
    || c == 0x202f
    || c == 0x205f
    || c == 0x3000

unfoldable pub trim_left : Str → Str
trim_left [] = []
trim_left (c ∷ s) = let rest = trim_left s in if is_space c then rest else c ∷ s

unfoldable pub trim_right : Str → Str
trim_right [] = []
trim_right (c ∷ s) = elim (trim_right s) [
  | [] ↦ if is_space c then [] else c ∷ []
  | d ∷ r ↦ c ∷ d ∷ r
]

unfoldable pub trim_space : Str → Str
unfolding trim_left trim_right is_space
trim_space s = trim_right (trim_left s)

-- The maximal runs of characters that are no space.
unfoldable pub fields : Str → List Str
unfolding split_by is_space
fields s = keep (λ w. not (is_empty w)) (split_by is_space s)

-- ===== src/Text/Case.antt =====
-- `strings.ToLower`, `strings.ToUpper` and `strings.EqualFold`. Beyond ASCII the code points that fold into ASCII are
-- handled, which is what a comparison with an ASCII literal can see; others stay as they are.
use rewsr_maxfields.Base.{
  ℕ, ◌+◌, ◌-◌, ◌≡◌, refl, Bool, ◌&&◌, [], ◌∷◌, arith, map, Str, ◌==◌, nat_eq, str_eq, leb,
  if◌then◌else◌,
}

-- U+0130 and U+212A are the two letters outside ASCII with a lower case inside it.
unfoldable pub lower : ℕ → ℕ
unfolding nat_eq
lower c =
    if leb b'A' c && leb c b'Z'
    then c + 32
    else if c == 0x130
    then b'i'
    else if c == 0x212a
    then b'k'
    else c

unfoldable pub to_lower : Str → Str
unfolding lower
to_lower = map lower

-- U+0131 and U+017F are the two letters outside ASCII with an upper case inside it.
unfoldable pub upper : ℕ → ℕ
unfolding nat_eq
upper c =
    if leb b'a' c && leb c b'z'
    then c - 32
    else if c == 0x131
    then b'I'
    else if c == 0x17f
    then b'S'
    else c

unfoldable pub to_upper : Str → Str
unfolding upper
to_upper = map upper

-- Simple folding: U+017F folds with `s` and U+212A with `k`; U+0130 folds with itself alone.
unfoldable pub fold : ℕ → ℕ
unfolding nat_eq
fold c =
    if leb b'A' c && leb c b'Z'
    then c + 32
    else if c == 0x17f
    then b's'
    else if c == 0x212a
    then b'k'
    else c

unfoldable pub equal_fold : Str → Str → Bool
unfolding fold str_eq
equal_fold s t = map fold s == map fold t

lower_idem : (c : ℕ) → lower (lower c) ≡ lower c
unfolding lower
lower_idem c = ground arith

pub to_lower_idem : (s : Str) → to_lower (to_lower s) ≡ to_lower s
unfolding to_lower
to_lower_idem [] = refl
to_lower_idem (c ∷ s) = ground (arith, lower_idem c, to_lower_idem s)

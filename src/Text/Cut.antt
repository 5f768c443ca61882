-- ===== src/Text/Cut.antt =====
-- `strings.Cut` at one character, prefixes and suffixes, and substrings.
use rewsr_maxfields.Text.Split.{Lacks}
use rewsr_maxfields.Base.{
  ℕ, ◌≡◌, refl, Bool, true, false, ◌||◌, Option, none, some, [], ◌∷◌, ◌++◌, arith, Str, ◌==◌,
  nat_eq, str_eq, if◌then◌else◌,
}

-- The text before the first separator, the text behind it, and whether there is one.
unfoldable pub cut : ℕ → Str → Str × Str × Bool
unfolding nat_eq
cut sep [] = ([], [], false)
cut sep (c ∷ s) =
    let rest = cut sep s in if c == sep then ([], s, true) else (c ∷ rest.0, rest.1, rest.2)

-- What stands behind a prefix.
unfoldable pub after_prefix : Str → Str → Option Str
unfolding nat_eq
after_prefix s [] = some s
after_prefix [] (a ∷ prefix) = none
after_prefix (c ∷ s) (a ∷ prefix) =
    let rest = after_prefix s prefix in if a == c then rest else none

-- What stands before a suffix.
unfoldable pub before_suffix : Str → Str → Option Str
unfolding str_eq
before_suffix [] suffix = if [] == suffix then some [] else none
before_suffix (c ∷ s) suffix =
    let rest = before_suffix s suffix in
    if c ∷ s == suffix then some [] else elim rest [ none ↦ none | some r ↦ some (c ∷ r) ]

abbrev is_some : Option Str → Bool
is_some none = false
is_some (some _) = true

unfoldable pub has_prefix : Str → Str → Bool
unfolding after_prefix
has_prefix s prefix = is_some (after_prefix s prefix)

unfoldable pub has_suffix : Str → Str → Bool
unfolding before_suffix
has_suffix s suffix = is_some (before_suffix s suffix)

unfoldable pub trim_prefix : Str → Str → Str
unfolding after_prefix
trim_prefix s prefix = elim (after_prefix s prefix) [ none ↦ s | some r ↦ r ]

unfoldable pub trim_suffix : Str → Str → Str
unfolding before_suffix
trim_suffix s suffix = elim (before_suffix s suffix) [ none ↦ s | some r ↦ r ]

-- `strings.Contains`
unfoldable pub has_sub : Str → Str → Bool
unfolding has_prefix
has_sub [] sub = has_prefix [] sub
has_sub (c ∷ s) sub = has_prefix (c ∷ s) sub || has_sub s sub

-- What stands before and behind the last separator, if there is one.
unfoldable pub cut_last : ℕ → Str → Option (Str × Str)
unfolding nat_eq
cut_last sep [] = none
cut_last sep (c ∷ s) = elim (cut_last sep s) [
  | some (a, b) ↦ some (c ∷ a, b)
  | none ↦ if c == sep then some ([], s) else none
]

-- `strings.TrimLeft` and `strings.TrimRight` at one character.
unfoldable pub trim_left_at : ℕ → Str → Str
unfolding nat_eq
trim_left_at a [] = []
trim_left_at a (c ∷ s) = let rest = trim_left_at a s in if c == a then rest else c ∷ s

unfoldable pub trim_right_at : ℕ → Str → Str
unfolding nat_eq
trim_right_at a [] = []
trim_right_at a (c ∷ s) = elim (trim_right_at a s) [
  | [] ↦ if c == a then [] else c ∷ []
  | d ∷ r ↦ c ∷ d ∷ r
]

pub after_prefix_lem : (s prefix : Str) {r : Str} → after_prefix s prefix ≡ some r → s ≡ prefix ++ r
unfolding after_prefix
after_prefix_lem s [] h = ground arith
after_prefix_lem [] (a ∷ prefix) h = ground arith
after_prefix_lem (c ∷ s) (a ∷ prefix) {r} h = ground (arith, after_prefix_lem s prefix {r = r})

pub after_prefix-append : (prefix r : Str) → after_prefix (prefix ++ r) prefix ≡ some r
unfolding after_prefix
after_prefix-append [] r = refl
after_prefix-append (a ∷ prefix) r = ground (arith, after_prefix-append prefix r)

-- A cut at the first separator.
pub cut-append : (sep : ℕ) (w s : Str) → Lacks sep w → cut sep (w ++ sep ∷ s) ≡ (w, s, true)
unfolding cut
cut-append sep [] s h = ground arith
cut-append sep (c ∷ w) s (hc, hw) = ground (arith, cut-append sep w s hw)

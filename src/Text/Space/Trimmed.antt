-- ===== src/Text/Space/Trimmed.antt =====
-- Texts that `strings.TrimSpace` leaves as they are.
use rewsr_maxfields.Base.{
  ℕ, ◌≡◌, ◌∙◌, refl, ap, true, false, [], ◌∷◌, ◌++◌, arith, Str, is_empty, if◌then◌else◌,
}
use rewsr_maxfields.Text.Space.{is_space, trim_left, trim_right, trim_space}

trim_left_solid : (c : ℕ) (s : Str) → is_space c ≡ false → trim_left (c ∷ s) ≡ c ∷ s
unfolding trim_left
trim_left_solid c s h = ground arith

trim_right_solid : (s : Str) (c : ℕ) → is_space c ≡ false → trim_right (s ++ c ∷ []) ≡ s ++ c ∷ []
unfolding trim_right
trim_right_solid [] c h = ground arith
trim_right_solid (d ∷ []) c h = ground (arith, trim_right_solid [] c h)
trim_right_solid (d ∷ e ∷ s) c h = ground (arith, trim_right_solid (e ∷ s) c h)

trim_right_space : (s : Str) (c : ℕ) → is_space c ≡ true → trim_right (s ++ c ∷ []) ≡ trim_right s
unfolding trim_right
trim_right_space [] c h = ground arith
trim_right_space (d ∷ s) c h = ground (arith, trim_right_space s c h)

-- The first and the last character are no space.
pub trim_space_solid :
    (b : ℕ) (s : Str) (c : ℕ)
    → is_space b ≡ false
    → is_space c ≡ false
    → trim_space (b ∷ (s ++ c ∷ [])) ≡ b ∷ (s ++ c ∷ [])
unfolding trim_space
trim_space_solid b s c hb hc =
    ap trim_right (trim_left_solid b (s ++ c ∷ []) hb) ∙ trim_right_solid (b ∷ s) c hc

trim_left-append :
    (s t : Str)
    → trim_left (s ++ t) ≡ (if is_empty (trim_left s) then trim_left t else trim_left s ++ t)
unfolding trim_left
trim_left-append [] t = refl
trim_left-append (c ∷ s) t = ground (arith, trim_left-append s t)

trim_left_space : (c : ℕ) → is_space c ≡ true → trim_left (c ∷ []) ≡ []
unfolding trim_left
trim_left_space c h = ground arith

-- A space behind a text is trimmed.
pub trim_space-append :
    (s : Str) (c : ℕ) → is_space c ≡ true → trim_space (s ++ c ∷ []) ≡ trim_space s
unfolding trim_space
trim_space-append s c h =
    ap trim_right (
      trim_left-append s (c ∷ [])
      ∙ ap (λ z. if is_empty (trim_left s) then z else trim_left s ++ c ∷ []) (trim_left_space c h))
    ∙ go (trim_left s)
  where
    go : (l : Str) → trim_right (if is_empty l then [] else l ++ c ∷ []) ≡ trim_right l
    go [] = refl
    go (d ∷ l) = trim_right_space (d ∷ l) c h

pub trim_space-cons : (c : ℕ) (s : Str) → is_space c ≡ true → trim_space (c ∷ s) ≡ trim_space s
unfolding trim_space trim_left
trim_space-cons c s h = ground arith

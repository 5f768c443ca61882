-- ===== src/Text/Split.antt =====
-- `strings.Split` at one character, and `strings.Join`.
use rewsr_maxfields.Base.{
  ℕ, ◌≡◌, ◌≢◌, refl, Bool, true, false, List, [], ◌∷◌, ◌++◌, arith, Str, ◌==◌, nat_eq, All, ==_refl,
  ==→≡,
}

push_head : ℕ → List Str → List Str
push_head c [] = (c ∷ []) ∷ []
push_head c (p ∷ ps) = (c ∷ p) ∷ ps

push_head-append :
    (c : ℕ) (ps qs : List Str) → ps ≢ [] → push_head c (ps ++ qs) ≡ push_head c ps ++ qs
unfolding push_head
push_head-append c [] qs h = absurd (h refl)
push_head-append c (p ∷ ps) qs h = refl

-- The parts between the characters that pass the test: one part at least.
unfoldable pub split_by : (ℕ → Bool) → Str → List Str
unfolding push_head
split_by p [] = [] ∷ []
split_by p (c ∷ s) =
    let rest = split_by p s in elim (p c) [ true ↦ [] ∷ rest | false ↦ push_head c rest ]

unfoldable pub split : ℕ → Str → List Str
unfolding split_by nat_eq
split sep = split_by (λ c. c == sep)

unfoldable pub join : Str → List Str → Str
join sep [] = []
join sep (p ∷ []) = p
join sep (p ∷ q ∷ ps) = p ++ (sep ++ join sep (q ∷ ps))

split_by-ne-nil : (p : ℕ → Bool) (s : Str) → split_by p s ≢ []
unfolding split_by
split_by-ne-nil p [] = ground arith
split_by-ne-nil p (c ∷ s) = ground (arith, split_by-ne-nil p s)

join-push_head : (sep : Str) (c : ℕ) (ps : List Str) → join sep (push_head c ps) ≡ c ∷ join sep ps
unfolding join push_head
join-push_head sep c [] = refl
join-push_head sep c (p ∷ []) = refl
join-push_head sep c (p ∷ q ∷ ps) = refl

join-nil_cons : (sep : Str) (ps : List Str) → ps ≢ [] → join sep ([] ∷ ps) ≡ sep ++ join sep ps
unfolding join
join-nil_cons sep [] h = absurd (h refl)
join-nil_cons sep (p ∷ ps) h = refl

module _ (p : ℕ → Bool) where
  join-split_by :
      (sep : ℕ) → ((c : ℕ) → p c ≡ true → c ≡ sep) → (s : Str) → join (sep ∷ []) (split_by p s) ≡ s
  unfolding split_by
  join-split_by sep only [] = unfold join in refl
  join-split_by sep only (c ∷ s) =
      let rest = split_by p s in
      ground (
        arith,
        only c,
        join-nil_cons (sep ∷ []) rest (split_by-ne-nil p s),
        join-push_head (sep ∷ []) c rest,
        join-split_by sep only s,
      )

  -- No character passes the test.
  abbrev pub IsSolid : Str → Type 0
  IsSolid = All (λ c. p c ≡ false)

  pub split_by_solid : (w : Str) → IsSolid w → split_by p w ≡ w ∷ []
  unfolding split_by
  split_by_solid [] h = refl
  split_by_solid (c ∷ w) (hc, hw) = ground (arith, split_by_solid w hw)

  pub split_by-append :
      (w : Str) (c : ℕ) (s : Str)
      → IsSolid w
      → p c ≡ true
      → split_by p (w ++ c ∷ s) ≡ w ∷ split_by p s
  unfolding split_by
  split_by-append [] c s h hc = ground arith
  split_by-append (a ∷ w) c s (ha, hw) hc = ground (arith, split_by-append w c s hw hc)

  pub split_by-append_any :
      (s : Str) (c : ℕ) (w : Str)
      → p c ≡ true
      → split_by p (s ++ c ∷ w) ≡ split_by p s ++ split_by p w
  unfolding split_by
  split_by-append_any [] c w hc = ground arith
  split_by-append_any (a ∷ s) c w hc = ground (
    arith,
    split_by-append_any s c w hc,
    push_head-append a (split_by p s) (split_by p w),
    split_by-ne-nil p s,
  )

  split_by-IsSolid : (s : Str) → All IsSolid (split_by p s)
  unfolding split_by
  split_by-IsSolid [] = (tt, tt)
  split_by-IsSolid (c ∷ s) = step (p c) refl (split_by p s) (split_by-IsSolid s)
    where
      push : (ps : List Str) → p c ≡ false → All IsSolid ps → All IsSolid (push_head c ps)
      push [] h a = ((h, tt), tt)
      push (q ∷ ps) h (a, rest) = ((h, a), rest)

      step :
          (b : Bool)
          → p c ≡ b
          → (rest : List Str) → All IsSolid rest
          → All IsSolid (elim b [ true ↦ [] ∷ rest | false ↦ push_head c rest ])
      step true e rest a = (tt, a)
      step false e rest a = push rest e a

-- Joining the parts of a split gives the text back.
pub join-split : (sep : ℕ) (s : Str) → join (sep ∷ []) (split sep s) ≡ s
unfolding split
join-split sep s = join-split_by (λ c. c == sep) sep (λ c. ==→≡ c sep) s

abbrev pub Lacks : ℕ → Str → Type 0
Lacks sep = All (λ c. (c == sep) ≡ false)

pub split_one : (sep : ℕ) (w : Str) → Lacks sep w → split sep w ≡ w ∷ []
unfolding split
split_one sep w h = split_by_solid (λ c. c == sep) w h

pub split-append : (sep : ℕ) (w s : Str) → Lacks sep w → split sep (w ++ sep ∷ s) ≡ w ∷ split sep s
unfolding split
split-append sep w s h = split_by-append (λ c. c == sep) w sep s h (==_refl sep)

-- A split at a separator goes on behind any text.
pub split-append_any : (sep : ℕ) (s w : Str) → split sep (s ++ sep ∷ w) ≡ split sep s ++ split sep w
unfolding split
split-append_any sep s w = split_by-append_any (λ c. c == sep) s sep w (==_refl sep)

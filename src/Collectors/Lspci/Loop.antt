-- ===== src/Collectors/Lspci/Loop.antt =====
-- The loop of `splitLspciFields` without fuel, as a relation, and that it ends.
use rewsr_maxfields.Base.{
  ℕ, zero, suc, ◌<◌, ◌≤◌, ◌≡◌, refl, ap, true, none, some, [], ◌∷◌, arith, Str, nat_eq, length,
  Option-cases, inl, inr,
}
use rewsr_maxfields.Text.Cut.{cut}
use rewsr_maxfields.Collectors.Lspci.{Fields, field_step, field_loop}

-- What the loop yields from a text and the fields read before: it ends behind the text, or where a round
-- returns, and otherwise goes on from the next position.
pub data Runs : Str → Fields → Fields → Type 0 where
  done : {p : Fields} → Runs [] p p
  stop : {c : ℕ} {s : Str} {p q : Fields} → field_step c s p ≡ (q, none) → Runs (c ∷ s) p q
  next :
      {c : ℕ} {s rest : Str} {p q r : Fields}
      → field_step c s p ≡ (q, some rest)
      → Runs rest q r
      → Runs (c ∷ s) p r

length-cut : (sep : ℕ) (s : Str) → (cut sep s).2 ≡ true → length (cut sep s).1 < length s
unfolding cut
length-cut sep [] h = ground arith
length-cut sep (c ∷ s) h = ground (arith, length-cut sep s)

-- A round goes on from a later position.
field_step-length :
    (c : ℕ) (s : Str) (p : Fields) {q : Fields} {rest : Str}
    → field_step c s p ≡ (q, some rest)
    → length rest ≤ length s
unfolding field_step cut
field_step-length c s p h = ground (arith, length-cut b'"' s, length-cut b' ' s)

-- With a round for each character and one more, the loop ends by itself.
pub field_loop-Runs :
    (fuel : ℕ) (s : Str) (p : Fields) → length s < fuel → Runs s p (field_loop fuel s p)
unfolding field_loop
field_loop-Runs zero s p h = absurd (omega arith)
field_loop-Runs (suc fuel) [] p h = done
field_loop-Runs (suc fuel) (c ∷ s) p h = elim (Option-cases (field_step c s p).1) [
  | inl e ↦ rw (e, field_loop) (stop (λ i. ((field_step c s p).0, e i)))
  | inr (rest, e) ↦
      let same : field_step c s p ≡ ((field_step c s p).0, some rest) =
        λ i. ((field_step c s p).0, e i) in
      rw (e, field_loop)
        (next same (
          field_loop-Runs fuel rest (field_step c s p).0
            (omega (arith, field_step-length c s p same))))
]

-- And what the relation allows is what the loop yields.
pub field_loop_of_Runs :
    (fuel : ℕ) {s : Str} {p q : Fields} → Runs s p q → length s < fuel → field_loop fuel s p ≡ q
unfolding field_loop
field_loop_of_Runs zero r h = absurd (omega arith)
field_loop_of_Runs (suc fuel) done h = refl
field_loop_of_Runs (suc fuel) (stop e) h = rw (ap (λ x. x.1) e, field_loop) (ap (λ x. x.0) e)
field_loop_of_Runs (suc fuel) (next {c} {s} {rest} {p} e r) h =
    rw (ap (λ x. x.1) e, field_loop)
      (rw (ap (λ x. x.0) e) (field_loop_of_Runs fuel r (omega (arith, field_step-length c s p e))))

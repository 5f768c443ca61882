-- ===== src/Base/Strings.antt =====
-- Go strings as lists of code points: what the program compares, cuts and sorts are valid UTF-8
-- texts, whose bytes order as their code points do.
use Prim.Native.Char.{code}
use Prim.Native.Nat.{ℕ}
use Prim.Native.String.{String}
use mathlib.Core.Path.{◌≡◌}
use mathlib.Core.Logic.{dite, ◌↔◌}
use mathlib.Core.Bool.{Bool, true, false, ◌&&◌, Bool-discrete}
use mathlib.Core.List.{List, [], ◌∷◌}
use native.Mathlib.Omega.{arith}
use rewsr_maxfields.Base.Equality.{Eq, ◌==◌, nat_eq}

abbrev pub Str : Type 0
Str = List ℕ

-- A literal. Shut in proofs, where it is one unknown text.
unfoldable pub str : String → Str
str String.[] = []
str (String.◌∷◌ c s) = code c ∷ str s

unfoldable pub str_beq : Str → Str → Bool
unfolding nat_eq
str_beq [] [] = true
str_beq [] (b ∷ t) = false
str_beq (a ∷ s) [] = false
str_beq (a ∷ s) (b ∷ t) = a == b && str_beq s t

pub str_beq_iff : (s t : Str) → (str_beq s t ≡ true) ↔ (s ≡ t)
unfolding str_beq
str_beq_iff [] [] = ground arith
str_beq_iff [] (b ∷ t) = ground arith
str_beq_iff (a ∷ s) [] = ground arith
str_beq_iff (a ∷ s) (b ∷ t) = ground (arith, str_beq_iff s t)

instance unfoldable pub str_eq : Eq Str
unfolding str_beq
str_eq = record {
  dec = λ s t.
      dite (Bool-discrete (str_beq s t) true) (λ same. yes ((str_beq_iff s t).0 same))
        (λ differ. no (λ p. differ ((str_beq_iff s t).1 p)));
}

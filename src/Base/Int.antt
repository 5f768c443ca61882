-- ===== src/Base/Int.antt =====
-- Go's `int`, 64 bits and signed: a value is the integer it stands for, and arithmetic wraps.
use Prim.Native.Nat.{ℕ, suc, ◌+◌, ◌-◌, ◌*◌, ◌/◌, ◌%◌, ◌^◌, ◌≤◌, ◌<◌}
use mathlib.Core.Path.{◌≡◌}
use mathlib.Core.Bool.{Bool, false}
use native.Mathlib.Decide.{ℕ_discrete}
use native.Mathlib.Omega.{arith}
use rewsr_maxfields.Base.Equality.{Eq, nat_eq}
use rewsr_maxfields.Base.Tests.{ltb, leb, if◌then◌else◌}

-- `negsuc n` is -(n + 1).
pub data ℤ : Type 0 where
  pos : ℕ → ℤ
  negsuc : ℕ → ℤ

ℤ-discrete : Discrete ℤ
ℤ-discrete = hlevel ℕ_discrete

instance unfoldable pub int_eq : Eq ℤ
unfolding ℤ-discrete ℕ_discrete
int_eq = record { dec = ℤ-discrete }

abbrev pub pos_part : ℤ → ℕ
pos_part (pos n) = n
pos_part (negsuc n) = 0

abbrev pub neg_part : ℤ → ℕ
neg_part (pos n) = 0
neg_part (negsuc n) = suc n

-- a - b, as an integer.
abbrev pub sub_ℕ : ℕ → ℕ → ℤ
sub_ℕ a b = if leb b a then pos (a - b) else negsuc (b - a - 1)

abbrev pub ltb_ℤ : ℤ → ℤ → Bool
ltb_ℤ a b = ltb (pos_part a + neg_part b) (pos_part b + neg_part a)

-- `0 < a`
abbrev pub is_pos : ℤ → Bool
is_pos (pos n) = ltb 0 n
is_pos (negsuc n) = false

-- `a == 0`
abbrev pub is_zero : ℤ → Bool
is_zero (pos n) = leb n 0
is_zero (negsuc n) = false

infix 50 ◌≤ℤ◌
abbrev pub ◌≤ℤ◌ : ℤ → ℤ → Type 0
a ≤ℤ b = pos_part a + neg_part b ≤ pos_part b + neg_part a

infixl 65 ◌+ℤ◌ ◌-ℤ◌
unfoldable pub ◌+ℤ◌ : ℤ → ℤ → ℤ
a +ℤ b = sub_ℕ (pos_part a + pos_part b) (neg_part a + neg_part b)

unfoldable pub ◌-ℤ◌ : ℤ → ℤ → ℤ
a -ℤ b = sub_ℕ (pos_part a + neg_part b) (neg_part a + pos_part b)

-- `a / d` for a positive constant, cut towards 0.
unfoldable pub quot_ℤ : ℤ → ℕ → ℤ
quot_ℤ (pos n) d = pos (n / d)
quot_ℤ (negsuc n) d = sub_ℕ 0 (suc n / d)

infixl 70 ◌*ℤ◌
unfoldable pub ◌*ℤ◌ : ℤ → ℤ → ℤ
a *ℤ b =
    sub_ℕ (pos_part a * pos_part b + neg_part a * neg_part b)
      (pos_part a * neg_part b + neg_part a * pos_part b)

-- Two's complement: the pattern of 64 bits, and the integer that a pattern stands for.
pattern_of : ℤ → ℕ
pattern_of (pos n) = n % 2 ^ 64
pattern_of (negsuc n) = 2 ^ 64 - 1 - n % 2 ^ 64

of_pattern : ℕ → ℤ
of_pattern u = if ltb u (2 ^ 63) then pos u else negsuc (2 ^ 64 - 1 - u)

-- What an `int` holds after an operation whose exact result is `a`.
unfoldable pub wrap : ℤ → ℤ
unfolding pattern_of of_pattern
wrap a = of_pattern (pattern_of a)

abbrev pub max_int : ℕ
max_int = 2 ^ 63 - 1

-- -2^63 ≤ a < 2^63
abbrev pub IsInt : ℤ → Type 0
IsInt a = (pos_part a < 2 ^ 63) × (neg_part a ≤ 2 ^ 63)

pub wrap_of_IsInt : (a : ℤ) → IsInt a → wrap a ≡ a
unfolding wrap
wrap_of_IsInt (pos n) h = ground arith
wrap_of_IsInt (negsuc n) h = ground arith

pub wrap-IsInt : (a : ℤ) → IsInt (wrap a)
unfolding wrap
wrap-IsInt (pos n) = ground arith
wrap-IsInt (negsuc n) = ground arith

-- `a + b` in `int`.
unfoldable pub add_int : ℤ → ℤ → ℤ
add_int a b = wrap (a +ℤ b)

-- A sum that wraps at every step ends where the exact sum wraps once.
pub wrap-+ℤ : (a b : ℤ) → wrap (wrap a +ℤ b) ≡ wrap (a +ℤ b)
unfolding wrap ◌+ℤ◌
wrap-+ℤ (pos a) (pos b) = ground arith
wrap-+ℤ (pos a) (negsuc b) = ground arith
wrap-+ℤ (negsuc a) (pos b) = ground arith
wrap-+ℤ (negsuc a) (negsuc b) = ground arith

pub add_int-wrap : (a b : ℤ) → add_int (wrap a) b ≡ wrap (a +ℤ b)
unfolding add_int
add_int-wrap a b = wrap-+ℤ a b

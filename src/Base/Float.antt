-- ===== src/Base/Float.antt =====
-- Go's `float64` as the pattern of its 64 bits, with the comparisons that the program makes.
use Prim.Native.Nat.{ℕ, ◌-◌, ◌^◌}
use mathlib.Core.Path.{◌≡◌, refl}
use mathlib.Core.Bool.{Bool, true, false, not, ◌&&◌, ◌||◌}
use native.Mathlib.Omega.{arith}
use rewsr_maxfields.Base.Tests.{ltb, if◌then◌else◌}
use rewsr_maxfields.Base.Int.{ℤ, pos, sub_ℕ, ltb_ℤ}

pub record Float64 : Type 0 where
  pub bits : ℕ

-- An exponent of ones and a fraction that is not 0.
unfoldable pub is_nan : Float64 → Bool
is_nan a = ltb 0x7ff0_0000_0000_0000 (if ltb a.bits (2 ^ 63) then a.bits else a.bits - 2 ^ 63)

-- The patterns of floats of one sign are in the order of the floats; the two zeros are equal.
rank : Float64 → ℤ
rank a = if ltb a.bits (2 ^ 63) then pos a.bits else sub_ℕ 0 (a.bits - 2 ^ 63)

-- `a > b`, false for a NaN.
unfoldable pub gt_float : Float64 → Float64 → Bool
unfolding rank
gt_float a b = not (is_nan a) && not (is_nan b) && ltb_ℤ (rank b) (rank a)

-- `a >= b`, false for a NaN.
unfoldable pub ge_float : Float64 → Float64 → Bool
unfolding rank
ge_float a b = not (is_nan a) && not (is_nan b) && not (ltb_ℤ (rank a) (rank b))

-- `if d > m { m = d }`
abbrev pub larger : Float64 → Float64 → Float64
larger d m = if gt_float d m then d else m

pub larger-is_nan : (d m : Float64) → is_nan m ≡ false → is_nan (larger d m) ≡ false
unfolding gt_float
larger-is_nan d m h = ground arith

-- The larger of two reaches what one of them reaches.
pub ge_float-larger :
    (d m x : Float64) → is_nan m ≡ false → ge_float (larger d m) x ≡ (ge_float m x || ge_float d x)
unfolding gt_float ge_float
ge_float-larger d m x h = ground arith

abbrev pub zero_float : Float64
zero_float = record { bits = 0 }

abbrev pub sixteen : Float64
sixteen = record { bits = 0x4030_0000_0000_0000 }

abbrev pub thirty_two : Float64
thirty_two = record { bits = 0x4040_0000_0000_0000 }

-- What reaches 32 reaches 16, and 0 reaches neither.
pub ge_float-sixteen : (a : Float64) → ge_float a thirty_two ≡ true → ge_float a sixteen ≡ true
unfolding ge_float is_nan
ge_float-sixteen a h = ground arith

pub ge_float-zero :
    (ge_float zero_float sixteen ≡ false)
    × (ge_float zero_float thirty_two ≡ false)
    × (is_nan zero_float ≡ false)
unfolding ge_float is_nan
ge_float-zero = (refl, refl, refl)

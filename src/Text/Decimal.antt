-- ===== src/Text/Decimal.antt =====
-- `strconv.Atoi` and `strconv.Itoa`.
pub mod RoundTrip
use rewsr_maxfields.Base.{
  ℕ, zero, suc, ◌+◌, ◌-◌, ◌*◌, ◌/◌, ◌%◌, ◌^◌, ◌<◌, ◌≤◌, ◌≡◌, refl, ◌||◌, Bool, Option, none, some,
  [], ◌∷◌, ◌++◌, arith, Str, ◌==◌, nat_eq, leb, ltb, if◌then◌else◌,
}
use rewsr_maxfields.Base.Int.{ℤ, pos, negsuc, IsInt, max_int}
use rewsr_maxfields.Text.Space.{trim_space}

-- The digits behind the number read so far.
unfoldable pub scan : Str → ℕ → Option ℕ
scan [] n = some n
scan (c ∷ s) n = if ltb c b'0' || ltb b'9' c then none else scan s (n * 10 + (c - b'0'))

-- One digit at least.
unfoldable pub unsigned : Str → Option ℕ
unsigned [] = none
unsigned (c ∷ s) = scan (c ∷ s) 0

-- A number out of range is an error.
unfoldable pub positive : Option ℕ → Option ℤ
positive none = none
positive (some n) = if leb n max_int then some (pos n) else none

unfoldable pub negative : Option ℕ → Option ℤ
negative none = none
negative (some zero) = some (pos 0)
negative (some (suc n)) = if leb n max_int then some (negsuc n) else none

unfoldable pub atoi : Str → Option ℤ
unfolding nat_eq
atoi [] = none
atoi (c ∷ s) =
    if c == b'-'
    then negative (unsigned s)
    else if c == b'+'
    then positive (unsigned s)
    else positive (unsigned (c ∷ s))

-- The number that is read with an error: it stops at the largest number of 64 bits.
unfoldable pub scan_value : Str → ℕ → Option ℕ
scan_value [] n = some n
scan_value (c ∷ s) n =
    let m = n * 10 + (c - b'0') in
    let rest = scan_value s m in
    if ltb c b'0' || ltb b'9' c then none else if ltb m (2 ^ 64) then rest else some (2 ^ 64 - 1)

unfoldable pub value_or_zero : Str → ℕ
value_or_zero [] = 0
value_or_zero (c ∷ s) = elim (scan_value (c ∷ s) 0) [ none ↦ 0 | some n ↦ n ]

abbrev pub negated : ℕ → ℤ
negated zero = pos 0
negated (suc n) = negsuc (if leb n max_int then n else max_int)

-- What `strconv.Atoi` returns beside its error: 0, or the nearest `int` to a number out of range.
unfoldable pub atoi_value : Str → ℤ
unfolding nat_eq
atoi_value [] = pos 0
atoi_value (c ∷ s) =
    let near : ℕ → ℤ = λ n. pos (if leb n max_int then n else max_int) in
    if c == b'-'
    then negated (value_or_zero s)
    else if c == b'+'
    then near (value_or_zero s)
    else near (value_or_zero (c ∷ s))

-- The digits of `n` in front of `out`; nineteen suffice for an `int`.
unfoldable pub emit : ℕ → ℕ → Str → Str
emit zero n out = out
emit (suc f) n out =
    let more = emit f (n / 10) ((b'0' + n % 10) ∷ out) in
    if leb 10 n then more else (b'0' + n) ∷ out

unfoldable pub itoa : ℤ → Str
itoa (pos n) = emit 20 n []
itoa (negsuc n) = b'-' ∷ emit 20 (suc n) []

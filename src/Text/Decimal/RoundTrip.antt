-- ===== src/Text/Decimal/RoundTrip.antt =====
-- Every `int` is read back from its decimal text.
use native.Mathlib.Nat.{pow-suc}
use rewsr_maxfields.Base.{
  ℕ, zero, suc, ◌+◌, ◌*◌, ◌/◌, ◌%◌, ◌^◌, ◌<◌, ◌≤◌, ◌≡◌, ◌≢◌, ◌∙◌, refl, some, [], ◌∷◌, arith, Str,
  nat_eq, All,
}
use rewsr_maxfields.Base.Int.{ℤ, pos, negsuc, IsInt}
use rewsr_maxfields.Text.Split.{Lacks}
use rewsr_maxfields.Text.Decimal.{scan, unsigned, positive, negative, atoi, emit, itoa}

abbrev pub IsDigit : ℕ → Type 0
IsDigit c = (b'0' ≤ c) × (c ≤ b'9')

scan_digit :
    (d : ℕ) (out : Str) (m : ℕ) → d < 10 → scan ((b'0' + d) ∷ out) m ≡ scan out (m * 10 + d)
unfolding scan
scan_digit d out m h = ground arith

tenth_fits : (f n : ℕ) → n < 10 ^ suc f → n / 10 < 10 ^ f
tenth_fits f n h = omega (arith, pow-suc 10 f)

scan-emit : (f n : ℕ) (out : Str) → n < 10 ^ f → scan (emit f n out) 0 ≡ scan out n
unfolding emit
scan-emit zero n out h = let e : n ≡ 0 = omega arith in rw e
scan-emit (suc f) n out h = ground (
  arith,
  scan-emit f (n / 10) ((b'0' + n % 10) ∷ out) (tenth_fits f n h),
  scan_digit (n % 10) out (n / 10) (omega arith),
  scan_digit n out 0,
)

emit-IsDigit : (f n : ℕ) (out : Str) → All IsDigit out → All IsDigit (emit f n out)
unfolding emit
emit-IsDigit zero n out h = h
emit-IsDigit (suc f) n out h =
    ground (arith, emit-IsDigit f (n / 10) ((b'0' + n % 10) ∷ out) (omega arith, h))

emit_onto-ne-nil : (f n : ℕ) (c : ℕ) (out : Str) → emit f n (c ∷ out) ≢ []
unfolding emit
emit_onto-ne-nil zero n c out h = ground arith
emit_onto-ne-nil (suc f) n c out h =
    ground (arith, emit_onto-ne-nil f (n / 10) (b'0' + n % 10) (c ∷ out))

emit-ne-nil : (f n : ℕ) → emit (suc f) n [] ≢ []
unfolding emit
emit-ne-nil f n = ground (arith, emit_onto-ne-nil f (n / 10) (b'0' + n % 10) [])

unsigned-scan : (s : Str) → s ≢ [] → unsigned s ≡ scan s 0
unfolding unsigned
unsigned-scan [] h = absurd (h refl)
unsigned-scan (c ∷ s) h = refl

unsigned-emit : (n : ℕ) → n < 10 ^ 20 → unsigned (emit 20 n []) ≡ some n
unsigned-emit n h =
    unsigned-scan (emit 20 n []) (emit-ne-nil 19 n) ∙ scan-emit 20 n [] h ∙ unfold scan in refl

atoi_digits : (s : Str) → All IsDigit s → s ≢ [] → atoi s ≡ positive (unsigned s)
unfolding atoi
atoi_digits [] d h = absurd (h refl)
atoi_digits (c ∷ s) (d, ds) h = ground arith

-- A number of 64 bits with a sign survives `Itoa` and then `Atoi`.
pub atoi-itoa : (a : ℤ) → IsInt a → atoi (itoa a) ≡ some a
unfolding itoa
atoi-itoa (pos n) h =
    atoi_digits (emit 20 n []) (emit-IsDigit 20 n [] tt) (emit-ne-nil 19 n)
    ∙ rw (unsigned-emit n (omega arith)) (unfold positive in ground arith)
atoi-itoa (negsuc n) h =
    unfold atoi in rw (unsigned-emit (suc n) (omega arith)) (unfold negative in ground arith)

-- A decimal text holds no character other than digits and a minus sign.
pub itoa-Lacks : (sep : ℕ) (a : ℤ) → b'9' < sep → Lacks sep (itoa a)
unfolding itoa
itoa-Lacks sep a h = go a
  where
    digits_lack : (s : Str) → All IsDigit s → Lacks sep s
    digits_lack [] d = tt
    digits_lack (c ∷ s) (d, ds) = (ground arith, digits_lack s ds)

    go : (a : ℤ) → Lacks sep (itoa a)
    go (pos n) = digits_lack (emit 20 n []) (emit-IsDigit 20 n [] tt)
    go (negsuc n) = (ground arith, digits_lack (emit 20 (suc n) []) (emit-IsDigit 20 (suc n) [] tt))

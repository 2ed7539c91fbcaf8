-- ===== src/Harness/Half/Nearest.antt =====
-- The half conversions of ctest/sweep.hpp round to the nearest and come back unchanged.
use cwapper.Base.{
  ℕ, ◌+◌, ◌*◌, ◌/◌, ◌%◌, ◌^◌, ◌<◌, ◌≤◌, ◌≡◌, ◌≢◌, ◌⊎◌, inl, inr, subst, refl, sym, ap, ◌∙◌, arith,
  ◌==◌, ltb, leb, false,
}
use cwapper.Harness.Half.{float_to_bf16, bf16_to_float, float_to_fp16, fp16_to_float, narrow, widen}
use cwapper.Harness.Half.Subnormal.{positive_subnormal, negative_subnormal}

float_to_bf16-bf16_to_float : (h : ℕ) → h < 65536 → float_to_bf16 (bf16_to_float h) ≡ h
unfolding float_to_bf16 bf16_to_float
float_to_bf16-bf16_to_float h lt = omega arith

widen_normal :
    (sign exp mant : ℕ)
    → 0 < exp
    → exp < 31
    → widen sign exp mant ≡ sign + (exp + 112) * 2 ^ 23 + mant * 2 ^ 13
widen_normal sign exp mant lo hi =
    let a : (exp == 0) ≡ false = ground arith in
    let b : (exp == 31) ≡ false = ground arith in rw (a, b) refl

narrow_normal :
    (sign exp mant : ℕ)
    → 0 < exp
    → exp < 31
    → mant < 1024
    → sign ≤ 32768
    → narrow sign (exp + 112) (mant * 2 ^ 13) ≡ sign + exp * 2 ^ 10 + mant
narrow_normal sign exp mant lo hi small bit =
    let a : ltb (exp + 112) 102 ≡ false = ground arith in
    let b : leb (exp + 112) 112 ≡ false = ground arith in
    let c : leb 143 (exp + 112) ≡ false = ground arith in
    let e : (mant * 2 ^ 13) % 2 ^ 13 ≡ 0 = omega arith in rw (a, b, c, e) omega arith

narrow_of :
    (x sign field mant : ℕ)
    → (x / 2 ^ 31) % 2 * 2 ^ 15 ≡ sign
    → (x / 2 ^ 23) % 2 ^ 8 ≡ field
    → x % 2 ^ 23 ≡ mant
    → float_to_fp16 x ≡ narrow sign field mant
unfolding float_to_fp16
narrow_of x sign field mant e f g =
    ap (λ s. narrow s ((x / 2 ^ 23) % 2 ^ 8) (x % 2 ^ 23)) e
    ∙ ap (λ k. narrow sign k (x % 2 ^ 23)) f
    ∙ ap (λ m. narrow sign field m) g

normal_float :
    (h : ℕ)
    → 0 < (h / 2 ^ 10) % 2 ^ 5
    → (h / 2 ^ 10) % 2 ^ 5 < 31
    → fp16_to_float h
      ≡ (h / 2 ^ 15) % 2 * 2 ^ 31 + ((h / 2 ^ 10) % 2 ^ 5 + 112) * 2 ^ 23 + h % 2 ^ 10 * 2 ^ 13
unfolding fp16_to_float
normal_float h lo hi =
    widen_normal ((h / 2 ^ 15) % 2 * 2 ^ 31) ((h / 2 ^ 10) % 2 ^ 5) (h % 2 ^ 10) lo hi

normal_round_trip :
    (h : ℕ)
    → h < 65536
    → 0 < (h / 2 ^ 10) % 2 ^ 5
    → (h / 2 ^ 10) % 2 ^ 5 < 31
    → float_to_fp16 (fp16_to_float h) ≡ h
normal_round_trip h lt lo hi =
    let sign = (h / 2 ^ 15) % 2 in
    let exp = (h / 2 ^ 10) % 2 ^ 5 in
    let mant = h % 2 ^ 10 in
    let bits = sign * 2 ^ 31 + (exp + 112) * 2 ^ 23 + mant * 2 ^ 13 in
    let whole : sign * 2 ^ 15 + exp * 2 ^ 10 + mant ≡ h = omega arith in
    ap float_to_fp16 (normal_float h lo hi)
    ∙ narrow_of bits (sign * 2 ^ 15) (exp + 112) (mant * 2 ^ 13) (omega arith) (omega arith)
        (omega arith)
    ∙ narrow_normal (sign * 2 ^ 15) exp mant lo hi (omega arith) (omega arith)
    ∙ whole

half_cases :
    (h : ℕ)
    → h < 65536
    → h % 32768 ≤ 0x7c00
    → ((h ≡ h % 1024) ⊎ (h ≡ 32768 + h % 1024))
      ⊎ (((0 < (h / 2 ^ 10) % 2 ^ 5) × ((h / 2 ^ 10) % 2 ^ 5 < 31)) ⊎ ((h ≡ 31744) ⊎ (h ≡ 64512)))
half_cases h lt number = ground arith

infinite : float_to_fp16 (fp16_to_float 31744) ≡ 31744
unfolding float_to_fp16 fp16_to_float
infinite = refl

minus_infinite : float_to_fp16 (fp16_to_float 64512) ≡ 64512
unfolding float_to_fp16 fp16_to_float
minus_infinite = refl

-- Every half that is not a NaN, infinities, zeros and subnormals included, is the same half again after
-- a conversion to float and back.
pub float_to_fp16-fp16_to_float :
    (h : ℕ) → h < 65536 → h % 32768 ≤ 0x7c00 → float_to_fp16 (fp16_to_float h) ≡ h
float_to_fp16-fp16_to_float h lt number = elim (half_cases h lt number) [
  | inl (inl e) ↦
      subst (λ k. float_to_fp16 (fp16_to_float k) ≡ k) (sym e)
        (positive_subnormal (h % 1024) (omega arith))
  | inl (inr e) ↦
      subst (λ k. float_to_fp16 (fp16_to_float k) ≡ k) (sym e)
        (negative_subnormal (h % 1024) (omega arith))
  | inr (inl (lo, hi)) ↦ normal_round_trip h lt lo hi
  | inr (inr (inl e)) ↦ subst (λ k. float_to_fp16 (fp16_to_float k) ≡ k) (sym e) infinite
  | inr (inr (inr e)) ↦ subst (λ k. float_to_fp16 (fp16_to_float k) ≡ k) (sym e) minus_infinite
]

-- The result of the bfloat16 conversion of a pattern that is not a NaN is the nearest one, the even one
-- of two as near.
float_to_bf16-IsNearest :
    (x : ℕ)
    → x < 2 ^ 32
    → x % 2 ^ 31 ≤ 0x7f800000
    → (bf16_to_float (float_to_bf16 x) ≤ x + 2 ^ 15)
      × (x ≤ bf16_to_float (float_to_bf16 x) + 2 ^ 15)
      × ((x % 2 ^ 16 ≢ 2 ^ 15) ⊎ (float_to_bf16 x % 2 ≡ 0))
      × (float_to_bf16 x / 2 ^ 15 ≡ x / 2 ^ 31)
unfolding float_to_bf16 bf16_to_float
float_to_bf16-IsNearest x lt number = ground arith

-- A float whose exponent a normal half has: the result, taken back to a float's pattern, is at most half
-- a unit away, on the even side at half a unit, and has the same sign.
pub float_to_fp16-IsNearest :
    (x : ℕ)
    → x < 2 ^ 32
    → 113 * 2 ^ 23 ≤ x % 2 ^ 31
    → x % 2 ^ 31 < 143 * 2 ^ 23
    → (float_to_fp16 x % 2 ^ 15 * 2 ^ 13 + 112 * 2 ^ 23 ≤ x % 2 ^ 31 + 2 ^ 12)
      × (x % 2 ^ 31 ≤ float_to_fp16 x % 2 ^ 15 * 2 ^ 13 + 112 * 2 ^ 23 + 2 ^ 12)
      × ((x % 2 ^ 13 ≢ 2 ^ 12) ⊎ (float_to_fp16 x % 2 ≡ 0))
      × (float_to_fp16 x / 2 ^ 15 ≡ x / 2 ^ 31)
unfolding float_to_fp16
float_to_fp16-IsNearest x lt lo hi =
    let a : ltb ((x / 2 ^ 23) % 2 ^ 8) 102 ≡ false = ground arith in
    let b : leb ((x / 2 ^ 23) % 2 ^ 8) 112 ≡ false = ground arith in
    let c : leb 143 ((x / 2 ^ 23) % 2 ^ 8) ≡ false = ground arith in rw (a, b, c) ground arith

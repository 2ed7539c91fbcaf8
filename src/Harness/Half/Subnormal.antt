-- ===== src/Harness/Half/Subnormal.antt =====
-- The round trip of a half that is subnormal or zero (ctest/sweep.hpp), by evaluation.
use cwapper.Base.{
  ℕ, zero, suc, ◌+◌, ◌<◌, ◌≡◌, refl, ap, sym, ◌∙◌, arith, Bool, true, false, ◌==◌, if◌then◌else◌,
}
use cwapper.Harness.Half.{float_to_fp16, fp16_to_float}

-- Whether the halves from `lo` on, so many of them, come back.
come_back : ℕ → ℕ → Bool
come_back lo zero = true
come_back lo (suc n) =
    let later = come_back (suc lo) n in
    if float_to_fp16 (fp16_to_float lo) == lo then later else false

come_back_lem :
    (lo n m : ℕ) → come_back lo n ≡ true → m < n → float_to_fp16 (fp16_to_float (lo + m)) ≡ lo + m
unfolding come_back
come_back_lem lo zero m h lt = absurd (omega (arith, lt))
come_back_lem lo (suc n) zero h lt =
    let same : lo + 0 ≡ lo = ground arith in
    let first : float_to_fp16 (fp16_to_float lo) ≡ lo = ground arith in
    ap (λ k. float_to_fp16 (fp16_to_float k)) same ∙ first ∙ sym same
come_back_lem lo (suc n) (suc m) h lt =
    let next : suc lo + m ≡ lo + suc m = ground arith in
    let rest : come_back (suc lo) n ≡ true = ground arith in
    ap (λ k. float_to_fp16 (fp16_to_float k)) (sym next)
    ∙ come_back_lem (suc lo) n m rest (omega (arith, lt))
    ∙ next

positive_table : come_back 0 1024 ≡ true
unfolding come_back float_to_fp16 fp16_to_float
positive_table = refl

negative_table : come_back 32768 1024 ≡ true
unfolding come_back float_to_fp16 fp16_to_float
negative_table = refl

pub positive_subnormal : (m : ℕ) → m < 1024 → float_to_fp16 (fp16_to_float m) ≡ m
positive_subnormal m lt =
    let same : 0 + m ≡ m = ground arith in
    ap (λ k. float_to_fp16 (fp16_to_float k)) (sym same)
    ∙ come_back_lem 0 1024 m positive_table lt
    ∙ same

pub negative_subnormal : (m : ℕ) → m < 1024 → float_to_fp16 (fp16_to_float (32768 + m)) ≡ 32768 + m
negative_subnormal m lt = come_back_lem 32768 1024 m negative_table lt

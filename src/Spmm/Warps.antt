-- ===== src/Spmm/Warps.antt =====
-- The warps of a block in src/ops/spmm.cpp.
use native.Mathlib.Nat.{mul-le-mul_right, div-add-mod}
use cwapper.Base.{
  ℕ, ◌*◌, ◌/◌, ◌^◌, ◌≤◌, ◌<◌, ◌≡◌, ◌⊎◌, inl, inr, arith, ℤ, pos, pos_part, max_ℤ, max,
}
use cwapper.Spmm.Shape.{candidates, choose, warp_cap}

-- The largest power of two, up to 16, that the cap and the wish allow.
pub record IsClipped (cap wish c : ℕ) : Type 0 where
  pub power : (k : ℕ) × (c ≡ 2 ^ k)
  pub capped : c ≤ cap
  pub wished : c ≤ wish
  pub largest : (c ≡ 16) ⊎ ((cap < 2 * c) ⊎ (wish < 2 * c))

-- What clip_num_warps chooses under a cap.
abbrev pub clipped : ℕ → ℕ → ℕ
clipped cap desired = choose cap desired 1 candidates

cases :
    (cap desired : ℕ)
    → (clipped cap desired ≡ 1)
      ⊎ ((clipped cap desired ≡ 2)
          ⊎ ((clipped cap desired ≡ 4) ⊎ ((clipped cap desired ≡ 8) ⊎ (clipped cap desired ≡ 16))))
unfolding choose
cases cap desired = ground arith

at_least_one : (cap desired : ℕ) → 1 ≤ clipped cap desired
unfolding choose
at_least_one cap desired = ground arith

clipped-power : (cap desired : ℕ) → (k : ℕ) × (clipped cap desired ≡ 2 ^ k)
clipped-power cap desired = elim (cases cap desired) [
  | inl e ↦ (0, e)
  | inr (inl e) ↦ (1, e)
  | inr (inr (inl e)) ↦ (2, e)
  | inr (inr (inr (inl e))) ↦ (3, e)
  | inr (inr (inr (inr e))) ↦ (4, e)
]

clipped-bounds :
    (cap desired : ℕ)
    → 1 ≤ cap
    → (clipped cap desired ≤ cap)
      × (clipped cap desired ≤ max 1 desired)
      × ((clipped cap desired ≡ 16)
          ⊎ ((cap < 2 * clipped cap desired) ⊎ (max 1 desired < 2 * clipped cap desired)))
unfolding choose
clipped-bounds cap desired one = ground arith

warp_cap-bounds :
    (warp threads : ℤ)
    → (1 ≤ warp_cap warp threads)
      × ((warp_cap warp threads ≡ 1)
          ⊎ (warp_cap warp threads ≤ 1024 / pos_part (max_ℤ (pos 1) warp)))
unfolding warp_cap
warp_cap-bounds warp threads = ground arith

fits_block : (w c : ℕ) → c ≤ 1024 / w → c * w ≤ 1024
fits_block w c h =
    let scaled : c * w ≤ 1024 / w * w = mul-le-mul_right w h in
    let whole = div-add-mod 1024 w in ground arith

-- The warps of a block that clip_num_warps chooses for a wish, whatever the device says of itself:
-- the largest power of two, 16 at most, within the cap that it computes from the device and within
-- the wish (one at least); a block of more than one warp has 1024 threads at most.
clip_num_warps-IsClipped :
    (warp threads : ℤ) (desired : ℕ)
    → IsClipped (warp_cap warp threads) (max 1 desired) (clipped (warp_cap warp threads) desired)
      × ((clipped (warp_cap warp threads) desired ≡ 1)
          ⊎ (clipped (warp_cap warp threads) desired * pos_part (max_ℤ (pos 1) warp) ≤ 1024))
clip_num_warps-IsClipped warp threads desired =
    let (one, limit) = warp_cap-bounds warp threads in
    let bounds = clipped-bounds (warp_cap warp threads) desired one in
    (
      record {
        power = clipped-power (warp_cap warp threads) desired;
        capped = bounds.0;
        wished = bounds.1;
        largest = bounds.2;
      },
      elim limit [
        | inl single ↦ inl (
            let low = at_least_one (warp_cap warp threads) desired in
            let high = bounds.0 in omega (arith, low, high, single))
        | inr block ↦ inr (
            fits_block (pos_part (max_ℤ (pos 1) warp)) (clipped (warp_cap warp threads) desired)
              (let high = bounds.0 in omega (arith, high, block)))
      ],
    )

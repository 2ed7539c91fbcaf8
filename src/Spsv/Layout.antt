-- ===== src/Spsv/Layout.antt =====
-- The sizes of src/ops/spsv.cpp: the rounding of a block of rows, and the workers.
use cwapper.Base.{
  ℕ, zero, suc, ◌*◌, ◌+◌, ◌^◌, ◌≤◌, ◌<◌, ◌≡◌, refl, Bool-cases, inl, inr, ℤ, pos, ◌≤ℤ◌, arith,
  max_ℤ, ltb,
}
use cwapper.Spsv.Routes.{double_up, block_rows, worker_count, max_workers}

-- A power of two that is n at least, and less than 2n.
abbrev pub IsRounded : ℕ → ℕ → Type 0
IsRounded n b = (n ≤ b) × (b < 2 * n) × ((k : ℕ) × (b ≡ 2 ^ k))

two_power : (b k : ℕ) → b ≡ 2 ^ k → b * 2 ≡ 2 ^ suc k
two_power b k p = ground arith

-- Enough fuel from a power of two.
pub double_up-IsRounded :
    (f b n k : ℕ) → b ≡ 2 ^ k → n ≤ b + f → 0 < b → b < 2 * n → IsRounded n (double_up f b n)
unfolding double_up
double_up-IsRounded zero b n k p h o l = (ground arith, l, (k, p))
double_up-IsRounded (suc f) b n k p h o l = elim (Bool-cases (ltb b n)) [
  | inl e ↦
      let rest = double_up-IsRounded f (b * 2) n (suc k) (two_power b k p) in
      rw (e) (rest (ground arith) (ground arith) (ground arith))
  | inr e ↦ rw (e) (ground arith, l, (k, p))
]

-- block_rows of a slice size of n > 0 (the loop of the code that doubles from 1): a power of two, at
-- least n and less than 2n.
block_rows-IsRounded : (n : ℕ) → 0 < n → IsRounded n (block_rows (pos n))
unfolding block_rows
block_rows-IsRounded n h =
    double_up-IsRounded n 1 n 0 refl (ground arith) (ground arith) (ground arith)

-- The workers of a solve of n rows, or slices: one at least, 2048 at most, and no more than n where n
-- is positive, whatever the device says of itself.
worker_count-bounds :
    (n warp threads count : ℤ)
    → (pos 1 ≤ℤ worker_count n warp threads count)
      × (worker_count n warp threads count ≤ℤ pos max_workers)
      × (worker_count n warp threads count ≤ℤ max_ℤ (pos 1) n)
unfolding worker_count
worker_count-bounds n warp threads count = ground arith

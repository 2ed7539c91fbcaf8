-- ===== src/Sddmm/Steps.antt =====
-- The loops that shape the launches of src/ops/sddmm.cpp.
use native.Mathlib.Nat.{pow-le-pow_right}
use cwapper.Base.{
  ℕ, zero, suc, ◌+◌, ◌-◌, ◌*◌, ◌^◌, ◌≤◌, ◌<◌, ◌≡◌, ◌⊎◌, inl, inr, refl, arith, pos, pos_part, max_ℤ,
  le_ℤ, max, ltb, Bool-cases,
}
use cwapper.Spsv.Layout.{IsRounded, double_up-IsRounded}
use cwapper.Sddmm.Checks.{steps_from, search_steps, reduction_block}

-- The least number of halvings, one at least, that leave a single row of n.
pub record IsLeast (n k : ℕ) : Type 0 where
  pub positive : 1 ≤ k
  pub reaches : n ≤ 2 ^ k
  pub least : (k ≡ 1) ⊎ (2 ^ (k - 1) < n)

doubled : (k : ℕ) → 2 ^ suc k ≡ 2 * 2 ^ k
doubled k = ground arith

exceeds : (k : ℕ) → suc k ≤ 2 ^ k
exceeds zero = ground arith
exceeds (suc k) = let h = exceeds k in let d = doubled k in omega (arith, h, d)

-- From a number of steps of which one less is not enough, with fuel for the rest.
steps_from-IsLeast :
    (f k n : ℕ) → 1 ≤ k → n ≤ k + f → (k ≡ 1) ⊎ (2 ^ (k - 1) < n) → IsLeast n (steps_from f k n)
unfolding steps_from
steps_from-IsLeast zero k n one fuel least = record {
  positive = one;
  reaches = let h = exceeds k in omega (arith, h, fuel);
  least = least;
}
steps_from-IsLeast (suc f) k n one fuel least = elim (Bool-cases (ltb (2 ^ k) n)) [
  | inl e ↦
      rw (e) (steps_from-IsLeast f (suc k) n (ground arith) (ground arith) (inr (ground arith)))
  | inr e ↦ rw (e) (record { positive = one; reaches = ground arith; least = least })
]

at_least_two : (rows : ℕ) → pos_part (max_ℤ (pos 2) (pos rows)) ≡ max 2 rows
at_least_two rows = ground arith

search_steps-IsLeast : (rows : ℕ) → IsLeast (max 2 rows) (search_steps (pos rows))
unfolding search_steps
search_steps-IsLeast rows =
    rw (at_least_two rows)
      (steps_from-IsLeast (max 2 rows) 1 (max 2 rows) (ground arith) (ground arith) (inl refl))

few_or_many : (k : ℕ) → (k ≤ 62) ⊎ (62 ≤ k - 1)
few_or_many k = ground arith

within : (n k : ℕ) → n ≤ 2 ^ 62 → IsLeast n k → k ≤ 62
within n k h least = elim (few_or_many k) [
  | inl few ↦ few
  | inr many ↦
      let grows : 2 ^ 62 ≤ 2 ^ (k - 1) = pow-le-pow_right (ground arith) many in
      let minimal = least.least in ground arith
]

-- For a matrix of at most 2 ^ 62 rows, the steps that SDDMM passes to the kernel that finds the row of
-- a nonzero are the least number, one at least, of halvings that narrow the rows (two at least) to
-- one; they are at most 62, so that the shift of the loop stays within an int64_t.
pub search_steps_bounded :
    (rows : ℕ)
    → rows ≤ 2 ^ 62
    → IsLeast (max 2 rows) (search_steps (pos rows)) × (search_steps (pos rows) ≤ 62)
search_steps_bounded rows h =
    let least = search_steps-IsLeast rows in
    (least, within (max 2 rows) (search_steps (pos rows)) (ground arith) least)

-- block_k of a reduction of k > 0: 32 from there on, and below it a power of two, at least k and less
-- than 2k.
reduction_block-IsRounded :
    (k : ℕ)
    → 0 < k
    → ((32 ≤ k) × (reduction_block (pos k) ≡ 32)) ⊎ IsRounded k (reduction_block (pos k))
unfolding reduction_block
reduction_block-IsRounded k h = elim (Bool-cases (le_ℤ (pos 32) (pos k))) [
  | inl e ↦ rw (e) (inl (ground arith, refl))
  | inr e ↦
      rw (e) (inr (double_up-IsRounded k 1 k 0 refl (ground arith) (ground arith) (ground arith)))
]

-- ===== src/Spmv/Sizes.antt =====
-- The sizes of src/ops/spmv.cpp: segments of a row, and the external buffer of a COO matrix.
use native.Mathlib.Nat.{mod-lt, div-add-mod}
use cwapper.Base.{
  ℕ, suc, ◌*◌, ◌+◌, ◌/◌, ◌-◌, ◌≤◌, ◌<◌, ◌≡◌, ◌⊎◌, refl, ◌∙◌, arith, ℤ, pos, pos_part, ◌≤ℤ◌, max_ℤ,
  tiles_pos, List, [], ◌∷◌, length, true, false,
}
use cwapper.Types.{Operation, DataType, SpMvAlg, is_coo}
use cwapper.Exec.{ok}
use cwapper.Exec.Leaves.{
  Leaves, Leaves-refuse, Leaves-write, Leaves-skip, Leaves-gets, Leaves-if, Leaves-modify,
  Leaves-pure,
}
use cwapper.Machine.{Machine, State, mat_at, set_cell}
use cwapper.Meta.{words32}
use cwapper.Spmv.{buffer_size}
use cwapper.Spmv.Accepts.{validate-unchanged}
use cwapper.Spmv.Routes.{segments_of}

rounded_up : (n k : ℕ) → 0 < k → (n ≤ k * ((n + (k - 1)) / k)) × (k * ((n + (k - 1)) / k) < n + k)
rounded_up n k h =
    let whole = div-add-mod (n + (k - 1)) k in
    let part = mod-lt (n + (k - 1)) h in (omega arith, omega arith)

clipped :
    (n k q : ℕ)
    → (n ≤ k * q) × (k * q < n + k)
    → (n ≤ k * pos_part (max_ℤ (pos 1) (pos q)))
      × (pos 1 ≤ℤ max_ℤ (pos 1) (pos q))
      × ((max_ℤ (pos 1) (pos q) ≡ pos 1) ⊎ (k * pos_part (max_ℤ (pos 1) (pos q)) < n + k))
clipped n k q h = ground arith

-- The segments of k entries that a kernel walks through in one row cover the longest row; there is
-- always one, and where there is more than one, one segment less would not do.
segments_of-cover :
    (longest k : ℕ)
    → 0 < k
    → (longest ≤ k * pos_part (segments_of (pos longest) k))
      × (pos 1 ≤ℤ segments_of (pos longest) k)
      × ((segments_of (pos longest) k ≡ pos 1)
          ⊎ (k * pos_part (segments_of (pos longest) k) < longest + k))
unfolding segments_of
segments_of-cover longest k h =
    rw (tiles_pos) (clipped longest k ((longest + (k - 1)) / k) (rounded_up longest k h))

-- The words that build_coo_row_offsets copies take four bytes each.
pub length-words32 : (xs : List ℕ) → length (words32 xs) ≡ 4 * length xs
unfolding words32
length-words32 [] = refl
length-words32 (x ∷ xs) = omega (arith, length-words32 xs)

cells-set_cell : {Mem : Type 0} (p v : ℕ) (s : State Mem) → (set_cell p v s).cells p ≡ v
cells-set_cell p v s = ground arith

four_each :
    (xs : List ℕ) (z : ℤ)
    → length xs ≡ suc (pos_part z)
    → suc (pos_part z) * 4 ≡ length (words32 xs)
four_each xs z sized = omega (arith, length-words32 xs, sized)

module _ (m : Machine) (handle : ℕ) (op : Operation) (a vec_x vec_y : ℕ) (t : DataType)
    (alg : SpMvAlg) (size : ℕ) where
  -- The size reported for A, in the words that a build with n + 1 offsets writes.
  unfoldable Reported : State m.Mem → State m.Mem → Type 0
  Reported s u =
      (is_coo (mat_at s a).format ≡ true
        → (xs : List ℕ) → length xs ≡ suc (pos_part (mat_at s a).rows)
        → u.cells size ≡ length (words32 xs))
      × (is_coo (mat_at s a).format ≡ false → u.cells size ≡ 0)

  coo_Reported :
      (s : State m.Mem)
      → is_coo (mat_at s a).format ≡ true
      → Reported s (set_cell size (suc (pos_part (mat_at s a).rows) * 4) (set_cell size 0 s))
  unfolding Reported
  coo_Reported s coo =
      let v = suc (pos_part (mat_at s a).rows) * 4 in
      (
        λ _ xs sized.
            cells-set_cell size v (set_cell size 0 s) ∙ four_each xs (mat_at s a).rows sized,
        λ other. absurd (ground arith),
      )

  other_Reported :
      (s : State m.Mem) → is_coo (mat_at s a).format ≡ false → Reported s (set_cell size 0 s)
  unfolding Reported
  other_Reported s other = (λ coo xs sized. absurd (ground arith), λ _. cells-set_cell size 0 s)

  buffer_size-Leaves :
      (s : State m.Mem) → Leaves (Reported s) (buffer_size m handle op a vec_x vec_y t alg size) s
  unfolding buffer_size
  buffer_size-Leaves s =
      search
        (
          Leaves-refuse, Leaves-write, Leaves-skip, Leaves-gets, Leaves-if, Leaves-modify,
          Leaves-pure, validate-unchanged, coo_Reported, other_Reported,
        )
        depth 12

  -- If flagsparseSpMV_bufferSize succeeds for a COO matrix of n rows, the size it reports is that of
  -- the int32 words of n + 1 row offsets, which build_coo_row_offsets copies into the buffer.
  buffer_size-length-words32 :
      (s : State m.Mem) (xs : List ℕ)
      → (buffer_size m handle op a vec_x vec_y t alg size s).0 ≡ ok tt
      → is_coo (mat_at s a).format ≡ true
      → length xs ≡ suc (pos_part (mat_at s a).rows)
      → (buffer_size m handle op a vec_x vec_y t alg size s).1.cells size ≡ length (words32 xs)
  unfolding Reported
  buffer_size-length-words32 s xs h coo sized = ((buffer_size-Leaves s).at tt h).0 coo xs sized

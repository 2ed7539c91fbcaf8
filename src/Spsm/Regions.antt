-- ===== src/Spsm/Regions.antt =====
-- The regions of the scratch of src/ops/spsm.cpp, and its right-hand sides in tiles.
use native.Mathlib.Nat.{mul-div-le, lt-mul-div-succ, div-le_self}
use cwapper.Base.{
  ℕ, zero, suc, ◌+◌, ◌-◌, ◌%◌, ◌^◌, max, ap, ◌∙◌, tiles_pos, ◌*◌, ◌/◌, ◌≤◌, ◌<◌, ◌≡◌, ◌⊎◌, inl, inr,
  refl, sym, subst, arith, pos, pos_part, max_ℤ, min,
}
use cwapper.Types.{DataType, dtype_size}
use cwapper.Spsv.Routes.{double_up}
use cwapper.Spsv.Layout.{IsRounded, double_up-IsRounded}
use cwapper.Spsm.Layout.{Scratch, plan_scratch, align_up, rhs_tile_for, rhs_tiles}

-- Rounded up to the next multiple of 256.
pub record IsAligned (v a : ℕ) : Type 0 where
  pub multiple : (k : ℕ) × (a ≡ k * 256)
  pub covers : v ≤ a
  pub tight : a < v + 256

align_up-IsAligned : (v : ℕ) → v + 255 < 2 ^ 64 → IsAligned v (align_up v)
unfolding align_up
align_up-IsAligned v h = record {
  multiple = ((v + 255) % 2 ^ 64 / 256, refl);
  covers = ground arith;
  tight = ground arith;
}

-- So many tiles of `k` cover `n`, no tile too many; there is one at least.
pub record IsTiling (n k count : ℕ) : Type 0 where
  pub nonempty : 1 ≤ count
  pub covers : n ≤ count * k
  pub least : (count ≤ 1) ⊎ ((count - 1) * k < n)

tiled :
    (n k q : ℕ) → 0 < k → k * q ≤ n + (k - 1) → n + (k - 1) < k * (q + 1) → IsTiling n k (max 1 q)
tiled n k zero h low high = record {
  nonempty = ground arith;
  covers = ground arith;
  least = inl (ground arith);
}
tiled n k (suc q) h low high =
    let same : max 1 (suc q) ≡ suc q = ground arith in
    subst (IsTiling n k) (sym same)
      (record { nonempty = ground arith; covers = ground arith; least = inr (ground arith) })

-- The tiles of n right-hand sides.
abbrev pub tile_count : ℕ → ℕ
tile_count n = max 1 ((n + (rhs_tile_for (pos n) - 1)) / rhs_tile_for (pos n))

-- Three regions one behind the other: the work array with an element for each row and right-hand side,
-- a done flag of 4 bytes for each tile and row, and a diagonal element for each row. Each starts at a
-- multiple of 256, and they end within the total; no byte more than the alignment takes.
pub record IsLaidOut (n_rows n_rhs : ℕ) (t : DataType) (s : Scratch) : Type 0 where
  pub work_size : s.work_bytes ≡ n_rows * n_rhs * dtype_size t
  pub done_size : s.done_bytes ≡ tile_count n_rhs * n_rows * 4
  pub diag_size : s.diag_bytes ≡ n_rows * dtype_size t
  pub tiling : IsTiling n_rhs (rhs_tile_for (pos n_rhs)) (tile_count n_rhs)
  pub first : s.work_off ≡ 0
  pub work : IsAligned s.work_bytes s.done_off
  pub done : IsAligned (s.done_off + s.done_bytes) s.diag_off
  pub diag : IsAligned (s.diag_off + s.diag_bytes) s.total

below_or_above : (r : ℕ) → (r ≤ 1024) ⊎ (1024 < r)
below_or_above r = ground arith

capped :
    (n r : ℕ) → IsRounded n r → ((1024 ≤ 2 * n) × (min 1024 r ≡ 1024)) ⊎ IsRounded n (min 1024 r)
capped n r h = elim (below_or_above r) [
  | inl low ↦ let same : min 1024 r ≡ r = ground arith in inr (subst (IsRounded n) (sym same) h)
  | inr high ↦ let bound = h.1 in inl (omega (arith, high, bound), ground arith)
]

itself : (n : ℕ) → 0 < n → pos_part (max_ℤ (pos 1) (pos n)) ≡ n
itself n h = ground arith

-- The tile of n > 0 right-hand sides: 1024, or the power of two that n is rounded up to.
pub rhs_tile_for-IsRounded :
    (n : ℕ)
    → 0 < n
    → ((1024 ≤ 2 * n) × (rhs_tile_for (pos n) ≡ 1024)) ⊎ IsRounded n (rhs_tile_for (pos n))
unfolding rhs_tile_for
rhs_tile_for-IsRounded n h =
    rw (itself n h)
      (capped n _ (double_up-IsRounded n 1 n 0 refl (ground arith) (ground arith) (ground arith)))

rhs_tile_for_positive : (n : ℕ) → 0 < rhs_tile_for (pos n)
rhs_tile_for_positive zero = unfold rhs_tile_for in unfold double_up in ground arith
rhs_tile_for_positive (suc n) = elim (rhs_tile_for-IsRounded (suc n) (ground arith)) [
  | inl capped_at ↦ let same = capped_at.1 in ground arith
  | inr rounded ↦ let low = rounded.0 in ground arith
]

tile_count-IsTiling : (n : ℕ) → IsTiling n (rhs_tile_for (pos n)) (tile_count n)
tile_count-IsTiling n =
    let k = rhs_tile_for (pos n) in
    let some_columns = rhs_tile_for_positive n in
    tiled n k ((n + (k - 1)) / k) some_columns (mul-div-le (n + (k - 1)) k)
      (lt-mul-div-succ (n + (k - 1)) some_columns)

-- The number of tiles, as the code's `max` of integers has it.
counted : (n : ℕ) → max_ℤ (pos 1) (rhs_tiles (pos n)) ≡ pos (tile_count n)
unfolding rhs_tiles
counted n =
    let k = rhs_tile_for (pos n) in ap (max_ℤ (pos 1)) (tiles_pos n k) ∙ max_pos ((n + (k - 1)) / k)
  where
    max_pos : (q : ℕ) → max_ℤ (pos 1) (pos q) ≡ pos (max 1 q)
    max_pos q = ground arith

-- The extents, and the bytes of the three regions with the most that their alignment takes, are within
-- the size_t of the code.
pub record IsSmall (n_rows n_rhs : ℕ) (t : DataType) : Type 0 where
  pub rows : n_rows < 2 ^ 63
  pub columns : n_rhs < 2 ^ 63
  pub bytes :
      n_rows * n_rhs * dtype_size t + tile_count n_rhs * n_rows * 4 + n_rows * dtype_size t + 765
      < 2 ^ 64

word : (n : ℕ) → n < 2 ^ 64 → n % 2 ^ 64 ≡ n
word n h = ground arith

tile_count-small : (n : ℕ) → n < 2 ^ 63 → tile_count n < 2 ^ 64
tile_count-small n h =
    let k = rhs_tile_for (pos n) in
    let narrow : k ≤ 1024 = unfold rhs_tile_for in ground arith in
    let fewer = div-le_self (n + (k - 1)) k in ground arith

-- The scratch for regions of these sizes.
laid : ℕ → ℕ → ℕ → Scratch
laid work done diag =
    let done_at = align_up work in
    let diag_at = align_up (done_at + done) in
    record {
      work_bytes = work;
      done_bytes = done;
      diag_bytes = diag;
      work_off = 0;
      done_off = done_at;
      diag_off = diag_at;
      total = align_up (diag_at + diag);
    }

plan_scratch-laid :
    (n_rows n_rhs : ℕ) (t : DataType)
    → IsSmall n_rows n_rhs t
    → plan_scratch (pos n_rows) (pos n_rhs) t
      ≡ laid (n_rows * n_rhs * dtype_size t) (tile_count n_rhs * n_rows * 4) (n_rows * dtype_size t)
unfolding plan_scratch laid
plan_scratch-laid n_rows n_rhs t h =
    let work = n_rows * n_rhs * dtype_size t in
    let done = tile_count n_rhs * n_rows * 4 in
    let diag = n_rows * dtype_size t in
    let room : work + done + diag + 765 < 2 ^ 64 = h.bytes in
    let done_at = align_up-IsAligned work (omega (arith, room)) in
    let near = done_at.tight in
    let diag_at = align_up-IsAligned (align_up work + done) (omega (arith, room, near)) in
    let next = diag_at.tight in
    let rows = h.rows in
    let columns = h.columns in
    rw
      (
        counted n_rhs,
        word n_rows (omega (arith, rows)),
        word n_rhs (omega (arith, columns)),
        word (tile_count n_rhs) (tile_count-small n_rhs columns),
        word work (omega (arith, room)),
        word done (omega (arith, room)),
        word diag (omega (arith, room)),
        word (align_up work + done) (omega (arith, room, near)),
        word (align_up (align_up work + done) + diag) (omega (arith, room, near, next)),
      )
      refl

-- The scratch of an SpSM, for extents whose sizes are within a size_t: the work array has an element
-- for each row and right-hand side, the done flags 4 bytes for each row and tile, with no more tiles
-- than cover the right-hand sides, and the diagonal an element for each row; the three follow each
-- other without overlap, each aligned to 256 bytes, and end within the total that bufferSize reports,
-- in front of the row offsets of a COO matrix.
pub plan_scratch-IsLaidOut :
    (n_rows n_rhs : ℕ) (t : DataType)
    → IsSmall n_rows n_rhs t
    → IsLaidOut n_rows n_rhs t (plan_scratch (pos n_rows) (pos n_rhs) t)
plan_scratch-IsLaidOut n_rows n_rhs t h =
    let work = n_rows * n_rhs * dtype_size t in
    let done = tile_count n_rhs * n_rows * 4 in
    let diag = n_rows * dtype_size t in
    let room : work + done + diag + 765 < 2 ^ 64 = h.bytes in
    let done_at = align_up-IsAligned work (omega (arith, room)) in
    let near = done_at.tight in
    let diag_at = align_up-IsAligned (align_up work + done) (omega (arith, room, near)) in
    let next = diag_at.tight in
    subst (IsLaidOut n_rows n_rhs t) (sym (plan_scratch-laid n_rows n_rhs t h)) (
      unfold laid in
      record {
        work_size = refl;
        done_size = refl;
        diag_size = refl;
        tiling = tile_count-IsTiling n_rhs;
        first = refl;
        work = done_at;
        done = diag_at;
        diag =
            align_up-IsAligned (align_up (align_up work + done) + diag)
              (omega (arith, room, near, next));
      })

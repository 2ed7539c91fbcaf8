-- ===== src/Spsm/Layout.antt =====
-- The scratch of src/ops/spsm.cpp, and the tiles of the right-hand sides.
use cwapper.Base.{
  ℕ, ◌+◌, ◌*◌, ◌/◌, ◌%◌, ◌^◌, pattern64, ℤ, pos, leb, max_ℤ, min, tiles, pos_part, if◌then◌else◌,
}
use cwapper.Types.{DataType, dtype_size}
use cwapper.Spsv.Routes.{double_up}

abbrev pub max_rhs_tile : ℕ
max_rhs_tile = 1024

-- The loop starts at 1 and doubles, so n_rhs rounds reach n_rhs.
unfoldable pub rhs_tile_for : ℤ → ℕ
unfolding double_up
rhs_tile_for n_rhs = let n = pos_part (max_ℤ (pos 1) n_rhs) in min max_rhs_tile (double_up n 1 n)

unfoldable pub num_warps_for : ℕ → ℕ
num_warps_for block_rhs =
    if leb block_rhs 32
    then 1
    else if leb block_rhs 64
    then 2
    else if leb block_rhs 256
    then 4
    else 8

-- (v + 255u) & ~255u on a size_t: the sum wraps, and the low eight bits are dropped.
unfoldable pub align_up : ℕ → ℕ
align_up v = (v + 255) % 2 ^ 64 / 256 * 256

pub record Scratch : Type 0 where
  pub work_bytes : ℕ
  pub done_bytes : ℕ
  pub diag_bytes : ℕ
  pub work_off : ℕ
  pub done_off : ℕ
  pub diag_off : ℕ
  pub total : ℕ

unfoldable pub rhs_tiles : ℤ → ℤ
rhs_tiles n_rhs = tiles n_rhs (rhs_tile_for n_rhs)

-- On size_t: the extents are cast to it, and the products and sums wrap.
unfoldable pub plan_scratch : ℤ → ℤ → DataType → Scratch
unfolding align_up rhs_tiles
plan_scratch n_rows n_rhs compute_type =
    let elem = dtype_size compute_type in
    let work = pattern64 n_rows * pattern64 n_rhs * elem % 2 ^ 64 in
    let done = pattern64 (max_ℤ (pos 1) (rhs_tiles n_rhs)) * pattern64 n_rows * 4 % 2 ^ 64 in
    let diag = pattern64 n_rows * elem % 2 ^ 64 in
    let done_at = align_up work in
    let diag_at = align_up ((done_at + done) % 2 ^ 64) in
    record {
      work_bytes = work;
      done_bytes = done;
      diag_bytes = diag;
      work_off = 0;
      done_off = done_at;
      diag_off = diag_at;
      total = align_up ((diag_at + diag) % 2 ^ 64);
    }

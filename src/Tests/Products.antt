-- ===== src/Tests/Products.antt =====
-- SpMM, SDDMM, SpSM and SpGEMM at concrete inputs.
use mathlib.Core.List.{Perm}
use cwapper.Base.{
  ℕ, ◌≡◌, ◌≤◌, ◌<◌, ◌⊎◌, refl, arith, ℤ, ◌+ℤ◌, ◌-ℤ◌, to_i32, pos, true, List, [], ◌∷◌, map, some,
  All, max, int32_max,
}
use cwapper.Types.{
  DataType-discrete, non_transpose, transpose, order_row, r_32f, spmv_default, spmm_default,
  spsm_default, not_supported, triton_index_dtype, component_dtype, triton_dtype, dtype_size,
}
use cwapper.Descr.{DnMatDescr, new_dnmat, new_spgemm}
use cwapper.Exec.{ok, err}
use cwapper.Launch.{Agrees}
use cwapper.Machine.{State, spsm_at, update}
use cwapper.Meta.{accumulate, slice}
use cwapper.Tests.Bench.{bench, start, two_rows}
use cwapper.Spmv.{spmv}
use cwapper.Spmm.{spmm}
use cwapper.Sddmm.Checks.{search_steps}
use cwapper.Sddmm.Steps.{IsLeast, search_steps_bounded}
use cwapper.Strides.{op_rows, op_cols}
use cwapper.Strides.Address.{IsSpanned, op_strides-injective}
use cwapper.Spsm.{analysis, analysed_descr, solve, solve_analysed, solve_in}
use cwapper.Spsm.Checks.{validate, check_objects}
use cwapper.Scalars.{read_scalar, scalar_at}
use cwapper.Prologue.{copy_dense, copy_request}
use cwapper.Spsm.Requests.{polling_request}
use cwapper.Jit.{run_launch, launch}
use cwapper.Adaptor.{memset_device}
use cwapper.Spsv.Routes.{double_up}
use cwapper.Spsv.Checks.{csr_view_of_coo}
use cwapper.Spsm.Layout.{plan_scratch, align_up, rhs_tiles, rhs_tile_for}
use cwapper.Spsm.Phases.{IsReady, IsSettled, analysis-IsSettled, solve-IsReady_descr}
use cwapper.Spsm.Regions.{IsLaidOut, IsSmall, plan_scratch-IsLaidOut}
use cwapper.Spgemm.Buckets.{HasRoom, pick_bucket-HasRoom}
use cwapper.Spgemm.Host.{Entry, Estimate, row_offsets, rows_work, sort_rows}
use cwapper.Spgemm.Offsets.{sum, largest, row_offsets-sums}
use cwapper.Spgemm.Plan.{buckets, fill_buckets, pick_bucket}
use cwapper.Spgemm.Sort.{IsAscending, rows_of, sort_rows-IsAscending}
use cwapper.Spgemm.Work.{IsServed, row_columns, totals, rows_work-IsServed}
use cwapper.Library.{begins, calls, calls_spmv, calls_spmm}
use cwapper.Library.Launches.{Run-Agrees}

-- A 2 x 2 dense matrix by rows.
abbrev pub square : ℕ → DnMatDescr
square p = record new_dnmat {
  rows = pos 2;
  cols = pos 2;
  ld = pos 2;
  values = p;
  order = order_row;
}

-- The bench with dense matrices at 7 and 8, a triangular matrix at 2, an analysed SpSM descriptor at
-- 9, and at 11 an SpGEMM descriptor whose compute found the two rows of the matrix at 10.
abbrev pub products : State (ℕ → ℕ)
products = record start {
  mats =
      update (update start.mats 2 (some (record two_rows { fill_mode_set = true }))) 10
        (some (record two_rows { offsets = 7000; indices = 2000; values = 7200 }));
  dnmats = update (update start.dnmats 7 (some (square 7300))) 8 (some (square 7400));
  spsms = update start.spsms 9 (some (analysed_descr 8192 2));
  spgemms = update start.spgemms 11 (
      some (record new_spgemm {
        buffer1 = 8192;
        buffer2 = 9216;
        estimated = true;
        computed = true;
        max_row_nnz = pos 2;
        host_indptr = pos 0 ∷ pos 2 ∷ pos 3 ∷ [];
      }));
}

Run-Agrees_example :
    All Agrees
      (spmm bench 1 non_transpose transpose 100 2 7 200 8 r_32f spmm_default 0
        (spmv bench 1 non_transpose 100 2 4 200 5 r_32f spmv_default 0 products).1).1.launches
Run-Agrees_example = Run-Agrees bench products _ tt (
    calls (spmv bench 1 non_transpose 100 2 4 200 5 r_32f spmv_default 0 products).1
      (spmm bench 1 non_transpose transpose 100 2 7 200 8 r_32f spmm_default 0)
      (calls products (spmv bench 1 non_transpose 100 2 4 200 5 r_32f spmv_default 0) begins
        (calls_spmv 1 non_transpose 100 2 4 200 5 r_32f spmv_default 0))
      (calls_spmm 1 non_transpose transpose 100 2 7 200 8 r_32f spmm_default 0))

pick_bucket-HasRoom_example :
    HasRoom 100 (pick_bucket buckets (pos 100)) × HasRoom 100 (pick_bucket fill_buckets (pos 100))
pick_bucket-HasRoom_example = pick_bucket-HasRoom 100

square-IsSpanned : IsSpanned (square 7300)
square-IsSpanned = record { order = refl; ld = ground arith }

op_strides-injective_example : (◌≡◌ {A = ℕ} 0 0) × (◌≡◌ {A = ℕ} 1 1)
unfolding op_rows op_cols
op_strides-injective_example =
    op_strides-injective transpose (square 7300) 2 square-IsSpanned refl 0 1 0 1 (ground arith)
      (ground arith) (ground arith) (ground arith) refl

analysis-IsSettled_example :
    IsSettled
      (analysis bench 1 non_transpose transpose 2 7 8 r_32f spsm_default 9 8192 products).0
      products
      (analysis bench 1 non_transpose transpose 2 7 8 r_32f spsm_default 9 8192 products).1
      9
      8192
      2
analysis-IsSettled_example =
    analysis-IsSettled bench 1 non_transpose transpose 2 7 8 r_32f spsm_default 9 8192 products

solve_passes :
    (solve bench 1 non_transpose transpose 100 2 7 8 r_32f spsm_default 9 products).0 ≡ ok tt
unfolding solve validate check_objects DataType-discrete component_dtype triton_index_dtype op_rows
    op_cols solve_analysed read_scalar scalar_at solve_in copy_dense plan_scratch triton_dtype
    run_launch launch memset_device align_up dtype_size rhs_tiles rhs_tile_for double_up
    csr_view_of_coo copy_request polling_request ◌+ℤ◌
solve_passes = refl

solve-IsReady_descr_example : IsReady 2 (spsm_at products 9)
solve-IsReady_descr_example =
    solve-IsReady_descr bench 1 non_transpose transpose 2 7 8 r_32f spsm_default 9 100 products
      solve_passes

two_by_three : IsSmall 2 3 r_32f
unfolding rhs_tile_for double_up dtype_size
two_by_three = record { rows = ground arith; columns = ground arith; bytes = ground arith }

plan_scratch-IsLaidOut_example : IsLaidOut 2 3 r_32f (plan_scratch (pos 2) (pos 3) r_32f)
plan_scratch-IsLaidOut_example = plan_scratch-IsLaidOut 2 3 r_32f two_by_three

search_steps_bounded_example :
    IsLeast (max 2 1000) (search_steps (pos 1000)) × (search_steps (pos 1000) ≤ 62)
search_steps_bounded_example = search_steps_bounded 1000 (ground arith)

abbrev row_counts : List ℕ
row_counts = 2 ∷ 1 ∷ []

row_offsets-sums_example :
    ((sum row_counts ≤ int32_max)
      × (row_offsets (pos 0) (pos 0) (map pos row_counts) ≡ (
        map pos (accumulate 0 row_counts),
        ok (pos (sum row_counts), pos (largest row_counts)),
      )))
    ⊎ ((int32_max < sum row_counts)
        × ((row_offsets (pos 0) (pos 0) (map pos row_counts)).1 ≡ err not_supported))
row_offsets-sums_example = row_offsets-sums row_counts

-- Two rows in hash order: columns 5 and 1, then column 3.
abbrev unsorted : List Entry
unsorted = (pos 5, 50 ∷ []) ∷ (pos 1, 10 ∷ []) ∷ (pos 3, 30 ∷ []) ∷ []

sort_rows-IsAscending_example :
    Perm (sort_rows unsorted (map pos (0 ∷ accumulate 0 row_counts))) unsorted
    × All IsAscending
        (rows_of row_counts (sort_rows unsorted (map pos (0 ∷ accumulate 0 row_counts))))
sort_rows-IsAscending_example = sort_rows-IsAscending row_counts unsorted refl

abbrev a_offsets : List ℤ
a_offsets = pos 0 ∷ pos 2 ∷ pos 3 ∷ []

abbrev columns : List ℤ
columns = pos 0 ∷ pos 1 ∷ pos 1 ∷ []

abbrev b_offsets : List ℤ
b_offsets = pos 0 ∷ pos 3 ∷ pos 7 ∷ []

abbrev zeros : List ℤ
zeros = pos 0 ∷ pos 0 ∷ pos 0 ∷ []

-- [[1, 1], [0, 1]] times a matrix with rows of lengths 3 and 4.
estimated : (e : Estimate) × (rows_work (pos 2) b_offsets columns zeros (pos 0) a_offsets ≡ ok e)
unfolding rows_work ◌+ℤ◌ ◌-ℤ◌ slice to_i32
estimated = (
  record { rw = pos 7 ∷ pos 4 ∷ []; a_pref = pos 0 ∷ pos 3 ∷ pos 0 ∷ []; max_work = pos 7 },
  refl,
)

rows_work-IsServed_example :
    (estimated.0.rw ≡ totals b_offsets (row_columns a_offsets columns))
    × All (IsServed (pos 2) b_offsets estimated.0.max_work) (row_columns a_offsets columns)
rows_work-IsServed_example =
    rows_work-IsServed (pos 2) b_offsets columns zeros a_offsets estimated.0 estimated.1

-- ===== src/Tests/Solver.antt =====
-- SpSV, gather and scatter at concrete inputs.
use cwapper.Base.{ℕ, ◌≡◌, refl, ◌*ℤ◌, true, some}
use cwapper.Types.{
  DataType-discrete, non_transpose, spsv_default, r_32f, invalid_value, component_dtype,
  triton_index_dtype, index_size,
}
use cwapper.Exec.{ok, err}
use cwapper.Machine.{State, spsv_at, update}
use cwapper.Adaptor.{
  memcpy_d2h, memset_device, warp_size, multiprocessor_count, max_threads_per_multiprocessor,
  device_attribute, init_once,
}
use cwapper.Jit.{run_launch, launch}
use cwapper.Scalars.{read_scalar, scalar_at}
use cwapper.Meta.{ints_of, ints32, words32, scan_rows, scan_row, slice, check_csr_columns_sorted}
use cwapper.Spsv.{
  analysis, analysed_descr, solve, solve_analysed, solve_launch, or_report, checked_view,
}
use cwapper.Spsv.Checks.{flags_bytes, validate, check_objects, check_sell}
use cwapper.Spsv.Phases.{IsReady, IsAnalysed, analysis-IsAnalysed, analysis_failed, solve_lem}
use cwapper.Spsv.Routes.{worker_count, csr_request, resolve_worker_count}
use cwapper.Tests.Bench.{bench, start, two_rows, load, store}

-- The test matrix with its fill mode set.
abbrev triangular : State (ℕ → ℕ)
triangular = record start {
  mats = update start.mats 2 (some (record two_rows { fill_mode_set = true }));
}

analysis_passes :
    (analysis bench 1 non_transpose 2 4 5 r_32f spsv_default 6 8000 triangular).0 ≡ ok tt
unfolding DataType-discrete analysis validate check_objects check_sell component_dtype
    triton_index_dtype index_size checked_view or_report check_csr_columns_sorted memcpy_d2h ints_of
    ints32 scan_rows scan_row slice load store words32
analysis_passes = refl

analysis-IsAnalysed_example :
    IsAnalysed 8000 2 non_transpose spsv_default
      (spsv_at (analysis bench 1 non_transpose 2 4 5 r_32f spsv_default 6 8000 triangular).1 6)
analysis-IsAnalysed_example =
    analysis-IsAnalysed bench 1 non_transpose 2 4 5 r_32f spsv_default 6 8000 triangular
      analysis_passes

-- Without a fill mode the analysis is refused.
analysis_refused :
    (analysis bench 1 non_transpose 2 4 5 r_32f spsv_default 6 8000 start).0 ≡ err invalid_value
unfolding DataType-discrete analysis validate check_objects component_dtype triton_index_dtype
analysis_refused = refl

analysis_failed_example :
    (analysis bench 1 non_transpose 2 4 5 r_32f spsv_default 6 8000 start).1.spsvs ≡ start.spsvs
analysis_failed_example =
    analysis_failed bench 1 non_transpose 2 4 5 r_32f spsv_default 6 8000 start invalid_value
      analysis_refused

abbrev analysed : State (ℕ → ℕ)
analysed = record triangular {
  spsvs = update start.spsvs 6 (some (analysed_descr bench 8000 2 non_transpose spsv_default));
}

solve_passes : (solve bench 1 non_transpose 40 2 4 5 r_32f spsv_default 6 analysed).0 ≡ ok tt
unfolding DataType-discrete solve solve_analysed solve_launch validate check_objects check_sell
    component_dtype triton_index_dtype index_size read_scalar scalar_at memset_device
    resolve_worker_count warp_size multiprocessor_count max_threads_per_multiprocessor
    device_attribute init_once run_launch launch csr_request worker_count flags_bytes ◌*ℤ◌
solve_passes = refl

solve_lem_example : IsReady 2 (spsv_at analysed 6)
solve_lem_example =
    solve_lem bench 1 non_transpose 2 4 5 r_32f spsv_default 6 40 analysed solve_passes

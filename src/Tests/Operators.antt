-- ===== src/Tests/Operators.antt =====
-- The operators on the test matrices.
use cwapper.Base.{
  ◌+ℤ◌, ℕ, ◌≡◌, ◌≢◌, ◌⊎◌, refl, arith, pos, true, false, [], length, All, some, none,
}
use cwapper.Types.{
  i32, fp32, DataType-discrete, non_transpose, spmv_default, r_32f, execution_failed,
  component_dtype, triton_index_dtype, index_size,
}
use cwapper.Launch.{Launch, render}
use cwapper.Exec.{ok}
use cwapper.Machine.{Machine, State, update}
use cwapper.Jit.{run_launch, launch, handed}
use cwapper.Scalars.{read_scalar, scalar_at}
use cwapper.Adaptor.{memcpy_d2h}
use cwapper.Jit.Report.{HasFailed, run_launch-HasFailed, run_launch-started, started, is_empty_grid}
use cwapper.Meta.{ensure_max_row_nnz, read_longest, major_extent, build_coo_row_offsets}
use cwapper.Spmv.{spmv, run, dispatch, buffer_size}
use cwapper.Spmv.Accepts.{IsAccepted, validate-IsAccepted}
use cwapper.Spmv.Agreement.{spmv-Agrees}
use cwapper.Spmv.Checks.{
  validate, check_objects, check_format, alg_supported, operand_extents, resolve_operands,
}
use cwapper.Spmv.Passes.{validate_accepted}
use cwapper.Spmv.Routes.{run_csr, csr_request, segments_of, ensure_coo_offsets}
use cwapper.Spmv.Shared.{ensure_coo_offsets-build_coo_row_offsets}
use cwapper.Launch.{Agrees}
use cwapper.Tests.Bench.{bench, start, two_rows, two_rows_coo, two}

spmv-Agrees_example :
    All Agrees (spmv bench 1 non_transpose 40 2 4 50 5 r_32f spmv_default 0 start).1.launches
spmv-Agrees_example = spmv-Agrees bench 1 non_transpose 40 2 4 50 5 r_32f spmv_default 0 start tt

validate_passes : (validate bench 1 non_transpose 2 4 5 r_32f spmv_default start).0 ≡ ok tt
unfolding DataType-discrete validate check_objects check_format component_dtype triton_index_dtype
    alg_supported operand_extents
validate_passes = refl

validate-IsAccepted_example :
    ((validate bench 1 non_transpose 2 4 5 r_32f spmv_default start).1 ≡ start)
    × (◌≢◌ {A = ℕ} 1 0)
    × (◌≢◌ {A = ℕ} 2 0)
    × (◌≢◌ {A = ℕ} 4 0)
    × (◌≢◌ {A = ℕ} 5 0)
    × IsAccepted two_rows (two 5000) (two 6000) non_transpose r_32f spmv_default
validate-IsAccepted_example =
    validate-IsAccepted bench 1 non_transpose 2 4 5 r_32f spmv_default start validate_passes

-- The one kernel of a CSR product is started.
started_once :
    length (spmv bench 1 non_transpose 40 2 4 50 5 r_32f spmv_default 0 start).1.launches ≡ 1
unfolding spmv run dispatch DataType-discrete validate check_objects check_format component_dtype
    triton_index_dtype alg_supported operand_extents resolve_operands read_scalar scalar_at run_csr
    ensure_max_row_nnz read_longest memcpy_d2h index_size major_extent run_launch launch csr_request
started_once = refl

buffer_size_passes :
    (buffer_size bench 1 non_transpose 3 4 5 r_32f spmv_default 900 start).0 ≡ ok tt
unfolding DataType-discrete validate check_objects check_format component_dtype triton_index_dtype
    alg_supported operand_extents buffer_size
buffer_size_passes = refl

-- Two COO matrices at 3 and 8, the first of which has its offsets in the buffer at 7000.
abbrev marked : State (ℕ → ℕ)
marked = record start {
  mats =
      update (update start.mats 3 (some (record two_rows_coo { coo_offsets_buffer = 7000 }))) 8
        (some two_rows_coo);
}

ensure_coo_offsets-build_coo_row_offsets_example :
    ensure_coo_offsets bench 3 7000 (build_coo_row_offsets bench 8 7000 marked).1
    ≡ (ok tt, (build_coo_row_offsets bench 8 7000 marked).1)
ensure_coo_offsets-build_coo_row_offsets_example =
    ensure_coo_offsets-build_coo_row_offsets bench 3 8 7000
      (record two_rows_coo { coo_offsets_buffer = 7000 }) marked (ground arith) refl refl

-- A kernel of four programs, on the bench and on one whose kernels fail.
abbrev small : Launch
small = record {
  module_path = "spmv_csr.py";
  kernel_name = "_spmv_csr_real_kernel";
  signature = [];
  stream = 0;
  grid_x = pos 4;
  grid_y = pos 1;
  grid_z = pos 1;
  num_warps = 4;
  num_stages = 2;
  args = [];
}

abbrev faulty : Machine
faulty = record bench { execute = λ r memory. some "out of registers" }

run_launch-started_example :
    ((is_empty_grid small ≡ true) × ((run_launch bench 1 small start).1 ≡ start))
    ⊎ ((is_empty_grid small ≡ false)
        × (bench.execute (handed bench small) start.mem ≡ none)
        × ((run_launch bench 1 small start).1 ≡ started bench 1 small start))
unfolding run_launch launch
run_launch-started_example =
    run_launch-started bench 1 small start (run_launch bench 1 small start).1 refl

run_launch-HasFailed_example :
    HasFailed faulty 1 small start execution_failed (run_launch faulty 1 small start).1
unfolding run_launch launch
run_launch-HasFailed_example =
    run_launch-HasFailed faulty 1 small start execution_failed (run_launch faulty 1 small start).1
      refl

-- The text of a signature, for a real product in single precision.
signature_text :
    render
      (csr_request bench 0 two_rows 1000 i32 (pos 2) (pos 2) (two 5000) (two 6000) (record {
        complex_op = false;
        acc_is_fp64 = false;
        has_beta = true;
        alpha_re = 1;
        alpha_im = 0;
        beta_re = 1;
        beta_im = 0;
        y_len = pos 2;
        vt = fp32;
        it = i32;
        ot = i32;
      })).signature
    ≡ "*fp32:16,*i32:16,*i32:16,*fp32:16,*fp32:16,fp32,fp32,i32,128,1,True"
unfolding render csr_request segments_of ◌+ℤ◌
signature_text = refl

two_rows-IsAccepted : IsAccepted two_rows (two 5000) (two 6000) non_transpose r_32f spmv_default
two_rows-IsAccepted =
    (validate-IsAccepted bench 1 non_transpose 2 4 5 r_32f spmv_default start validate_passes).5

validate_accepted_example :
    validate bench 1 non_transpose 2 4 5 r_32f spmv_default start ≡ (ok tt, start)
validate_accepted_example =
    validate_accepted bench 1 non_transpose 2 4 5 r_32f spmv_default start (ground arith)
      (ground arith) (ground arith) (ground arith) two_rows-IsAccepted

-- ===== src/Spmv/Routes.antt =====
-- The launches of src/ops/spmv.cpp: one request for each kernel, and the routes that make them.
use cwapper.Base.{
  ℕ, ℤ, pos, ◌*ℤ◌, Bool, true, not, ◌&&◌, [], ◌∷◌, only_if, ◌==◌, eq_ℤ, lt_ℤ, max_ℤ, tiles, to_i32,
  if◌then◌else◌,
}
use cwapper.Types.{Operation, invalid_value, Scalar, i32, component_dtype, is_conjugate}
use cwapper.Descr.{SpMatDescr, DnVecDescr}
use cwapper.Launch.{device_ptr, arg_i32, pointer, scalar, number, flag, Launch}
use cwapper.Exec.{pure, gets, ◌>>=◌, ◌>>◌}
use cwapper.Machine.{Machine, Op, mat_at, context_at, refuse_with}
use cwapper.Jit.{codegen_module, run_launch}
use cwapper.Prologue.{Block, scale_dense}
use cwapper.Meta.{ensure_max_row_nnz, build_coo_row_offsets}
use cwapper.Types.{transposes}
use cwapper.Spmv.Checks.{Operands, push_scalar}

abbrev pub csr_block_nnz : ℕ
csr_block_nnz = 128

abbrev pub coo_block_inner : ℕ
coo_block_inner = 32

abbrev pub csc_block_nnz : ℕ
csc_block_nnz = 256

abbrev pub bsr_block_nnz : ℕ
bsr_block_nnz = 32

-- std::max<int64_t>(1, (longest + block - 1) / block)
unfoldable pub segments_of : ℤ → ℕ → ℤ
segments_of longest block = max_ℤ (pos 1) (tiles longest block)

module _ (m : Machine) where
  -- launch_csr_rowpar, up to the launch.
  unfoldable pub csr_request :
      ℕ → SpMatDescr → ℕ → Scalar → ℤ → ℤ → DnVecDescr → DnVecDescr → Operands → Launch
  csr_request stream d offsets offsets_type n_rows max_row_nnz x y ops = record {
    module_path = codegen_module m "spmv_csr.py";
    kernel_name = if ops.complex_op then "_spmv_csr_complex_kernel" else "_spmv_csr_real_kernel";
    signature =
        pointer ops.vt
        ∷ pointer ops.it
        ∷ pointer offsets_type
        ∷ pointer ops.vt
        ∷ pointer ops.vt
        ∷ scalar ops.vt
        ∷ only_if ops.complex_op (scalar ops.vt) (
            scalar ops.vt
            ∷ only_if ops.complex_op (scalar ops.vt) (
                scalar i32
                ∷ number (pos csr_block_nnz)
                ∷ number (segments_of max_row_nnz csr_block_nnz)
                ∷ flag ops.has_beta
                ∷ []));
    stream = stream;
    grid_x = n_rows;
    grid_y = pos 1;
    grid_z = pos 1;
    num_warps = 4;
    num_stages = 2;
    args =
        device_ptr d.values
        ∷ device_ptr d.indices
        ∷ device_ptr offsets
        ∷ device_ptr x.values
        ∷ device_ptr y.values
        ∷ push_scalar m ops ops.alpha_re
        ∷ only_if ops.complex_op (push_scalar m ops ops.alpha_im) (
            push_scalar m ops ops.beta_re
            ∷ only_if ops.complex_op (push_scalar m ops ops.beta_im)
                (arg_i32 (to_i32 n_rows) ∷ []));
  }

  unfoldable pub run_csr : ℕ → ℕ → DnVecDescr → DnVecDescr → Operands → Op m (Unit {0})
  run_csr handle a x y ops = do
    longest ← ensure_max_row_nnz m a
    d ← gets (λ s. mat_at s a)
    c ← gets (λ s. context_at s handle)
    run_launch m handle (csr_request c.stream d d.offsets ops.ot d.rows longest x y ops)

  unfoldable pub coo_request : ℕ → SpMatDescr → ℕ → DnVecDescr → DnVecDescr → Operands → Launch
  coo_request stream d buffer x y ops = record {
    module_path = codegen_module m "spmv_coo.py";
    kernel_name =
        if ops.complex_op
        then "spmv_coo_seg_complex"
        else if ops.acc_is_fp64
        then "_spmv_coo_seg_f64"
        else "_spmv_coo_seg_f32";
    signature =
        pointer ops.vt
        ∷ pointer ops.it
        ∷ pointer ops.it
        ∷ pointer ops.vt
        ∷ pointer ops.vt
        ∷ pointer i32
        ∷ scalar ops.vt
        ∷ only_if ops.complex_op (scalar ops.vt) (
            scalar ops.vt
            ∷ only_if ops.complex_op (scalar ops.vt) (
                scalar i32
                ∷ number (pos coo_block_inner)
                ∷ only_if ops.complex_op (flag ops.acc_is_fp64)
                    (flag true ∷ flag ops.has_beta ∷ [])));
    stream = stream;
    grid_x = d.rows;
    grid_y = pos 1;
    grid_z = pos 1;
    num_warps = 1;
    num_stages = 2;
    args =
        device_ptr d.values
        ∷ device_ptr d.indices
        ∷ device_ptr d.row_ind
        ∷ device_ptr x.values
        ∷ device_ptr y.values
        ∷ device_ptr buffer
        ∷ push_scalar m ops ops.alpha_re
        ∷ only_if ops.complex_op (push_scalar m ops ops.alpha_im) (
            push_scalar m ops ops.beta_re
            ∷ only_if ops.complex_op (push_scalar m ops ops.beta_im)
                (arg_i32 (to_i32 d.rows) ∷ []));
  }

  -- The offsets are built unless the descriptor names this very buffer.
  unfoldable pub ensure_coo_offsets : ℕ → ℕ → Op m (Unit {0})
  ensure_coo_offsets a buffer = do
    d ← gets (λ s. mat_at s a)
    if d.coo_offsets_buffer == buffer then pure tt else build_coo_row_offsets m a buffer

  unfoldable pub run_coo : ℕ → ℕ → DnVecDescr → DnVecDescr → Operands → ℕ → Bool → Op m (Unit {0})
  run_coo handle a x y ops buffer to_csr = do
    refuse_with handle (buffer == 0)
        "SpMV on a COO matrix needs the externalBuffer reported by flagsparseSpMV_bufferSize; it holds the row-offsets array."
        invalid_value
    ensure_coo_offsets a buffer
    d ← gets (λ s. mat_at s a)
    c ← gets (λ s. context_at s handle)
    let longest = if lt_ℤ d.max_row_nnz (pos 0) then pos 0 else d.max_row_nnz
    run_launch m handle (
        if to_csr
        then csr_request c.stream d buffer i32 d.rows longest x y ops
        else coo_request c.stream d buffer x y ops)

  unfoldable pub csc_request :
      ℕ → Operation → SpMatDescr → ℤ → DnVecDescr → DnVecDescr → Operands → Launch
  csc_request stream op d max_col_nnz x y ops =
      let trans = transposes op in
      let segments = segments_of max_col_nnz csc_block_nnz in
      record {
        module_path = codegen_module m "spmv_csc.py";
        kernel_name =
            if trans
            then (if ops.complex_op
                then "_spmv_csc_trans_complex_kernel"
                else "_spmv_csc_trans_real_kernel")
            else (if ops.complex_op
                then "_spmv_csc_non_complex_kernel"
                else "_spmv_csc_non_real_kernel");
        signature =
            pointer ops.vt
            ∷ pointer ops.it
            ∷ pointer ops.ot
            ∷ pointer ops.vt
            ∷ pointer ops.vt
            ∷ scalar ops.vt
            ∷ only_if ops.complex_op (scalar ops.vt) (
                only_if trans (scalar ops.vt) (
                  only_if (trans && ops.complex_op) (scalar ops.vt) (
                    scalar i32
                    ∷ number (pos csc_block_nnz)
                    ∷ only_if trans (number segments) (
                        only_if (trans && ops.complex_op) (flag (is_conjugate op))
                          (only_if trans (flag ops.has_beta) [])))));
        stream = stream;
        grid_x = d.cols;
        grid_y = if trans then pos 1 else segments;
        grid_z = pos 1;
        num_warps = 4;
        num_stages = 2;
        args =
            device_ptr d.values
            ∷ device_ptr d.indices
            ∷ device_ptr d.offsets
            ∷ device_ptr x.values
            ∷ device_ptr y.values
            ∷ push_scalar m ops ops.alpha_re
            ∷ only_if ops.complex_op (push_scalar m ops ops.alpha_im) (
                only_if trans (push_scalar m ops ops.beta_re) (
                  only_if (trans && ops.complex_op) (push_scalar m ops ops.beta_im)
                    (arg_i32 (to_i32 d.cols) ∷ [])));
      }

  -- y as the block that the prologue scales.
  abbrev pub y_block : SpMatDescr → DnVecDescr → Operands → Block
  y_block d y ops = record {
    values = y.values;
    component_type = component_dtype d.value_type;
    complex_op = ops.complex_op;
    n_rows = pos 1;
    n_cols = ops.y_len;
    stride_m = pos 0;
    stride_n = if ops.complex_op then pos 2 else pos 1;
  }

  unfoldable pub run_csc : ℕ → Operation → ℕ → DnVecDescr → DnVecDescr → Operands → Op m (Unit {0})
  run_csc handle op a x y ops = do
    longest ← ensure_max_row_nnz m a
    d ← gets (λ s. mat_at s a)
    if transposes op
        then pure tt
        else scale_dense m handle (y_block d y ops) ops.beta_re ops.beta_im
    c ← gets (λ s. context_at s handle)
    run_launch m handle (csc_request c.stream op d longest x y ops)

  unfoldable pub bsr_request :
      ℕ → Operation → SpMatDescr → ℤ → DnVecDescr → DnVecDescr → Operands → Launch
  bsr_request stream op d max_block_row_nnz x y ops =
      let trans = transposes op in
      record {
        module_path = codegen_module m "spmv_bsr.py";
        kernel_name =
            if trans
            then (if ops.complex_op
                then "_spmv_bsr_trans_complex_kernel"
                else "_spmv_bsr_trans_real_kernel")
            else (if ops.complex_op
                then "_spmv_bsr_non_complex_kernel"
                else "_spmv_bsr_non_real_kernel");
        signature =
            pointer ops.vt
            ∷ pointer ops.it
            ∷ pointer ops.ot
            ∷ pointer ops.vt
            ∷ pointer ops.vt
            ∷ scalar ops.vt
            ∷ only_if ops.complex_op (scalar ops.vt) (
                only_if (not trans) (scalar i32) (
                  only_if (not trans) (scalar i32) (
                    scalar i32
                    ∷ number d.row_block_dim
                    ∷ number (pos bsr_block_nnz)
                    ∷ number (pos 0)
                    ∷ only_if (trans && ops.complex_op) (flag (is_conjugate op))
                        (flag true ∷ []))));
        stream = stream;
        grid_x = d.rows;
        grid_y = d.row_block_dim;
        grid_z = segments_of max_block_row_nnz bsr_block_nnz;
        num_warps = 4;
        num_stages = 2;
        args =
            device_ptr d.values
            ∷ device_ptr d.indices
            ∷ device_ptr d.offsets
            ∷ device_ptr x.values
            ∷ device_ptr y.values
            ∷ push_scalar m ops ops.alpha_re
            ∷ only_if ops.complex_op (push_scalar m ops ops.alpha_im) (
                only_if (not trans) (arg_i32 (to_i32 (d.rows *ℤ d.row_block_dim))) (
                  only_if (not trans) (arg_i32 (to_i32 (d.cols *ℤ d.row_block_dim)))
                    (arg_i32 (to_i32 d.rows) ∷ [])));
      }

  unfoldable pub run_bsr : ℕ → Operation → ℕ → DnVecDescr → DnVecDescr → Operands → Op m (Unit {0})
  run_bsr handle op a x y ops = do
    longest ← ensure_max_row_nnz m a
    d ← gets (λ s. mat_at s a)
    scale_dense m handle (y_block d y ops) ops.beta_re ops.beta_im
    if eq_ℤ d.nnz (pos 0) then pure tt else do
      c ← gets (λ s. context_at s handle)
      run_launch m handle (bsr_request c.stream op d longest x y ops)

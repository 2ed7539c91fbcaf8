-- ===== src/Sddmm.antt =====
-- src/ops/sddmm.cpp: C = alpha * (op(A) * op(B)) at the nonzeros of C, + beta * C, with C in CSR.
-- `Checks` has the checks, the scalars and the launch shape; this file has the two launches and the
-- entry points.
pub mod Checks
pub mod Agreement
pub mod Steps
use cwapper.Base.{ℕ, ◌*◌, ℤ, pos, Bool, ◌∷◌, [], ◌==◌, eq_ℤ, tiles, to_i32, pos_part, if◌then◌else◌}
use cwapper.Types.{
  Operation, DataType, SddmmAlg, invalid_value, not_supported, i32, i64, is_r_64f, triton_dtype,
  triton_index_dtype, is_unspelled,
}
use cwapper.Descr.{SpMatDescr, DnMatDescr}
use cwapper.Launch.{
  Arg, device_ptr, arg_i32, arg_i64, arg_f32, arg_f64, pointer, scalar, number, flag, Launch,
}
use cwapper.Exec.{pure, gets, modify, refuse, ◌>>=◌, ◌>>◌}
use cwapper.Machine.{
  Machine, State, Op, mat_at, dnmat_at, context_at, set_mat, set_cell, refuse_with,
}
use cwapper.Jit.{codegen_module, run_launch}
use cwapper.Scalars.{is_nonzero}
use cwapper.Strides.{op_strides, op_cols}
use Checks.{row_ids_block, search_steps, resolve_launch, read_scalar, validate}

module _ (m : Machine) where
  abbrev pub set_row_ids_buffer : ℕ → ℕ → State m.Mem → State m.Mem
  set_row_ids_buffer p b s = set_mat p (record (mat_at s p) { sddmm_row_ids_buffer = b }) s

  unfoldable pub row_ids_request : ℕ → SpMatDescr → ℕ → Launch
  row_ids_request stream c buffer = record {
    module_path = codegen_module m "sddmm_csr.py";
    kernel_name = "_row_ids_kernel";
    signature =
        pointer (triton_index_dtype c.offsets_type)
        ∷ pointer i32
        ∷ scalar i32
        ∷ scalar i32
        ∷ number (pos row_ids_block)
        ∷ number (pos (search_steps c.rows))
        ∷ [];
    stream = stream;
    grid_x = tiles c.nnz row_ids_block;
    grid_y = pos 1;
    grid_z = pos 1;
    num_warps = 4;
    num_stages = 2;
    args =
        device_ptr c.offsets
        ∷ device_ptr buffer
        ∷ arg_i32 (to_i32 c.rows)
        ∷ arg_i32 (to_i32 c.nnz)
        ∷ [];
  }

  unfoldable pub build_row_ids : ℕ → ℕ → ℕ → Op m (Unit {0})
  build_row_ids handle mat_c buffer = do
    c ← gets (λ s. mat_at s mat_c)
    if eq_ℤ c.nnz (pos 0) then pure tt else do
      refuse (buffer == 0) invalid_value
      refuse (is_unspelled (triton_index_dtype c.offsets_type)) not_supported
      h ← gets (λ s. context_at s handle)
      run_launch m handle (row_ids_request h.stream c buffer)

  unfoldable pub product_request :
      ℕ
      → Operation
      → Operation
      → DnMatDescr
      → DnMatDescr
      → SpMatDescr
      → DataType
      → ℕ
      → ℕ
      → ℕ
      → Launch
  product_request stream opA opB a b c compute_type buffer alpha beta =
      let vt = triton_dtype compute_type in
      let is_fp64 = is_r_64f compute_type in
      let scalar_arg = λ (v : ℕ). if is_fp64 then arg_f64 v else arg_f32 (m.narrow v) in
      let k = op_cols opA a in
      let shape = resolve_launch k c.nnz c.rows is_fp64 in
      let x = op_strides opA a in
      let y = op_strides opB b in
      record {
        module_path = codegen_module m "sddmm_csr.py";
        kernel_name = "sddmm_csr_real";
        signature =
            pointer (triton_index_dtype c.indices_type)
            ∷ pointer i32
            ∷ pointer vt
            ∷ pointer vt
            ∷ pointer vt
            ∷ pointer vt
            ∷ scalar i32
            ∷ scalar i32
            ∷ scalar i64
            ∷ scalar i64
            ∷ scalar i64
            ∷ scalar i64
            ∷ scalar vt
            ∷ scalar vt
            ∷ flag (is_nonzero beta)
            ∷ number (pos shape.0)
            ∷ number (pos shape.1)
            ∷ flag is_fp64
            ∷ [];
        stream = stream;
        grid_x = tiles c.nnz shape.0;
        grid_y = pos 1;
        grid_z = pos 1;
        num_warps = shape.2;
        num_stages = 2;
        args =
            device_ptr c.indices
            ∷ device_ptr buffer
            ∷ device_ptr a.values
            ∷ device_ptr b.values
            ∷ device_ptr c.values
            ∷ device_ptr c.values
            ∷ arg_i32 (to_i32 c.nnz)
            ∷ arg_i32 (to_i32 k)
            ∷ arg_i64 x.row
            ∷ arg_i64 x.col
            ∷ arg_i64 y.col
            ∷ arg_i64 y.row
            ∷ scalar_arg alpha
            ∷ scalar_arg beta
            ∷ [];
      }

  -- The row ids are built unless the descriptor names this very buffer.
  unfoldable pub ensure_row_ids : ℕ → ℕ → ℕ → Op m (Unit {0})
  ensure_row_ids handle mat_c buffer = do
    c ← gets (λ s. mat_at s mat_c)
    if c.sddmm_row_ids_buffer == buffer
        then pure tt
        else do build_row_ids handle mat_c buffer; modify (set_row_ids_buffer mat_c buffer)

  unfoldable pub run :
      ℕ → Operation → Operation → ℕ → ℕ → ℕ → ℕ → ℕ → DataType → ℕ → Op m (Unit {0})
  run handle opA opB alpha mat_a mat_b beta mat_c compute_type buffer = do
    alpha_v ← read_scalar m handle alpha compute_type
    beta_v ← read_scalar m handle beta compute_type
    c ← gets (λ s. mat_at s mat_c)
    if eq_ℤ c.nnz (pos 0) then pure tt else do
      refuse_with handle (buffer == 0)
          "SDDMM needs the externalBuffer reported by flagsparseSDDMM_bufferSize; it holds one row id per nonzero, which a CSR indptr does not store."
          invalid_value
      ensure_row_ids handle mat_c buffer
      a ← gets (λ s. dnmat_at s mat_a)
      b ← gets (λ s. dnmat_at s mat_b)
      h ← gets (λ s. context_at s handle)
      run_launch m handle
          (product_request h.stream opA opB a b c compute_type buffer alpha_v beta_v)

  -- flagsparseSDDMM_bufferSize; `size` is the address of the out parameter.
  unfoldable pub buffer_size :
      ℕ → Operation → Operation → ℕ → ℕ → ℕ → DataType → SddmmAlg → ℕ → Op m (Unit {0})
  buffer_size handle opA opB mat_a mat_b mat_c compute_type alg size = do
    refuse (size == 0) invalid_value
    modify (set_cell size 0)
    validate m handle opA opB mat_a mat_b mat_c compute_type alg
    c ← gets (λ s. mat_at s mat_c)
    modify (set_cell size (pos_part c.nnz * 4))

  -- flagsparseSDDMM_preprocess
  unfoldable pub preprocess :
      ℕ → Operation → Operation → ℕ → ℕ → ℕ → DataType → SddmmAlg → ℕ → Op m (Unit {0})
  preprocess handle opA opB mat_a mat_b mat_c compute_type alg buffer = do
    validate m handle opA opB mat_a mat_b mat_c compute_type alg
    c ← gets (λ s. mat_at s mat_c)
    if eq_ℤ c.nnz (pos 0) then pure tt else do
      refuse (buffer == 0) invalid_value
      build_row_ids handle mat_c buffer
      modify (set_row_ids_buffer mat_c buffer)

  -- flagsparseSDDMM
  unfoldable pub sddmm :
      ℕ → Operation → Operation → ℕ → ℕ → ℕ → ℕ → ℕ → DataType → SddmmAlg → ℕ → Op m (Unit {0})
  sddmm handle opA opB alpha mat_a mat_b beta mat_c compute_type alg buffer = do
    validate m handle opA opB mat_a mat_b mat_c compute_type alg
    run handle opA opB alpha mat_a mat_b beta mat_c compute_type buffer

-- ===== src/Spmm.antt =====
-- src/ops/spmm.cpp: C = alpha * A * op(B) + beta * C for A in CSR or COO.
-- `Checks` has the checks and the operands, `Shape` the launch shapes; this file has the two routes
-- and the entry points.
pub mod Checks
pub mod Agreement
pub mod Shape
pub mod Warps
use cwapper.Base.{
  ℕ, suc, ◌*◌, ℤ, pos, Bool, not, ◌||◌, List, [], ◌∷◌, only_if, ◌==◌, eq_ℤ, tiles, to_i32, pos_part,
  if◌then◌else◌,
}
use cwapper.Types.{
  Operation, DataType, SpMmAlg, invalid_value, i32, i64, is_coo, triton_index_dtype,
}
use cwapper.Descr.{SpMatDescr, DnMatDescr}
use cwapper.Launch.{
  Arg, device_ptr, arg_i32, arg_i64, arg_f32, arg_f64, SigItem, pointer, scalar, number, flag,
  Launch,
}
use cwapper.Exec.{pure, gets, modify, refuse, ◌>>=◌, ◌>>◌}
use cwapper.Machine.{Machine, Op, mat_at, dnmat_at, context_at, set_cell, refuse_with}
use cwapper.Jit.{codegen_module, run_launch}
use cwapper.Meta.{ensure_max_row_nnz, build_coo_row_offsets}
use cwapper.Spmv.Routes.{ensure_coo_offsets}
use Checks.{Operands, validate, resolve_operands}
use Shape.{LaunchConfig, resolve_launch, resolve_coo_launch}

-- The part of the signature that both routes share, in front of the rest.
unfoldable pub append_dense_signature : Operands → List SigItem → List SigItem
append_dense_signature ops rest =
    scalar ops.vt
    ∷ only_if ops.complex_op (scalar ops.vt) (
        scalar ops.vt
        ∷ only_if ops.complex_op (scalar ops.vt) (
            scalar i32
            ∷ scalar i32
            ∷ scalar i64
            ∷ scalar i64
            ∷ only_if ops.complex_op (scalar i64)
                (scalar i64 ∷ scalar i64 ∷ only_if ops.complex_op (scalar i64) rest)))

module _ (m : Machine) where
  unfoldable pub push_scalar : Operands → ℕ → Arg
  push_scalar ops v = if ops.acc_is_fp64 then arg_f64 v else arg_f32 (m.narrow v)

  unfoldable pub append_dense_args : Operands → ℤ → List Arg
  unfolding push_scalar
  append_dense_args ops leading_extent =
      push_scalar ops ops.alpha_re
      ∷ only_if ops.complex_op (push_scalar ops ops.alpha_im) (
          push_scalar ops ops.beta_re
          ∷ only_if ops.complex_op (push_scalar ops ops.beta_im) (
              arg_i32 (to_i32 leading_extent)
              ∷ arg_i32 (to_i32 ops.n)
              ∷ arg_i64 ops.stride_bk
              ∷ arg_i64 ops.stride_bn
              ∷ only_if ops.complex_op (arg_i64 (pos 1)) (
                  arg_i64 ops.stride_cm
                  ∷ arg_i64 ops.stride_cn
                  ∷ only_if ops.complex_op (arg_i64 (pos 1)) [])))

  unfoldable pub csr_request :
      ℕ → SpMatDescr → DnMatDescr → DnMatDescr → Operands → LaunchConfig → Launch
  unfolding append_dense_signature append_dense_args
  csr_request stream a b c ops cfg = record {
    module_path = codegen_module m "spmm_csr.py";
    kernel_name = if ops.complex_op then "spmm_csr_complex" else "spmm_csr_real";
    signature =
        pointer ops.vt
        ∷ pointer (triton_index_dtype a.indices_type)
        ∷ pointer (triton_index_dtype a.offsets_type)
        ∷ pointer ops.vt
        ∷ pointer ops.vt
        ∷ append_dense_signature ops (
            number (pos cfg.block_n)
            ∷ number (pos cfg.block_nnz)
            ∷ flag ops.acc_is_fp64
            ∷ only_if (not ops.complex_op) (flag Bool.false) (flag ops.has_beta ∷ []));
    stream = stream;
    grid_x = ops.m;
    grid_y = tiles ops.n cfg.block_n;
    grid_z = pos 1;
    num_warps = cfg.num_warps;
    num_stages = cfg.num_stages;
    args =
        device_ptr a.values
        ∷ device_ptr a.indices
        ∷ device_ptr a.offsets
        ∷ device_ptr b.values
        ∷ device_ptr c.values
        ∷ append_dense_args ops ops.m;
  }

  unfoldable pub run_csr : ℕ → ℕ → DnMatDescr → DnMatDescr → DataType → Operands → Op m (Unit {0})
  run_csr handle mat_a b c compute_type ops = do
    longest ← ensure_max_row_nnz m mat_a
    cfg ← resolve_launch m compute_type ops.n longest
    a ← gets (λ s. mat_at s mat_a)
    h ← gets (λ s. context_at s handle)
    run_launch m handle (csr_request h.stream a b c ops cfg)

  unfoldable pub coo_request :
      ℕ → SpMatDescr → ℕ → DnMatDescr → DnMatDescr → Operands → LaunchConfig → Launch
  unfolding append_dense_signature append_dense_args
  coo_request stream a buffer b c ops cfg = record {
    module_path = codegen_module m "spmm_coo.py";
    kernel_name = if ops.complex_op then "spmm_coo_complex" else "spmm_coo_real";
    signature =
        pointer ops.vt
        ∷ pointer (triton_index_dtype a.indices_type)
        ∷ pointer (triton_index_dtype a.indices_type)
        ∷ pointer ops.vt
        ∷ pointer ops.vt
        ∷ pointer i32
        ∷ append_dense_signature ops (
            number (pos cfg.block_n)
            ∷ number (pos cfg.block_nnz)
            ∷ flag ops.acc_is_fp64
            ∷ flag Bool.true
            ∷ flag ops.has_beta
            ∷ []);
    stream = stream;
    grid_x = ops.m;
    grid_y = tiles ops.n cfg.block_n;
    grid_z = pos 1;
    num_warps = cfg.num_warps;
    num_stages = cfg.num_stages;
    args =
        device_ptr a.values
        ∷ device_ptr a.row_ind
        ∷ device_ptr a.indices
        ∷ device_ptr b.values
        ∷ device_ptr c.values
        ∷ device_ptr buffer
        ∷ append_dense_args ops ops.m;
  }

  unfoldable pub run_coo : ℕ → ℕ → DnMatDescr → DnMatDescr → Operands → ℕ → Op m (Unit {0})
  run_coo handle mat_a b c ops buffer = do
    refuse_with handle (buffer == 0)
        "SpMM on a COO matrix needs the externalBuffer reported by flagsparseSpMM_bufferSize; it holds the row-offsets array."
        invalid_value
    ensure_coo_offsets m mat_a buffer
    cfg ← resolve_coo_launch m ops.n
    a ← gets (λ s. mat_at s mat_a)
    h ← gets (λ s. context_at s handle)
    run_launch m handle (coo_request h.stream a buffer b c ops cfg)

  unfoldable pub run : ℕ → Operation → ℕ → ℕ → ℕ → ℕ → ℕ → DataType → ℕ → Op m (Unit {0})
  run handle opB alpha mat_a mat_b beta mat_c compute_type buffer = do
    a ← gets (λ s. mat_at s mat_a)
    b ← gets (λ s. dnmat_at s mat_b)
    c ← gets (λ s. dnmat_at s mat_c)
    ops ← resolve_operands m handle opB alpha a b beta c compute_type
    if eq_ℤ ops.m (pos 0) || eq_ℤ ops.n (pos 0)
        then pure tt
        else if is_coo a.format
        then run_coo handle mat_a b c ops buffer
        else run_csr handle mat_a b c compute_type ops

  -- flagsparseSpMM_bufferSize; `size` is the address of the out parameter.
  unfoldable pub buffer_size :
      ℕ → Operation → Operation → ℕ → ℕ → ℕ → DataType → SpMmAlg → ℕ → Op m (Unit {0})
  buffer_size handle opA opB mat_a mat_b mat_c compute_type alg size = do
    refuse (size == 0) invalid_value
    modify (set_cell size 0)
    validate m handle opA opB mat_a mat_b mat_c compute_type alg
    a ← gets (λ s. mat_at s mat_a)
    if is_coo a.format then modify (set_cell size (suc (pos_part a.rows) * 4)) else pure tt

  -- flagsparseSpMM_preprocess
  unfoldable pub preprocess :
      ℕ → Operation → Operation → ℕ → ℕ → ℕ → DataType → SpMmAlg → ℕ → Op m (Unit {0})
  preprocess handle opA opB mat_a mat_b mat_c compute_type alg buffer = do
    validate m handle opA opB mat_a mat_b mat_c compute_type alg
    a ← gets (λ s. mat_at s mat_a)
    if is_coo a.format
        then (if eq_ℤ a.rows (pos 0)
            then pure tt
            else do refuse (buffer == 0) invalid_value; build_coo_row_offsets m mat_a buffer)
        else (do ensure_max_row_nnz m mat_a; pure tt)

  -- flagsparseSpMM
  unfoldable pub spmm :
      ℕ → Operation → Operation → ℕ → ℕ → ℕ → ℕ → ℕ → DataType → SpMmAlg → ℕ → Op m (Unit {0})
  spmm handle opA opB alpha mat_a mat_b beta mat_c compute_type alg buffer = do
    validate m handle opA opB mat_a mat_b mat_c compute_type alg
    run handle opB alpha mat_a mat_b beta mat_c compute_type buffer

-- ===== src/Spmv/Checks.antt =====
-- The checks and the scalars of src/ops/spmv.cpp.
use cwapper.Base.{
  to_i64, ℕ, ℤ, pos, ◌*ℤ◌, Bool, true, false, not, ◌&&◌, ◌||◌, ◌==◌, eq_ℤ, lt_ℤ, le_ℤ, int32_max,
  if◌then◌else◌,
}
use cwapper.Types.{
  not_initialized, invalid_value, not_supported, Operation, DataType, SpMvAlg, spmv_default,
  spmv_coo_alg1, spmv_csr_alg1, spmv_csr_alg2, spmv_coo_alg2, Format, csr, csc, coo, bsr, Scalar,
  transposes, is_base_zero, is_row_major, is_r_32f, is_r_64f, is_bsr, same_dtype, is_complex,
  component_dtype, triton_dtype, triton_index_dtype, is_unspelled,
}
use cwapper.Descr.{SpMatDescr, DnVecDescr}
use cwapper.Launch.{Arg, arg_f32, arg_f64}
use cwapper.Exec.{pure, fail, gets, refuse, ◌>>=◌, ◌>>◌}
use cwapper.Machine.{Machine, Op, mat_at, dnvec_at}
use cwapper.Scalars.{read_scalar, is_nonzero}

pub record Operands : Type 0 where
  pub complex_op : Bool
  pub acc_is_fp64 : Bool
  pub has_beta : Bool
  pub alpha_re : ℕ
  pub alpha_im : ℕ
  pub beta_re : ℕ
  pub beta_im : ℕ
  pub y_len : ℤ
  pub vt : Scalar
  pub it : Scalar
  pub ot : Scalar

unfoldable pub alg_supported : Format → SpMvAlg → Bool
alg_supported format spmv_default = true
alg_supported csr spmv_csr_alg1 = true
alg_supported csr spmv_csr_alg2 = true
alg_supported csc spmv_csr_alg1 = true
alg_supported csc spmv_csr_alg2 = true
alg_supported bsr spmv_csr_alg1 = true
alg_supported bsr spmv_csr_alg2 = true
alg_supported coo spmv_coo_alg1 = true
alg_supported coo spmv_coo_alg2 = true
alg_supported _ _ = false

-- The scalar extents of A, (m, n): a BSR descriptor counts blocks. The products are of int64_t, and keep
-- the low 64 bits. (An overflow of them is undefined in C++.)
abbrev pub scalar_extents : SpMatDescr → ℤ × ℤ
scalar_extents d =
    if is_bsr d.format
    then (to_i64 (d.rows *ℤ d.row_block_dim), to_i64 (d.cols *ℤ d.col_block_dim))
    else (d.rows, d.cols)

-- (need_x, need_y)
unfoldable pub operand_extents : SpMatDescr → Operation → ℤ × ℤ
operand_extents d op =
    if transposes op
    then ((scalar_extents d).0, (scalar_extents d).1)
    else ((scalar_extents d).1, (scalar_extents d).0)

module _ (m : Machine) where
  unfoldable pub push_scalar : Operands → ℕ → Arg
  push_scalar ops v = if ops.acc_is_fp64 then arg_f64 v else arg_f32 (m.narrow v)

  unfoldable pub resolve_operands : ℕ → ℕ → ℕ → DnVecDescr → DataType → SpMatDescr → Op m Operands
  resolve_operands handle alpha beta y compute_type d = do
    a ← read_scalar m handle alpha compute_type
    b ← read_scalar m handle beta compute_type
    pure (record {
      complex_op = is_complex compute_type;
      acc_is_fp64 = is_r_64f (component_dtype compute_type);
      has_beta = is_nonzero b.0 || is_nonzero b.1;
      alpha_re = a.0;
      alpha_im = a.1;
      beta_re = b.0;
      beta_im = b.1;
      y_len = y.size;
      vt = triton_dtype (component_dtype compute_type);
      it = triton_index_dtype d.indices_type;
      ot = triton_index_dtype d.offsets_type;
    })

module _ (m : Machine) where
  -- The switch at the end of validate.
  unfoldable pub check_format : Format → SpMatDescr → Operation → Op m (Unit {0})
  check_format csr d op = refuse (transposes op) not_supported
  check_format coo d op = do
    refuse (transposes op) not_supported
    refuse (lt_ℤ (pos int32_max) d.nnz) not_supported
  check_format csc d op = pure tt
  check_format bsr d op = do
    refuse (not (eq_ℤ d.row_block_dim d.col_block_dim)) not_supported
    refuse (le_ℤ d.row_block_dim (pos 0)) invalid_value
    refuse (not (is_row_major d.order)) not_supported
  check_format _ d op = fail not_supported

  -- The checks on the objects, once the pointers are known not to be null.
  unfoldable pub check_objects :
      SpMatDescr → DnVecDescr → DnVecDescr → Operation → DataType → SpMvAlg → Op m (Unit {0})
  check_objects d x y op compute_type alg = do
    refuse
        (not (same_dtype d.value_type compute_type)
          || not (same_dtype x.value_type compute_type)
          || not (same_dtype y.value_type compute_type))
        not_supported
    refuse (not (is_base_zero d.idx_base)) not_supported
    refuse (not (alg_supported d.format alg)) not_supported
    refuse
        (not (eq_ℤ x.size (operand_extents d op).0) || not (eq_ℤ y.size (operand_extents d op).1))
        invalid_value
    refuse
        (not (is_r_32f (component_dtype compute_type))
          && not (is_r_64f (component_dtype compute_type)))
        not_supported
    refuse
        (is_unspelled (triton_index_dtype d.indices_type)
          || is_unspelled (triton_index_dtype d.offsets_type))
        not_supported
    check_format d.format d op

  unfoldable pub validate : ℕ → Operation → ℕ → ℕ → ℕ → DataType → SpMvAlg → Op m (Unit {0})
  validate handle op a vec_x vec_y compute_type alg = do
    refuse (handle == 0) not_initialized
    refuse (a == 0 || vec_x == 0 || vec_y == 0) invalid_value
    d ← gets (λ s. mat_at s a)
    x ← gets (λ s. dnvec_at s vec_x)
    y ← gets (λ s. dnvec_at s vec_y)
    check_objects d x y op compute_type alg

-- ===== src/Spmm/Checks.antt =====
-- The checks and the operands of src/ops/spmm.cpp.
use cwapper.Base.{
  ℕ, ℤ, pos, Bool, true, false, not, ◌&&◌, ◌||◌, ◌==◌, eq_ℤ, lt_ℤ, int32_max, if◌then◌else◌,
}
use cwapper.Types.{
  not_initialized, invalid_value, not_supported, Operation, DataType, SpMmAlg, spmm_default,
  spmm_coo_alg1, spmm_coo_alg2, spmm_csr_alg1, spmm_csr_alg2, spmm_csr_alg3, Format, csr, coo,
  Scalar, transposes, is_conjugate, is_non_transpose, is_transpose, is_base_zero, is_csr, is_coo,
  is_r_32f, is_r_64f, same_dtype, is_complex, component_dtype, triton_dtype, triton_index_dtype,
  is_unspelled,
}
use cwapper.Descr.{SpMatDescr, DnMatDescr}
use cwapper.Exec.{pure, gets, refuse, ◌>>=◌, ◌>>◌}
use cwapper.Machine.{Machine, Op, mat_at, dnmat_at}
use cwapper.Scalars.{read_scalar, is_nonzero}
use cwapper.Strides.{strides_of, op_strides, in_units, op_rows, op_cols}

pub record Operands : Type 0 where
  pub complex_op : Bool
  pub acc_is_fp64 : Bool
  pub has_beta : Bool
  pub alpha_re : ℕ
  pub alpha_im : ℕ
  pub beta_re : ℕ
  pub beta_im : ℕ
  pub m : ℤ
  pub n : ℤ
  pub stride_bk : ℤ
  pub stride_bn : ℤ
  pub stride_cm : ℤ
  pub stride_cn : ℤ
  pub vt : Scalar

unfoldable pub alg_supported : Format → SpMmAlg → Bool
alg_supported format spmm_default = true
alg_supported csr spmm_csr_alg1 = true
alg_supported csr spmm_csr_alg2 = true
alg_supported csr spmm_csr_alg3 = true
alg_supported coo spmm_coo_alg1 = true
alg_supported coo spmm_coo_alg2 = true
alg_supported _ _ = false

module _ (m : Machine) where
  -- The checks on the objects, once the pointers are known not to be null.
  unfoldable pub check_objects :
      SpMatDescr
      → DnMatDescr
      → DnMatDescr
      → Operation
      → Operation
      → DataType
      → SpMmAlg
      → Op m (Unit {0})
  check_objects a b c opA opB compute_type alg = do
    refuse
        (not (same_dtype a.value_type compute_type)
          || not (same_dtype b.value_type compute_type)
          || not (same_dtype c.value_type compute_type))
        not_supported
    refuse (not (is_csr a.format) && not (is_coo a.format)) not_supported
    refuse (not (is_base_zero a.idx_base)) not_supported
    refuse (not (alg_supported a.format alg)) not_supported
    refuse (is_coo a.format && lt_ℤ (pos int32_max) a.nnz) not_supported
    refuse (transposes opA) not_supported
    refuse (is_conjugate opB) not_supported
    refuse (not (is_non_transpose opB) && not (is_transpose opB)) invalid_value
    refuse (is_unspelled (triton_dtype (component_dtype compute_type))) not_supported
    refuse
        (not (is_r_32f (component_dtype compute_type))
          && not (is_r_64f (component_dtype compute_type)))
        not_supported
    refuse
        (is_unspelled (triton_index_dtype a.indices_type)
          || is_unspelled (triton_index_dtype a.offsets_type))
        not_supported
    refuse
        (not (eq_ℤ c.rows a.rows)
          || not (eq_ℤ (op_rows opB b) a.cols)
          || not (eq_ℤ (op_cols opB b) c.cols))
        invalid_value

  unfoldable pub validate :
      ℕ → Operation → Operation → ℕ → ℕ → ℕ → DataType → SpMmAlg → Op m (Unit {0})
  validate handle opA opB mat_a mat_b mat_c compute_type alg = do
    refuse (handle == 0) not_initialized
    refuse (mat_a == 0 || mat_b == 0 || mat_c == 0) invalid_value
    a ← gets (λ s. mat_at s mat_a)
    b ← gets (λ s. dnmat_at s mat_b)
    c ← gets (λ s. dnmat_at s mat_c)
    check_objects a b c opA opB compute_type alg

  unfoldable pub resolve_operands :
      ℕ → Operation → ℕ → SpMatDescr → DnMatDescr → ℕ → DnMatDescr → DataType → Op m Operands
  resolve_operands handle opB alpha a b beta c compute_type = do
    alpha_v ← read_scalar m handle alpha compute_type
    beta_v ← read_scalar m handle beta compute_type
    let unit = if is_complex compute_type then pos 2 else pos 1
    let bs = in_units unit (op_strides opB b)
    let cs = in_units unit (strides_of c)
    pure (record {
      complex_op = is_complex compute_type;
      acc_is_fp64 = is_r_64f (component_dtype compute_type);
      has_beta = is_nonzero beta_v.0 || is_nonzero beta_v.1;
      alpha_re = alpha_v.0;
      alpha_im = alpha_v.1;
      beta_re = beta_v.0;
      beta_im = beta_v.1;
      m = a.rows;
      n = c.cols;
      stride_bk = bs.row;
      stride_bn = bs.col;
      stride_cm = cs.row;
      stride_cn = cs.col;
      vt = triton_dtype (component_dtype compute_type);
    })

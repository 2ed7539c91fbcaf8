-- ===== src/Spsm/Checks.antt =====
-- The checks of src/ops/spsm.cpp.
use cwapper.Base.{ℕ, pos, not, ◌&&◌, ◌||◌, ◌==◌, eq_ℤ, lt_ℤ, int32_max}
use cwapper.Types.{
  not_initialized, invalid_value, not_supported, Operation, DataType, SpSmAlg, is_spsm_default,
  is_conjugate, is_non_transpose, is_base_zero, is_csr, is_coo, is_r_32f, is_r_64f, same_dtype,
  component_dtype, triton_index_dtype, is_unspelled,
}
use cwapper.Descr.{SpMatDescr, DnMatDescr}
use cwapper.Exec.{gets, refuse, ◌>>=◌, ◌>>◌}
use cwapper.Machine.{Machine, Op, mat_at, dnmat_at, refuse_with}
use cwapper.Strides.{op_rows, op_cols}

module _ (m : Machine) where
  -- The checks on the objects, once the pointers and the algorithm are known.
  unfoldable pub check_objects :
      ℕ → SpMatDescr → DnMatDescr → DnMatDescr → Operation → Operation → DataType → Op m (Unit {0})
  check_objects handle a b c opA opB compute_type = do
    refuse
        (not (same_dtype a.value_type compute_type)
          || not (same_dtype b.value_type compute_type)
          || not (same_dtype c.value_type compute_type))
        not_supported
    refuse (not (is_csr a.format) && not (is_coo a.format)) not_supported
    refuse (not (is_base_zero a.idx_base)) not_supported
    refuse (not (eq_ℤ a.rows a.cols)) invalid_value
    refuse (is_coo a.format && lt_ℤ (pos int32_max) a.nnz) not_supported
    refuse (not (is_non_transpose opA)) not_supported
    refuse (is_conjugate opB) not_supported
    refuse
        (not (is_r_32f (component_dtype compute_type))
          && not (is_r_64f (component_dtype compute_type)))
        not_supported
    refuse
        (is_unspelled (triton_index_dtype a.indices_type)
          || is_unspelled (triton_index_dtype a.offsets_type))
        not_supported
    refuse_with handle (not a.fill_mode_set)
        "SpSM needs FLAGSPARSE_SPMAT_FILL_MODE on the matrix descriptor (flagsparseSpMatSetAttribute) -- there is no safe default."
        invalid_value
    refuse
        (not (eq_ℤ (op_rows opB b) a.rows)
          || not (eq_ℤ c.rows a.rows)
          || not (eq_ℤ c.cols (op_cols opB b)))
        invalid_value

  unfoldable pub validate :
      ℕ → Operation → Operation → ℕ → ℕ → ℕ → DataType → SpSmAlg → ℕ → Op m (Unit {0})
  validate handle opA opB mat_a mat_b mat_c compute_type alg descr = do
    refuse (handle == 0) not_initialized
    refuse (mat_a == 0 || mat_b == 0 || mat_c == 0 || descr == 0) invalid_value
    refuse (not (is_spsm_default alg)) not_supported
    a ← gets (λ s. mat_at s mat_a)
    b ← gets (λ s. dnmat_at s mat_b)
    c ← gets (λ s. dnmat_at s mat_c)
    check_objects handle a b c opA opB compute_type

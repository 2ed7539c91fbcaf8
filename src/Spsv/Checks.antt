-- ===== src/Spsv/Checks.antt =====
-- The checks of src/ops/spsv.cpp, and how the scratch is laid out.
use cwapper.Base.{
  ℕ, suc, ◌*◌, pos, Bool, true, false, not, ◌&&◌, ◌||◌, ◌==◌, eq_ℤ, lt_ℤ, le_ℤ, int32_max, pos_part,
  if◌then◌else◌,
}
use cwapper.Types.{
  not_initialized, invalid_value, not_supported, Operation, DataType, SpSvAlg, spsv_default,
  spsv_sell_alg1, spsv_sell_alg2, csr, index_32i, is_non_transpose, is_base_zero, is_r_32f,
  is_r_64f, is_32i, is_csr, is_coo, is_sliced_ell, is_lower, same_dtype, component_dtype,
  triton_index_dtype, is_unspelled,
}
use cwapper.Descr.{SpMatDescr, DnVecDescr}
use cwapper.Exec.{pure, gets, refuse, ◌>>=◌, ◌>>◌}
use cwapper.Machine.{Machine, Op, mat_at, dnvec_at, refuse_with}

unfoldable pub is_sell_alg : SpSvAlg → Bool
is_sell_alg spsv_sell_alg1 = true
is_sell_alg spsv_sell_alg2 = true
is_sell_alg _ = false

abbrev pub is_default_alg : SpSvAlg → Bool
is_default_alg spsv_default = true
is_default_alg _ = false

-- The ready flags, one int32 for each row, and the row counter.
unfoldable pub flags_bytes : SpMatDescr → ℕ
flags_bytes d = suc (pos_part d.rows) * 4

-- For COO the row offsets follow: rows + 1 more.
unfoldable pub scratch_bytes : SpMatDescr → ℕ
unfolding flags_bytes
scratch_bytes d = if is_coo d.format then flags_bytes d * 2 else flags_bytes d

unfoldable pub csr_view_of_coo : SpMatDescr → ℕ → SpMatDescr
csr_view_of_coo d offsets = record d { format = csr; offsets = offsets; offsets_type = index_32i }

module _ (m : Machine) where
  -- The checks on a sliced-ELL matrix that follow those of every format.
  unfoldable pub check_sell : ℕ → SpMatDescr → Op m (Unit {0})
  check_sell handle d = do
    refuse (le_ℤ d.slice_size (pos 0)) invalid_value
    refuse_with handle (not (is_lower d.fill_mode))
        "SpSV on a sliced-ELL matrix supports FILL_MODE_LOWER only: the kernels have no fill-mode switch."
        not_supported
    refuse (not (is_32i d.indices_type) || not (is_32i d.offsets_type)) not_supported

  unfoldable pub check_objects :
      ℕ → SpMatDescr → DnVecDescr → DnVecDescr → Operation → DataType → SpSvAlg → Op m (Unit {0})
  check_objects handle d x y op compute_type alg = do
    refuse
        (if is_sliced_ell d.format
          then not (is_default_alg alg) && not (is_sell_alg alg)
          else not (is_default_alg alg))
        not_supported
    refuse
        (not (same_dtype d.value_type compute_type)
          || not (same_dtype x.value_type compute_type)
          || not (same_dtype y.value_type compute_type))
        not_supported
    refuse (not (is_csr d.format) && not (is_coo d.format) && not (is_sliced_ell d.format))
        not_supported
    refuse (is_coo d.format && lt_ℤ (pos int32_max) d.nnz) not_supported
    refuse (not (is_base_zero d.idx_base)) not_supported
    refuse (not (eq_ℤ d.rows d.cols)) invalid_value
    refuse (not (eq_ℤ x.size d.rows) || not (eq_ℤ y.size d.rows)) invalid_value
    refuse (not (is_non_transpose op)) not_supported
    refuse
        (not (is_r_32f (component_dtype compute_type))
          && not (is_r_64f (component_dtype compute_type)))
        not_supported
    refuse
        (is_unspelled (triton_index_dtype d.indices_type)
          || is_unspelled (triton_index_dtype d.offsets_type))
        not_supported
    refuse_with handle (not d.fill_mode_set)
        "SpSV needs FLAGSPARSE_SPMAT_FILL_MODE on the matrix descriptor (flagsparseSpMatSetAttribute) -- there is no safe default."
        invalid_value
    if is_sliced_ell d.format then check_sell handle d else pure tt

  unfoldable pub validate : ℕ → Operation → ℕ → ℕ → ℕ → DataType → SpSvAlg → ℕ → Op m (Unit {0})
  validate handle op a vec_x vec_y compute_type alg descr = do
    refuse (handle == 0) not_initialized
    refuse (a == 0 || vec_x == 0 || vec_y == 0 || descr == 0) invalid_value
    d ← gets (λ s. mat_at s a)
    x ← gets (λ s. dnvec_at s vec_x)
    y ← gets (λ s. dnvec_at s vec_y)
    check_objects handle d x y op compute_type alg

-- ===== src/Spgemm/Checks.antt =====
-- The checks of src/ops/spgemm.cpp, and its readback of index arrays.
use cwapper.Base.{
  ℕ, ◌*◌, ◌^◌, ℤ, pos, not, ◌&&◌, ◌||◌, ◌==◌, List, [], eq_ℤ, lt_ℤ, int32_max, pos_part,
  if◌then◌else◌,
}
use cwapper.Types.{
  not_initialized, invalid_value, not_supported, Operation, DataType, IndexType, index_size,
  SpGemmAlg, is_spgemm_default, is_non_transpose, is_base_zero, is_csr, is_r_32f, is_r_64f, is_host,
  same_dtype,
}
use cwapper.Descr.{SpMatDescr}
use cwapper.Exec.{pure, gets, refuse, ◌>>=◌, ◌>>◌}
use cwapper.Machine.{Machine, Op, mat_at, context_at, refuse_with}
use cwapper.Adaptor.{memcpy_d2h}
use cwapper.Meta.{ints_of}
use cwapper.Scalars.{is_nonzero}

-- The pattern of the double 1.0.
abbrev pub one : ℕ
one = 1023 * 2 ^ 52

module _ (m : Machine) where
  unfoldable pub read_indices : ℕ → IndexType → ℤ → Op m (List ℤ)
  read_indices device type count = if eq_ℤ count (pos 0) then pure [] else do
    refuse (index_size type == 0) not_supported
    raw ← memcpy_d2h m device (pos_part count * index_size type)
    pure (ints_of type raw)

  -- alpha or beta, of a type that is R_32F or R_64F.
  abbrev pub scalar_of : DataType → ℕ → ℕ
  scalar_of compute_type p =
      if is_r_32f compute_type then m.widen (m.float_at p 0) else m.double_at p 0

  unfoldable pub check_scalars : ℕ → ℕ → ℕ → DataType → Op m (Unit {0})
  check_scalars handle alpha beta compute_type = do
    refuse (alpha == 0 || beta == 0) invalid_value
    c ← gets (λ s. context_at s handle)
    refuse (not (is_host c.pointer_mode)) not_supported
    refuse_with handle
        (not (scalar_of compute_type alpha == one) || is_nonzero (scalar_of compute_type beta))
        "SpGEMM supports alpha == 1 and beta == 0 only, as cuSPARSE does." not_supported

  unfoldable pub check_objects : SpMatDescr → SpMatDescr → SpMatDescr → DataType → Op m (Unit {0})
  check_objects a b c compute_type = do
    refuse (not (is_csr a.format) || not (is_csr b.format) || not (is_csr c.format)) not_supported
    refuse
        (not (same_dtype a.value_type compute_type)
          || not (same_dtype b.value_type compute_type)
          || not (same_dtype c.value_type compute_type))
        not_supported
    refuse (not (is_base_zero a.idx_base) || not (is_base_zero b.idx_base)) not_supported
    refuse (not (is_r_32f compute_type) && not (is_r_64f compute_type)) not_supported
    refuse (not (eq_ℤ a.cols b.rows)) invalid_value
    refuse (not (eq_ℤ c.rows a.rows) || not (eq_ℤ c.cols b.cols)) invalid_value
    refuse (lt_ℤ (pos int32_max) a.nnz || lt_ℤ (pos int32_max) b.nnz) not_supported

  unfoldable pub validate :
      ℕ → Operation → Operation → ℕ → ℕ → ℕ → ℕ → ℕ → DataType → SpGemmAlg → ℕ → Op m (Unit {0})
  validate handle opA opB alpha mat_a mat_b beta mat_c compute_type alg descr = do
    refuse (handle == 0) not_initialized
    refuse (mat_a == 0 || mat_b == 0 || mat_c == 0 || descr == 0) invalid_value
    refuse (not (is_spgemm_default alg)) not_supported
    refuse (not (is_non_transpose opA) || not (is_non_transpose opB)) not_supported
    a ← gets (λ s. mat_at s mat_a)
    b ← gets (λ s. mat_at s mat_b)
    c ← gets (λ s. mat_at s mat_c)
    check_objects a b c compute_type
    check_scalars handle alpha beta compute_type

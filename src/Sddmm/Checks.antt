-- ===== src/Sddmm/Checks.antt =====
-- The checks, the scalars and the launch shape of src/ops/sddmm.cpp.
use cwapper.Base.{
  ℕ, zero, suc, ◌^◌, ℤ, pos, ◌*ℤ◌, Bool, not, ◌&&◌, ◌||◌, ◌==◌, ltb, eq_ℤ, lt_ℤ, le_ℤ, max_ℤ,
  pos_part, int32_max, if◌then◌else◌,
}
use cwapper.Types.{
  not_initialized, invalid_value, not_supported, Operation, DataType, r_32f, r_64f, SddmmAlg,
  is_sddmm_default, is_csr, is_base_zero, is_r_32f, is_r_64f, is_host, same_dtype,
  triton_index_dtype, is_unspelled,
}
use cwapper.Descr.{SpMatDescr, DnMatDescr}
use cwapper.Exec.{pure, fail, gets, refuse, ◌>>=◌, ◌>>◌}
use cwapper.Machine.{Machine, Op, mat_at, dnmat_at, context_at}
use cwapper.Spsv.Routes.{double_up}
use cwapper.Strides.{op_rows, op_cols}

abbrev pub row_ids_block : ℕ
row_ids_block = 1024

-- while ((1 << steps) < n) ++steps, on fuel; the code's shift is of an int64_t.
unfoldable pub steps_from : ℕ → ℕ → ℕ → ℕ
steps_from zero steps n = steps
steps_from (suc f) steps n =
    let rest = steps_from f (suc steps) n in if ltb (2 ^ steps) n then rest else steps

-- The loop starts at 1, and 2 ^ n exceeds n: n rounds are enough.
unfoldable pub search_steps : ℤ → ℕ
unfolding steps_from
search_steps rows = let n_rows = pos_part (max_ℤ (pos 2) rows) in steps_from n_rows 1 n_rows

-- block_k: 32, or the power of two that reaches a smaller k.
unfoldable pub reduction_block : ℤ → ℕ
unfolding double_up
reduction_block k = if le_ℤ (pos 32) k then 32 else double_up (pos_part k) 1 (pos_part k)

-- The code divides doubles, nnz / rows >= 16.0. Validation bounds nnz by INT32_MAX, so that the
-- rounded quotient reaches 16 only when the exact one does.
unfoldable pub is_wide : ℤ → ℤ → Bool → Bool
is_wide nnz rows is_fp64 = not is_fp64 && (lt_ℤ (pos 0) rows && le_ℤ (pos 16 *ℤ rows) nnz)

-- (block_p, block_k, num_warps)
unfoldable pub resolve_launch : ℤ → ℤ → ℤ → Bool → ℕ × ℕ × ℕ
unfolding reduction_block is_wide
resolve_launch k nnz rows is_fp64 =
    if is_wide nnz rows is_fp64 then (512, reduction_block k, 4) else (64, reduction_block k, 8)

module _ (m : Machine) where
  unfoldable pub scalar_of : DataType → ℕ → Op m ℕ
  scalar_of r_32f p = pure (m.widen (m.float_at p 0))
  scalar_of r_64f p = pure (m.double_at p 0)
  scalar_of _ p = fail not_supported

  unfoldable pub read_scalar : ℕ → ℕ → DataType → Op m ℕ
  unfolding scalar_of
  read_scalar handle p ctype = do
    refuse (p == 0) invalid_value
    c ← gets (λ s. context_at s handle)
    refuse (not (is_host c.pointer_mode)) not_supported
    scalar_of ctype p

module _ (m : Machine) where
  unfoldable pub check_objects :
      DnMatDescr → DnMatDescr → SpMatDescr → Operation → Operation → DataType → Op m (Unit {0})
  check_objects a b c opA opB compute_type = do
    refuse
        (not (same_dtype a.value_type compute_type)
          || not (same_dtype b.value_type compute_type)
          || not (same_dtype c.value_type compute_type))
        not_supported
    refuse (not (is_csr c.format)) not_supported
    refuse (not (is_base_zero c.idx_base)) not_supported
    refuse (not (is_r_32f compute_type) && not (is_r_64f compute_type)) not_supported
    refuse
        (is_unspelled (triton_index_dtype c.indices_type)
          || is_unspelled (triton_index_dtype c.offsets_type))
        not_supported
    refuse (lt_ℤ (pos int32_max) c.nnz) not_supported
    refuse
        (not (eq_ℤ (op_cols opA a) (op_rows opB b))
          || not (eq_ℤ c.rows (op_rows opA a))
          || not (eq_ℤ c.cols (op_cols opB b)))
        invalid_value

  unfoldable pub validate :
      ℕ → Operation → Operation → ℕ → ℕ → ℕ → DataType → SddmmAlg → Op m (Unit {0})
  validate handle opA opB mat_a mat_b mat_c compute_type alg = do
    refuse (handle == 0) not_initialized
    refuse (mat_a == 0 || mat_b == 0 || mat_c == 0) invalid_value
    refuse (not (is_sddmm_default alg)) not_supported
    a ← gets (λ s. dnmat_at s mat_a)
    b ← gets (λ s. dnmat_at s mat_b)
    c ← gets (λ s. mat_at s mat_c)
    check_objects a b c opA opB compute_type

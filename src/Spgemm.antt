-- ===== src/Spgemm.antt =====
-- src/ops/spgemm.cpp: C = A * B in CSR, in three calls: workEstimation, compute and copy.
-- `Checks` has the validation, `Plan` the buckets and buffers, `Host` the loops on the host, `Hash`
-- the launch, `Steps` the parts of the three calls; this file has the entry points.
pub mod Agreement
pub mod Buckets
pub mod Calls
pub mod Checks
pub mod Computed
pub mod Hash
pub mod Host
pub mod Offsets
pub mod Order
pub mod Ordered
pub mod Phases
pub mod Plan
pub mod Sort
pub mod Steps
pub mod Totals
pub mod Work
use cwapper.Base.{
  ℕ, suc, ◌+◌, ◌*◌, ℤ, pos, ◌+ℤ◌, Bool, true, false, not, ◌||◌, List, [], ◌∷◌, Option, none, some,
  String, ◌==◌, eq_ℤ, lt_ℤ, pos_part, replicate, if◌then◌else◌,
}
use cwapper.Types.{
  Operation, DataType, SpGemmAlg, invalid_value, not_supported, alloc_failed, i32, index_32i,
  is_r_64f, dtype_size, triton_index_dtype,
}
use cwapper.Descr.{SpMatDescr, SpGemmDescr, new_spgemm}
use cwapper.Exec.{pure, fail, lift, gets, modify, refuse, ◌>>=◌, ◌>>◌}
use cwapper.Machine.{
  Machine, State, Op, mat_at, spgemm_at, context_at, set_mat, set_spgemm, set_cell, set_error,
  update, refuse_with,
}
use cwapper.Adaptor.{memcpy_d2h, memcpy_h2d, synchronize}
use cwapper.Jit.{run_launch}
use cwapper.Meta.{ints_of}
use Checks.{read_indices, validate}
use Plan.{Bucket, buckets, fill_buckets, pick_bucket, rows_bytes, buffer1_bytes, buffer2_bytes}
use Host.{
  Estimate, rows_work, row_offsets, any_flag, bytes_of32, offset_bytes, entries, sort_rows,
  columns_of, values_of,
}
use Hash.{HashPointers, hash_request}
use Steps.{
  set_nnz, change_descr, estimate, estimated_descr, serve, count_entries, computed_descr,
  derive_offsets, fill_entries, sort_entries, serve_fill,
}

module _ (m : Machine) where
  unfoldable pub create_descr : ℕ → ℕ → Op m (Unit {0})
  create_descr descr p = do
    refuse (descr == 0) invalid_value
    modify (set_cell descr 0)
    refuse (p == 0) alloc_failed
    modify (set_spgemm p new_spgemm)
    modify (set_cell descr p)

  unfoldable pub destroy_descr : ℕ → Op m (Unit {0})
  destroy_descr descr = do
    refuse (descr == 0) invalid_value
    modify (λ s. record s { spgemms = update s.spgemms descr none })

  -- flagsparseSpGEMM_workEstimation; `size` is the address of the out parameter.
  unfoldable pub work_estimation :
      ℕ
      → Operation
      → Operation
      → ℕ
      → ℕ
      → ℕ
      → ℕ
      → ℕ
      → DataType
      → SpGemmAlg
      → ℕ
      → ℕ
      → ℕ
      → Op m (Unit {0})
  work_estimation handle opA opB alpha mat_a mat_b beta mat_c compute_type alg descr size buffer =
      do
        refuse (size == 0) invalid_value
        validate m handle opA opB alpha mat_a mat_b beta mat_c compute_type alg descr
        a ← gets (λ s. mat_at s mat_a)
        b ← gets (λ s. mat_at s mat_b)
        modify (set_cell size (buffer1_bytes a.rows a.nnz))
        if buffer == 0
            then pure tt
            else if eq_ℤ a.rows (pos 0)
            then modify
                (change_descr m descr (λ d. record d { estimated = true; buffer1 = buffer }))
            else do
              e ← estimate m a b
              memcpy_h2d m buffer (bytes_of32 e.rw)
              if lt_ℤ (pos 0) a.nnz
                  then memcpy_h2d m (buffer + rows_bytes a.rows) (bytes_of32 e.a_pref)
                  else pure tt
              modify (change_descr m descr (estimated_descr m buffer mat_a mat_b a e))

  -- flagsparseSpGEMM_compute
  unfoldable pub compute :
      ℕ
      → Operation
      → Operation
      → ℕ
      → ℕ
      → ℕ
      → ℕ
      → ℕ
      → DataType
      → SpGemmAlg
      → ℕ
      → ℕ
      → ℕ
      → Op m (Unit {0})
  compute handle opA opB alpha mat_a mat_b beta mat_c compute_type alg descr size buffer = do
    refuse (size == 0) invalid_value
    validate m handle opA opB alpha mat_a mat_b beta mat_c compute_type alg descr
    a ← gets (λ s. mat_at s mat_a)
    b ← gets (λ s. mat_at s mat_b)
    d ← gets (λ s. spgemm_at s descr)
    refuse_with handle (not d.estimated)
        "flagsparseSpGEMM_compute requires a completed workEstimation (the one called WITH a buffer, not the sizing call)."
        invalid_value
    modify (set_cell size (buffer2_bytes a.rows))
    if buffer == 0
        then pure tt
        else if eq_ℤ a.rows (pos 0)
        then (do
          modify (set_nnz m mat_c (pos 0))
          modify (change_descr m descr (λ e. record e { computed = true })))
        else do
          bucket ← serve m handle (pick_bucket buckets d.max_row_work)
          host_nnz ← count_entries m handle a b d bucket compute_type buffer
          derive_offsets m mat_c descr a host_nnz buffer

  -- flagsparseSpGEMM_copy
  unfoldable pub copy :
      ℕ → Operation → Operation → ℕ → ℕ → ℕ → ℕ → ℕ → DataType → SpGemmAlg → ℕ → Op m (Unit {0})
  copy handle opA opB alpha mat_a mat_b beta mat_c compute_type alg descr = do
    validate m handle opA opB alpha mat_a mat_b beta mat_c compute_type alg descr
    a ← gets (λ s. mat_at s mat_a)
    b ← gets (λ s. mat_at s mat_b)
    c ← gets (λ s. mat_at s mat_c)
    d ← gets (λ s. spgemm_at s descr)
    refuse_with handle (not d.computed)
        "flagsparseSpGEMM_copy requires a completed compute (the one called WITH a buffer)."
        invalid_value
    refuse_with handle (c.offsets == 0)
        "C has no arrays yet: read its size with flagsparseSpMatGetSize, allocate, then attach them with flagsparseCsrSetPointers."
        invalid_value
    if eq_ℤ a.rows (pos 0) || eq_ℤ c.nnz (pos 0) then pure tt else do
      memcpy_h2d m c.offsets (offset_bytes c.offsets_type d.host_indptr)
      bucket ← serve_fill m (pick_bucket fill_buckets d.max_row_nnz)
      fill_entries m handle a b c d bucket compute_type
      sort_entries m c d compute_type

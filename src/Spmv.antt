-- ===== src/Spmv.antt =====
-- src/ops/spmv.cpp: y = alpha * op(A) * x + beta * y for CSR, COO, CSC and BSR.
-- `Checks` has the checks and the scalars, `Routes` the launches; this file has the dispatch and
-- the three entry points.
pub mod Checks
pub mod Accepts
pub mod Agreement
pub mod Launches
pub mod Passes
pub mod Routes
pub mod Shared
pub mod Signatures
pub mod Sizes
use cwapper.Base.{
  ℕ, zero, suc, ◌*◌, ℤ, pos, Bool, ◌||◌, ◌==◌, eq_ℤ, lt_ℤ, le_ℤ, pos_part, if◌then◌else◌, true,
  false, not,
}
use cwapper.Types.{
  Operation, DataType, SpMvAlg, Format, csr, csc, coo, bsr, blocked_ell, sliced_ell, invalid_value,
  is_coo, spmv_coo_alg2,
}
use cwapper.Descr.{SpMatDescr, DnVecDescr}
use cwapper.Exec.{pure, gets, modify, refuse, ◌>>=◌, ◌>>◌}
use cwapper.Machine.{Machine, State, Op, mat_at, dnvec_at, set_cell}
use cwapper.Meta.{ensure_max_row_nnz, build_coo_row_offsets}
use Checks.{Operands, validate, resolve_operands}
use Routes.{run_csr, run_coo, run_csc, run_bsr}

abbrev is_coo_alg2 : SpMvAlg → Bool
is_coo_alg2 spmv_coo_alg2 = true
is_coo_alg2 _ = false

module _ (m : Machine) where
  unfoldable pub dispatch :
      Format
      → ℕ
      → Operation
      → ℕ
      → DnVecDescr
      → DnVecDescr
      → Operands
      → ℕ
      → SpMvAlg
      → Op m (Unit {0})
  dispatch coo handle opA a x y ops buffer alg = run_coo m handle a x y ops buffer (is_coo_alg2 alg)
  dispatch csc handle opA a x y ops buffer alg = run_csc m handle opA a x y ops
  dispatch bsr handle opA a x y ops buffer alg = run_bsr m handle opA a x y ops
  dispatch _ handle opA a x y ops buffer alg = run_csr m handle a x y ops

  unfoldable pub run : ℕ → Operation → ℕ → ℕ → ℕ → ℕ → ℕ → DataType → SpMvAlg → ℕ → Op m (Unit {0})
  run handle opA alpha a vec_x beta vec_y compute_type alg buffer = do
    d ← gets (λ s. mat_at s a)
    x ← gets (λ s. dnvec_at s vec_x)
    y ← gets (λ s. dnvec_at s vec_y)
    ops ← resolve_operands m handle alpha beta y compute_type d
    if eq_ℤ ops.y_len (pos 0) then pure tt else dispatch d.format handle opA a x y ops buffer alg

  -- flagsparseSpMV_bufferSize; `size` is the address of the out parameter.
  unfoldable pub buffer_size : ℕ → Operation → ℕ → ℕ → ℕ → DataType → SpMvAlg → ℕ → Op m (Unit {0})
  buffer_size handle opA a vec_x vec_y compute_type alg size = do
    refuse (size == 0) invalid_value
    modify (set_cell size 0)
    validate m handle opA a vec_x vec_y compute_type alg
    d ← gets (λ s. mat_at s a)
    if is_coo d.format then modify (set_cell size (suc (pos_part d.rows) * 4)) else pure tt

  -- flagsparseSpMV_preprocess
  unfoldable pub preprocess : ℕ → Operation → ℕ → ℕ → ℕ → DataType → SpMvAlg → ℕ → Op m (Unit {0})
  preprocess handle opA a vec_x vec_y compute_type alg buffer = do
    validate m handle opA a vec_x vec_y compute_type alg
    d ← gets (λ s. mat_at s a)
    if is_coo d.format
        then (if eq_ℤ d.rows (pos 0)
            then pure tt
            else do refuse (buffer == 0) invalid_value; build_coo_row_offsets m a buffer)
        else (do ensure_max_row_nnz m a; pure tt)

  -- flagsparseSpMV
  unfoldable pub spmv : ℕ → Operation → ℕ → ℕ → ℕ → ℕ → ℕ → DataType → SpMvAlg → ℕ → Op m (Unit {0})
  spmv handle opA alpha a vec_x beta vec_y compute_type alg buffer = do
    validate m handle opA a vec_x vec_y compute_type alg
    run handle opA alpha a vec_x beta vec_y compute_type alg buffer

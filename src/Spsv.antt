-- ===== src/Spsv.antt =====
-- src/ops/spsv.cpp: op(A) * y = alpha * x for a triangular A, by descriptor, analysis and solve.
-- `Checks` has the validation and the layout of the scratch, `Routes` the launches; this file has
-- the steps of analysis and solve and the entry points.
pub mod Agreement
pub mod Checks
pub mod Layout
pub mod Phases
pub mod Routes
pub mod Signatures
use cwapper.Base.{
  ℕ, suc, ◌+◌, ◌*◌, ℤ, pos, Bool, true, false, not, ◌&&◌, ◌||◌, String, none, some, ◌==◌, eq_ℤ,
  lt_ℤ, pos_part, if◌then◌else◌,
}
use cwapper.Types.{Operation, DataType, SpSvAlg, invalid_value, alloc_failed, is_coo, is_sliced_ell}
use cwapper.Descr.{SpMatDescr, SpSvDescr, new_spsv}
use cwapper.Exec.{Result, ok, err, pure, fail, gets, modify, refuse, ◌>>=◌, ◌>>◌}
use cwapper.Machine.{
  Machine, State, Op, mat_at, dnvec_at, spsv_at, context_at, set_spsv, set_cell, set_error, update,
  refuse_with,
}
use cwapper.Adaptor.{memset_device}
use cwapper.Jit.{run_launch}
use cwapper.Scalars.{read_scalar}
use cwapper.Meta.{build_coo_row_offsets, check_csr_columns_sorted}
use Checks.{validate, scratch_bytes, flags_bytes, csr_view_of_coo}
use Routes.{csr_request, sell_request, sell_units, resolve_worker_count}

module _ (m : Machine) where
  -- if (Status s = f()) { ctx(handle)->last_error = text; return s; }
  unfoldable pub or_report : {A : Type 0} → ℕ → String → Op m A → Op m A
  or_report handle text f s =
      let (r, t) = f s in elim r [ ok a ↦ (ok a, t) | err e ↦ (err e, set_error handle text t) ]

  unfoldable pub create_descr : ℕ → ℕ → Op m (Unit {0})
  create_descr descr p = do
    refuse (descr == 0) invalid_value
    modify (set_cell descr 0)
    refuse (p == 0) alloc_failed
    modify (set_spsv p new_spsv)
    modify (set_cell descr p)

  unfoldable pub destroy_descr : ℕ → Op m (Unit {0})
  destroy_descr descr = do
    refuse (descr == 0) invalid_value
    modify (λ s. record s { spsvs = update s.spsvs descr none })

  -- flagsparseSpSV_bufferSize; `size` is the address of the out parameter.
  unfoldable pub buffer_size :
      ℕ → Operation → ℕ → ℕ → ℕ → DataType → SpSvAlg → ℕ → ℕ → Op m (Unit {0})
  buffer_size handle op a vec_x vec_y compute_type alg descr size = do
    refuse (size == 0) invalid_value
    modify (set_cell size 0)
    validate m handle op a vec_x vec_y compute_type alg descr
    d ← gets (λ s. mat_at s a)
    modify (set_cell size (scratch_bytes d))

  -- The descriptor as a successful analysis leaves it.
  abbrev pub analysed_descr : ℕ → ℕ → Operation → SpSvAlg → SpSvDescr
  analysed_descr buffer a op alg = record {
    buffer = buffer;
    analysed_matrix = a;
    analysed_op = op;
    analysed_alg = alg;
    analysed = true;
  }

  -- The matrix whose column order is checked: a COO matrix by the offsets built into the scratch.
  unfoldable pub checked_view : ℕ → SpMatDescr → ℕ → Op m SpMatDescr
  checked_view a d buffer =
      let offsets = buffer + flags_bytes d in
      if is_coo d.format && lt_ℤ (pos 0) d.rows
      then (do
        build_coo_row_offsets m a offsets
        built ← gets (λ s. mat_at s a)
        pure (csr_view_of_coo built offsets))
      else pure d

  -- flagsparseSpSV_analysis
  unfoldable pub analysis : ℕ → Operation → ℕ → ℕ → ℕ → DataType → SpSvAlg → ℕ → ℕ → Op m (Unit {0})
  analysis handle op a vec_x vec_y compute_type alg descr buffer = do
    validate m handle op a vec_x vec_y compute_type alg descr
    d ← gets (λ s. mat_at s a)
    refuse (lt_ℤ (pos 0) d.rows && buffer == 0) invalid_value
    if is_sliced_ell d.format then modify (set_spsv descr (analysed_descr buffer a op alg)) else do
      checked ← checked_view a d buffer
      or_report handle "SpSV needs column indices sorted ascending within each row."
          (check_csr_columns_sorted m checked)
      modify (set_spsv descr (analysed_descr buffer a op alg))

  -- The launch at the end of `solve`, by format.
  unfoldable pub solve_launch : ℕ → ℕ → ℕ → ℕ → DataType → SpSvDescr → ℕ × ℕ → Op m (Unit {0})
  solve_launch handle a vec_x vec_y compute_type e alpha = do
    d ← gets (λ s. mat_at s a)
    x ← gets (λ s. dnvec_at s vec_x)
    y ← gets (λ s. dnvec_at s vec_y)
    c ← gets (λ s. context_at s handle)
    if is_sliced_ell d.format
        then (do
          workers ← resolve_worker_count m (sell_units d e.analysed_alg)
          run_launch m handle
              (sell_request m c.stream d x y compute_type e.analysed_alg e.buffer alpha workers))
        else do
          let view = if is_coo d.format then csr_view_of_coo d (e.buffer + flags_bytes d) else d
          workers ← resolve_worker_count m d.rows
          run_launch m handle (csr_request m c.stream view x y compute_type e.buffer alpha workers)

  -- solve: both branches clear the ready flags and the row counter, and nothing behind them.
  unfoldable pub solve_analysed : ℕ → ℕ → ℕ → ℕ → ℕ → DataType → SpSvDescr → Op m (Unit {0})
  solve_analysed handle alpha a vec_x vec_y compute_type e = do
    refuse_with handle (not e.analysed || e.buffer == 0)
        "flagsparseSpSV_solve requires flagsparseSpSV_analysis first: the solve takes no externalBuffer, so the descriptor holds it."
        invalid_value
    refuse_with handle (not (e.analysed_matrix == a))
        "this SpSV descriptor was analysed for a different matrix; call flagsparseSpSV_analysis again."
        invalid_value
    alpha_value ← read_scalar m handle alpha compute_type
    d ← gets (λ s. mat_at s a)
    if eq_ℤ d.rows (pos 0) then pure tt else do
      memset_device m e.buffer 0 (flags_bytes d)
      solve_launch handle a vec_x vec_y compute_type e alpha_value

  -- flagsparseSpSV_solve
  unfoldable pub solve : ℕ → Operation → ℕ → ℕ → ℕ → ℕ → DataType → SpSvAlg → ℕ → Op m (Unit {0})
  solve handle op alpha a vec_x vec_y compute_type alg descr = do
    validate m handle op a vec_x vec_y compute_type alg descr
    e ← gets (λ s. spsv_at s descr)
    solve_analysed handle alpha a vec_x vec_y compute_type e

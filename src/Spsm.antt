-- ===== src/Spsm.antt =====
-- src/ops/spsm.cpp: A * C = alpha * op(B) for a triangular A, by descriptor, analysis and solve.
-- `Checks` has the validation, `Layout` the scratch, `Requests` the launches; this file has the
-- steps of analysis and solve and the entry points.
pub mod Agreement
pub mod Checks
pub mod Layout
pub mod Phases
pub mod Regions
pub mod Requests
use cwapper.Base.{
  ℕ, suc, ◌+◌, ◌*◌, ℤ, pos, ◌*ℤ◌, Bool, not, ◌&&◌, ◌||◌, none, ◌==◌, eq_ℤ, lt_ℤ, pos_part,
  if◌then◌else◌,
}
use cwapper.Types.{
  Operation, DataType, SpSmAlg, invalid_value, alloc_failed, is_coo, is_complex, component_dtype,
}
use cwapper.Descr.{SpMatDescr, DnMatDescr, SpSmDescr, new_spsm}
use cwapper.Exec.{pure, gets, modify, refuse, ◌>>=◌, ◌>>◌}
use cwapper.Machine.{
  Machine, Op, mat_at, dnmat_at, spsm_at, context_at, set_spsm, set_cell, update, refuse_with,
}
use cwapper.Adaptor.{memset_device}
use cwapper.Jit.{run_launch}
use cwapper.Scalars.{read_scalar}
use cwapper.Meta.{build_coo_row_offsets}
use cwapper.Prologue.{Block, copy_dense}
use cwapper.Strides.{DenseStrides, strides_of, op_strides, in_units}
use cwapper.Spsv.Checks.{csr_view_of_coo}
use Checks.{validate}
use Layout.{Scratch, plan_scratch}
use Requests.{diag_request, polling_request}

-- 2 components in a complex element, 1 otherwise.
abbrev pub unit_of : DataType → ℤ
unit_of compute_type = if is_complex compute_type then pos 2 else pos 1

-- A block of n rows and n_rhs columns, for copy_dense.
abbrev pub block_of : ℕ → DataType → ℤ → ℤ → DenseStrides → Block
block_of values compute_type n n_rhs t = record {
  values = values;
  component_type = component_dtype compute_type;
  complex_op = is_complex compute_type;
  n_rows = n;
  n_cols = n_rhs;
  stride_m = t.row;
  stride_n = t.col;
}

-- The work array is packed by rows.
abbrev pub work_strides : DataType → ℤ → DenseStrides
work_strides compute_type n_rhs = record {
  row = n_rhs *ℤ unit_of compute_type;
  col = unit_of compute_type;
}

-- The descriptor as a successful analysis leaves it.
abbrev pub analysed_descr : ℕ → ℕ → SpSmDescr
analysed_descr buffer mat_a = record {
  buffer = buffer;
  analysed_matrix = mat_a;
  analysed = Bool.true;
}

module _ (m : Machine) where
  unfoldable pub create_descr : ℕ → ℕ → Op m (Unit {0})
  create_descr descr p = do
    refuse (descr == 0) invalid_value
    modify (set_cell descr 0)
    refuse (p == 0) alloc_failed
    modify (set_spsm p new_spsm)
    modify (set_cell descr p)

  unfoldable pub destroy_descr : ℕ → Op m (Unit {0})
  destroy_descr descr = do
    refuse (descr == 0) invalid_value
    modify (λ s. record s { spsms = update s.spsms descr none })

  -- flagsparseSpSM_bufferSize; `size` is the address of the out parameter.
  unfoldable pub buffer_size :
      ℕ → Operation → Operation → ℕ → ℕ → ℕ → DataType → SpSmAlg → ℕ → ℕ → Op m (Unit {0})
  buffer_size handle opA opB mat_a mat_b mat_c compute_type alg descr size = do
    refuse (size == 0) invalid_value
    modify (set_cell size 0)
    validate m handle opA opB mat_a mat_b mat_c compute_type alg descr
    a ← gets (λ s. mat_at s mat_a)
    c ← gets (λ s. dnmat_at s mat_c)
    let plan = plan_scratch a.rows c.cols compute_type
    modify (set_cell size plan.total)
    if is_coo a.format
        then modify (set_cell size (plan.total + suc (pos_part a.rows) * 4))
        else pure tt

  unfoldable pub extract_diag : ℕ → SpMatDescr → ℕ → DataType → Op m (Unit {0})
  extract_diag handle a diag compute_type = do
    h ← gets (λ s. context_at s handle)
    run_launch m handle (diag_request m h.stream a diag compute_type)

  -- The matrix that the analysis reads: a COO matrix by the offsets built behind the scratch.
  unfoldable pub analysed_view : ℕ → SpMatDescr → ℕ → Op m SpMatDescr
  analysed_view mat_a a offsets =
      if is_coo a.format
      then (do
        build_coo_row_offsets m mat_a offsets
        built ← gets (λ s. mat_at s mat_a)
        pure (csr_view_of_coo built offsets))
      else pure a

  -- flagsparseSpSM_analysis
  unfoldable pub analysis :
      ℕ → Operation → Operation → ℕ → ℕ → ℕ → DataType → SpSmAlg → ℕ → ℕ → Op m (Unit {0})
  analysis handle opA opB mat_a mat_b mat_c compute_type alg descr buffer = do
    validate m handle opA opB mat_a mat_b mat_c compute_type alg descr
    a ← gets (λ s. mat_at s mat_a)
    c ← gets (λ s. dnmat_at s mat_c)
    refuse (lt_ℤ (pos 0) a.rows && buffer == 0) invalid_value
    if eq_ℤ a.rows (pos 0) then modify (set_spsm descr (analysed_descr buffer mat_a)) else do
      let plan = plan_scratch a.rows c.cols compute_type
      view ← analysed_view mat_a a (buffer + plan.total)
      extract_diag handle view (buffer + plan.diag_off) compute_type
      modify (set_spsm descr (analysed_descr buffer mat_a))

  -- `solve` from the scratch on: B to the work array, the kernel, and the work array to C.
  unfoldable pub solve_in :
      ℕ → Operation → SpMatDescr → DnMatDescr → DnMatDescr → DataType → ℕ → ℕ × ℕ → Op m (Unit {0})
  solve_in handle opB a b c compute_type base alpha = do
    let plan = plan_scratch a.rows c.cols compute_type
    let unit = unit_of compute_type
    let work = base + plan.work_off
    let done = base + plan.done_off
    let view = if is_coo a.format then csr_view_of_coo a (base + plan.total) else a
    let packed = work_strides compute_type c.cols
    let bs = in_units unit (op_strides opB b)
    copy_dense m handle b.values (block_of work compute_type a.rows c.cols packed) bs.row bs.col
    memset_device m done 0 plan.done_bytes
    h ← gets (λ s. context_at s handle)
    run_launch m handle
        (polling_request m h.stream view c.cols work done (base + plan.diag_off) compute_type alpha)
    copy_dense m handle work
        (block_of c.values compute_type a.rows c.cols (in_units unit (strides_of c))) packed.row
        packed.col

  unfoldable pub solve_analysed :
      ℕ → Operation → ℕ → ℕ → ℕ → ℕ → DataType → SpSmDescr → Op m (Unit {0})
  solve_analysed handle opB alpha mat_a mat_b mat_c compute_type d = do
    refuse_with handle (not d.analysed || d.buffer == 0)
        "flagsparseSpSM_solve requires flagsparseSpSM_analysis first: the solve takes no externalBuffer, so the descriptor holds it."
        invalid_value
    refuse_with handle (not (d.analysed_matrix == mat_a))
        "this SpSM descriptor was analysed for a different matrix; call flagsparseSpSM_analysis again."
        invalid_value
    alpha_v ← read_scalar m handle alpha compute_type
    a ← gets (λ s. mat_at s mat_a)
    b ← gets (λ s. dnmat_at s mat_b)
    c ← gets (λ s. dnmat_at s mat_c)
    if eq_ℤ a.rows (pos 0) || eq_ℤ c.cols (pos 0)
        then pure tt
        else solve_in handle opB a b c compute_type d.buffer alpha_v

  -- flagsparseSpSM_solve
  unfoldable pub solve :
      ℕ → Operation → Operation → ℕ → ℕ → ℕ → ℕ → DataType → SpSmAlg → ℕ → Op m (Unit {0})
  solve handle opA opB alpha mat_a mat_b mat_c compute_type alg descr = do
    validate m handle opA opB mat_a mat_b mat_c compute_type alg descr
    d ← gets (λ s. spsm_at s descr)
    solve_analysed handle opB alpha mat_a mat_b mat_c compute_type d

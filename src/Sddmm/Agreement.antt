-- ===== src/Sddmm/Agreement.antt =====
-- The launches of src/ops/sddmm.cpp over a whole call.
use cwapper.Base.{ℕ, refl, arith}
use cwapper.Types.{Operation, DataType, SddmmAlg, IsReal, triton_dtype}
use cwapper.Descr.{SpMatDescr, DnMatDescr}
use cwapper.Launch.{Agrees, agrees}
use cwapper.Exec.{modify}
use cwapper.Exec.Keeps.{Keeps, Keeps-bind-Accepts, Keeps-modify, keeps_rules}
use cwapper.Exec.Accepts.{Accepts, accepts_rules}
use cwapper.Machine.{Machine, State}
use cwapper.Frame.{IsFrame, frame_steps, real_of, run_launch-Keeps}
use cwapper.Sddmm.{
  row_ids_request, product_request, set_row_ids_buffer, build_row_ids, ensure_row_ids, run,
  preprocess, sddmm,
}
use cwapper.Sddmm.Checks.{scalar_of, read_scalar, check_objects, validate}

module _ (m : Machine) where
  row_ids_request-Agrees :
      (stream : ℕ) (c : SpMatDescr) (buffer : ℕ) → Agrees (row_ids_request m stream c buffer)
  unfolding row_ids_request agrees
  row_ids_request-Agrees stream c buffer = refl

  product_request-Agrees :
      (stream : ℕ) (opA opB : Operation) (a b : DnMatDescr) (c : SpMatDescr) (t : DataType)
      (buffer alpha beta : ℕ)
      → IsReal t
      → Agrees (product_request m stream opA opB a b c t buffer alpha beta)
  unfolding product_request agrees triton_dtype
  product_request-Agrees stream opA opB a b c t buffer alpha beta real = ground arith

  scalar_of-Keeps : (P : State m.Mem → Type 0) (t : DataType) (p : ℕ) → Keeps P (scalar_of m t p)
  unfolding scalar_of
  scalar_of-Keeps P t p = record { at = λ s h. ground arith }

  read_scalar-Keeps :
      (P : State m.Mem → Type 0) (handle p : ℕ) (t : DataType) → Keeps P (read_scalar m handle p t)
  unfolding read_scalar
  read_scalar-Keeps P handle p t = search (keeps_rules, scalar_of-Keeps) depth 9

  check_objects-Keeps :
      (P : State m.Mem → Type 0) (a b : DnMatDescr) (c : SpMatDescr) (opA opB : Operation)
      (t : DataType)
      → Keeps P (check_objects m a b c opA opB t)
  unfolding check_objects
  check_objects-Keeps P a b c opA opB t = search keeps_rules depth 12

  Accepts-check_objects :
      (a b : DnMatDescr) (c : SpMatDescr) (opA opB : Operation) (t : DataType) (s : State m.Mem)
      → Accepts (IsReal t) (check_objects m a b c opA opB t) s
  unfolding check_objects
  Accepts-check_objects a b c opA opB t s = search (accepts_rules, real_of) depth 12

  Accepts-validate :
      (handle : ℕ) (opA opB : Operation) (mat_a mat_b mat_c : ℕ) (t : DataType) (alg : SddmmAlg)
      (s : State m.Mem)
      → Accepts (IsReal t) (validate m handle opA opB mat_a mat_b mat_c t alg) s
  unfolding validate
  Accepts-validate handle opA opB mat_a mat_b mat_c t alg s =
      search (accepts_rules, Accepts-check_objects) depth 12

  pub validate-Keeps :
      (P : State m.Mem → Type 0) (handle : ℕ) (opA opB : Operation) (mat_a mat_b mat_c : ℕ)
      (t : DataType) (alg : SddmmAlg)
      → Keeps P (validate m handle opA opB mat_a mat_b mat_c t alg)
  unfolding validate
  validate-Keeps P handle opA opB mat_a mat_b mat_c t alg =
      search (keeps_rules, check_objects-Keeps) depth 12

-- For a property of the state that also survives the mark of a row-ids buffer.
module _ (m : Machine) (mat_c : ℕ) (P : State m.Mem → Type 0) (frame : IsFrame m mat_c P)
    (marked : (b : ℕ) (s : State m.Mem) → P s → P (set_row_ids_buffer m mat_c b s)) where
  mark-Keeps : (b : ℕ) → Keeps P (modify (set_row_ids_buffer m mat_c b))
  mark-Keeps b = Keeps-modify (set_row_ids_buffer m mat_c b) (marked b)

  build_row_ids-Keeps : (handle buffer : ℕ) → Keeps P (build_row_ids m handle mat_c buffer)
  unfolding build_row_ids
  build_row_ids-Keeps handle buffer =
      search (frame_steps, run_launch-Keeps, row_ids_request-Agrees, frame) depth 12

  ensure_row_ids-Keeps : (handle buffer : ℕ) → Keeps P (ensure_row_ids m handle mat_c buffer)
  unfolding ensure_row_ids
  ensure_row_ids-Keeps handle buffer =
      search (frame_steps, build_row_ids-Keeps, mark-Keeps, frame) depth 12

  run-Keeps :
      (handle : ℕ) (opA opB : Operation) (alpha mat_a mat_b beta : ℕ) (t : DataType) (buffer : ℕ)
      → IsReal t
      → Keeps P (run m handle opA opB alpha mat_a mat_b beta mat_c t buffer)
  unfolding run
  run-Keeps handle opA opB alpha mat_a mat_b beta t buffer real =
      search
        (
          frame_steps, read_scalar-Keeps, ensure_row_ids-Keeps, run_launch-Keeps,
          product_request-Agrees, frame, real,
        )
        depth 16

  pub preprocess-Keeps :
      (handle : ℕ) (opA opB : Operation) (mat_a mat_b : ℕ) (t : DataType) (alg : SddmmAlg)
      (buffer : ℕ)
      → Keeps P (preprocess m handle opA opB mat_a mat_b mat_c t alg buffer)
  unfolding preprocess
  preprocess-Keeps handle opA opB mat_a mat_b t alg buffer =
      search (frame_steps, validate-Keeps, build_row_ids-Keeps, mark-Keeps, frame) depth 16

  pub sddmm-Keeps :
      (handle : ℕ) (opA opB : Operation) (alpha mat_a mat_b beta : ℕ) (t : DataType)
      (alg : SddmmAlg) (buffer : ℕ)
      → Keeps P (sddmm m handle opA opB alpha mat_a mat_b beta mat_c t alg buffer)
  unfolding sddmm
  sddmm-Keeps handle opA opB alpha mat_a mat_b beta t alg buffer =
      Keeps-bind-Accepts _ _ (validate-Keeps m P handle opA opB mat_a mat_b mat_c t alg)
        (Accepts-validate m handle opA opB mat_a mat_b mat_c t alg)
        (λ _ real. run-Keeps handle opA opB alpha mat_a mat_b beta t buffer real)

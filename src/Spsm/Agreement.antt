-- ===== src/Spsm/Agreement.antt =====
-- The launches of src/ops/spsm.cpp over a whole call.
use cwapper.Base.{ℕ, ℤ, refl, arith}
use cwapper.Types.{Operation, DataType, SpSmAlg, IsReal, component_dtype, triton_dtype}
use cwapper.Descr.{SpMatDescr, DnMatDescr, SpSmDescr}
use cwapper.Launch.{Agrees, agrees}
use cwapper.Exec.{modify}
use cwapper.Exec.Keeps.{Keeps, Keeps-bind-Accepts, keeps_rules}
use cwapper.Exec.Accepts.{Accepts, accepts_rules}
use cwapper.Machine.Steps.{Accepts-refuse_with}
use cwapper.Machine.{Machine, State, set_spsm}
use cwapper.Frame.{
  IsFrame, frame_steps, real_of, run_launch-Keeps, read_scalar-Keeps, build_coo_row_offsets-Keeps,
  copy_dense-Keeps, memset_device-Keeps,
}
use cwapper.Spsm.{extract_diag, analysed_view, analysis, solve_in, solve_analysed, solve}
use cwapper.Spsm.Checks.{check_objects, validate}
use cwapper.Spsm.Requests.{diag_request, polling_request}

module _ (m : Machine) where
  diag_request-Agrees :
      (stream : ℕ) (a : SpMatDescr) (diag : ℕ) (t : DataType)
      → Agrees (diag_request m stream a diag t)
  unfolding diag_request agrees
  diag_request-Agrees stream a diag t = refl

  polling_request-Agrees :
      (stream : ℕ) (a : SpMatDescr) (n_rhs : ℤ) (work done diag : ℕ) (t : DataType) (alpha : ℕ × ℕ)
      → IsReal (component_dtype t)
      → Agrees (polling_request m stream a n_rhs work done diag t alpha)
  unfolding polling_request agrees triton_dtype
  polling_request-Agrees stream a n_rhs work done diag t alpha real = ground arith

  module _ (handle : ℕ) (a : SpMatDescr) (b c : DnMatDescr) (opA opB : Operation)
      (t : DataType) where
    check_objects-Keeps :
        (p : ℕ) (P : State m.Mem → Type 0)
        → IsFrame m p P
        → Keeps P (check_objects m handle a b c opA opB t)
    unfolding check_objects
    check_objects-Keeps p P frame = search (frame_steps, frame) depth 20

    Accepts-check_objects :
        (s : State m.Mem)
        → Accepts (IsReal (component_dtype t)) (check_objects m handle a b c opA opB t) s
    unfolding check_objects
    Accepts-check_objects s = search (accepts_rules, Accepts-refuse_with, real_of) depth 20

  module _ (handle : ℕ) (opA opB : Operation) (mat_a mat_b mat_c : ℕ) (t : DataType) (alg : SpSmAlg)
      (descr : ℕ) where
    pub validate-Keeps :
        (p : ℕ) (P : State m.Mem → Type 0)
        → IsFrame m p P
        → Keeps P (validate m handle opA opB mat_a mat_b mat_c t alg descr)
    unfolding validate
    validate-Keeps p P frame = search (keeps_rules, check_objects-Keeps, frame) depth 12

    Accepts-validate :
        (s : State m.Mem)
        → Accepts
            (IsReal (component_dtype t))
            (validate m handle opA opB mat_a mat_b mat_c t alg descr)
            s
    unfolding validate
    Accepts-validate s = search (accepts_rules, Accepts-check_objects) depth 12

module _ (m : Machine) (mat_a : ℕ) (P : State m.Mem → Type 0) (frame : IsFrame m mat_a P) where
  pub extract_diag-Keeps :
      (handle : ℕ) (a : SpMatDescr) (diag : ℕ) (t : DataType)
      → Keeps P (extract_diag m handle a diag t)
  unfolding extract_diag
  extract_diag-Keeps handle a diag t =
      search (keeps_rules, run_launch-Keeps, diag_request-Agrees, frame) depth 9

  pub analysed_view-Keeps :
      (a : SpMatDescr) (offsets : ℕ) → Keeps P (analysed_view m mat_a a offsets)
  unfolding analysed_view
  analysed_view-Keeps a offsets = search (keeps_rules, build_coo_row_offsets-Keeps, frame) depth 9

  solve_in-Keeps :
      (handle : ℕ) (opB : Operation) (a : SpMatDescr) (b c : DnMatDescr) (t : DataType) (base : ℕ)
      (alpha : ℕ × ℕ)
      → IsReal (component_dtype t)
      → Keeps P (solve_in m handle opB a b c t base alpha)
  unfolding solve_in
  solve_in-Keeps handle opB a b c t base alpha real =
      search
        (
          keeps_rules, copy_dense-Keeps, memset_device-Keeps, run_launch-Keeps,
          polling_request-Agrees, frame, real,
        )
        depth 12

  solve_analysed-Keeps :
      (handle : ℕ) (opB : Operation) (alpha mat_b mat_c : ℕ) (t : DataType) (d : SpSmDescr)
      → IsReal (component_dtype t)
      → Keeps P (solve_analysed m handle opB alpha mat_a mat_b mat_c t d)
  unfolding solve_analysed
  solve_analysed-Keeps handle opB alpha mat_b mat_c t d real =
      search (frame_steps, read_scalar-Keeps, solve_in-Keeps, frame, real) depth 16

  pub solve-Keeps :
      (handle : ℕ) (opA opB : Operation) (alpha mat_b mat_c : ℕ) (t : DataType) (alg : SpSmAlg)
      (descr : ℕ)
      → Keeps P (solve m handle opA opB alpha mat_a mat_b mat_c t alg descr)
  unfolding solve
  solve-Keeps handle opA opB alpha mat_b mat_c t alg descr =
      Keeps-bind-Accepts _ _
        (validate-Keeps m handle opA opB mat_a mat_b mat_c t alg descr mat_a P frame)
        (Accepts-validate m handle opA opB mat_a mat_b mat_c t alg descr)
        (λ _ real. search (keeps_rules, solve_analysed-Keeps, real) depth 6)

  -- The analysis, for a property that also survives its mark on the descriptor.
  pub analysis-Keeps :
      (handle : ℕ) (opA opB : Operation) (mat_b mat_c : ℕ) (t : DataType) (alg : SpSmAlg)
      (descr buffer : ℕ)
      → ((d : SpSmDescr) → Keeps P (modify (set_spsm descr d)))
      → Keeps P (analysis m handle opA opB mat_a mat_b mat_c t alg descr buffer)
  unfolding analysis
  analysis-Keeps handle opA opB mat_b mat_c t alg descr buffer marked =
      search (keeps_rules, validate-Keeps, analysed_view-Keeps, extract_diag-Keeps, frame, marked)
        depth 16

-- ===== src/Spsv/Agreement.antt =====
-- The launches of src/ops/spsv.cpp over a whole call.
use cwapper.Base.{ℕ, ℤ, String}
use cwapper.Types.{Operation, DataType, SpSvAlg, IsReal, component_dtype}
use cwapper.Descr.{SpMatDescr, DnVecDescr, SpSvDescr}
use cwapper.Launch.{Agrees}
use cwapper.Exec.{Result, ok, err, modify}
use cwapper.Exec.Keeps.{Keeps, Keeps-bind-Accepts, keeps_rules}
use cwapper.Exec.Accepts.{Accepts, Accepts-now, accepts_rules}
use cwapper.Machine.{Machine, State, Op, set_spsv}
use cwapper.Machine.Steps.{Accepts-refuse_with}
use cwapper.Frame.{
  IsFrame, frame_steps, real_of, run_launch-Keeps, read_scalar-Keeps, build_coo_row_offsets-Keeps,
  check_csr_columns_sorted-Keeps, memset_device-Keeps, warp_size-Keeps, max_threads-Keeps,
  multiprocessor_count-Keeps,
}
use cwapper.Meta.{check_csr_columns_sorted}
use cwapper.Spsv.{or_report, checked_view, analysis, solve_launch, solve_analysed, solve}
use cwapper.Spsv.Checks.{check_sell, check_objects, validate}
use cwapper.Spsv.Routes.{resolve_worker_count, csr_request, sell_request}
use cwapper.Spsv.Signatures.{csr_request-sell_request}

module _ (m : Machine) (stream : ℕ) (d : SpMatDescr) (x y : DnVecDescr) (t : DataType) (flags : ℕ)
    (alpha : ℕ × ℕ) (workers : ℤ) where
  csr_request-Agrees :
      IsReal (component_dtype t) → Agrees (csr_request m stream d x y t flags alpha workers)
  csr_request-Agrees real =
      (csr_request-sell_request m stream d x y t flags alpha workers real SpSvAlg.spsv_default).0

  sell_request-Agrees :
      (alg : SpSvAlg)
      → IsReal (component_dtype t)
      → Agrees (sell_request m stream d x y t alg flags alpha workers)
  sell_request-Agrees alg real =
      (csr_request-sell_request m stream d x y t flags alpha workers real alg).1

module _ (m : Machine) (a : ℕ) (P : State m.Mem → Type 0) (frame : IsFrame m a P) where
  reported :
      {A : Type 0} (handle : ℕ) (text : String) (r : Result A) (t : State m.Mem)
      → P t
      → P (or_report m handle text (λ s. (r, t)) t).1
  unfolding or_report
  reported handle text (ok v) t h = h
  reported handle text (err e) t h = frame.failure handle text t h

  or_report-Keeps :
      {A : Type 0} (handle : ℕ) (text : String) (g : Op m A)
      → Keeps P g
      → Keeps P (or_report m handle text g)
  unfolding or_report
  or_report-Keeps handle text g k = record {
    at = λ s h. reported handle text (g s).0 (g s).1 (k.at s h);
  }

  check_sell-Keeps : (handle : ℕ) (d : SpMatDescr) → Keeps P (check_sell m handle d)
  unfolding check_sell
  check_sell-Keeps handle d = search (frame_steps, frame) depth 12

  check_objects-Keeps :
      (handle : ℕ) (d : SpMatDescr) (x y : DnVecDescr) (op : Operation) (t : DataType)
      (alg : SpSvAlg)
      → Keeps P (check_objects m handle d x y op t alg)
  unfolding check_objects
  check_objects-Keeps handle d x y op t alg = search (frame_steps, check_sell-Keeps, frame) depth 20

  pub validate-Keeps :
      (handle : ℕ) (op : Operation) (mat vec_x vec_y : ℕ) (t : DataType) (alg : SpSvAlg) (descr : ℕ)
      → Keeps P (validate m handle op mat vec_x vec_y t alg descr)
  unfolding validate
  validate-Keeps handle op mat vec_x vec_y t alg descr =
      search (keeps_rules, check_objects-Keeps) depth 12

  pub checked_view-Keeps : (d : SpMatDescr) (buffer : ℕ) → Keeps P (checked_view m a d buffer)
  unfolding checked_view
  checked_view-Keeps d buffer = search (keeps_rules, build_coo_row_offsets-Keeps, frame) depth 12

  pub checked-Keeps :
      (handle : ℕ) (text : String) (d : SpMatDescr)
      → Keeps P (or_report m handle text (check_csr_columns_sorted m d))
  checked-Keeps handle text d =
      or_report-Keeps handle text (check_csr_columns_sorted m d)
        (check_csr_columns_sorted-Keeps m a P frame d)

  resolve_worker_count-Keeps : (n : ℤ) → Keeps P (resolve_worker_count m n)
  unfolding resolve_worker_count
  resolve_worker_count-Keeps n =
      search (keeps_rules, warp_size-Keeps, max_threads-Keeps, multiprocessor_count-Keeps, frame)
        depth 9

  module _ (handle alpha vec_x vec_y : ℕ) (t : DataType) where
    solve_launch-Keeps :
        (e : SpSvDescr) (v : ℕ × ℕ)
        → IsReal (component_dtype t)
        → Keeps P (solve_launch m handle a vec_x vec_y t e v)
    unfolding solve_launch
    solve_launch-Keeps e v real =
        search
          (
            keeps_rules, resolve_worker_count-Keeps, run_launch-Keeps, csr_request-Agrees,
            sell_request-Agrees, frame, real,
          )
          depth 16

    solve_analysed-Keeps :
        (e : SpSvDescr)
        → IsReal (component_dtype t)
        → Keeps P (solve_analysed m handle alpha a vec_x vec_y t e)
    unfolding solve_analysed
    solve_analysed-Keeps e real =
        search
          (frame_steps, read_scalar-Keeps, memset_device-Keeps, solve_launch-Keeps, frame, real)
          depth 16

module _ (m : Machine) (handle : ℕ) (op : Operation) (a vec_x vec_y : ℕ) (t : DataType)
    (alg : SpSvAlg) (descr : ℕ) where
  Accepts-check_objects :
      (d : SpMatDescr) (x y : DnVecDescr) (s : State m.Mem)
      → Accepts (IsReal (component_dtype t)) (check_objects m handle d x y op t alg) s
  unfolding check_objects
  Accepts-check_objects d x y s =
      search (accepts_rules, Accepts-refuse_with, Accepts-now, real_of) depth 20

  Accepts-validate :
      (s : State m.Mem)
      → Accepts (IsReal (component_dtype t)) (validate m handle op a vec_x vec_y t alg descr) s
  unfolding validate
  Accepts-validate s = search (accepts_rules, Accepts-check_objects) depth 12

  module _ (P : State m.Mem → Type 0) (frame : IsFrame m a P) where
    pub solve-Keeps : (alpha : ℕ) → Keeps P (solve m handle op alpha a vec_x vec_y t alg descr)
    unfolding solve
    solve-Keeps alpha =
        Keeps-bind-Accepts _ _ (validate-Keeps m a P frame handle op a vec_x vec_y t alg descr)
          Accepts-validate
          (λ _ real. search (keeps_rules, solve_analysed-Keeps, frame, real) depth 6)

    -- The analysis, for a property that also survives its mark on the descriptor.
    pub analysis-Keeps :
        (buffer : ℕ)
        → ((d : SpSvDescr) → Keeps P (modify (set_spsv descr d)))
        → Keeps P (analysis m handle op a vec_x vec_y t alg descr buffer)
    unfolding analysis
    analysis-Keeps buffer marked =
        search (keeps_rules, validate-Keeps, checked_view-Keeps, checked-Keeps, frame, marked) depth
          16

-- ===== src/Library/Launches.antt =====
-- The launches of a whole run of the operators of src/ops.
use cwapper.Base.{ℕ, ℤ, sym, subst, All}
use cwapper.Types.{Operation, DataType, SpMvAlg, SpSvAlg, SpMmAlg, SpSmAlg, SddmmAlg}
use cwapper.Descr.{SpSvDescr, SpSmDescr, SpGemmDescr}
use cwapper.Launch.{Agrees}
use cwapper.Exec.{modify}
use cwapper.Exec.Keeps.{Keeps, keeps_rules}
use cwapper.Machine.{Machine, State, Op, set_cell, set_spsv, set_spsm}
use cwapper.Frame.{
  IsFrame, AllAgree, AllAgree-IsFrame, ensure_max_row_nnz-Keeps, build_coo_row_offsets-Keeps,
}
use cwapper.Spmv.{buffer_size as spmv_buffer_size, preprocess as spmv_preprocess}
use cwapper.Spmv.Accepts.{validate-Keeps as spmv_validate-Keeps}
use cwapper.Spmv.Agreement.{spmv-Agrees}
use cwapper.Gather.Agreement.{gather-Keeps, scatter-Keeps}
use cwapper.Spsv.{buffer_size as spsv_buffer_size}
use cwapper.Spsv.Agreement.{
  validate-Keeps as spsv_validate-Keeps, analysis-Keeps as spsv_analysis-Keeps,
  solve-Keeps as spsv_solve-Keeps,
}
use cwapper.Spmm.{buffer_size as spmm_buffer_size}
use cwapper.Spmm.Agreement.{
  validate-Keeps as spmm_validate-Keeps, preprocess-Keeps as spmm_preprocess-Keeps, spmm-Keeps,
}
use cwapper.Sddmm.{buffer_size as sddmm_buffer_size}
use cwapper.Sddmm.Agreement.{
  validate-Keeps as sddmm_validate-Keeps, preprocess-Keeps as sddmm_preprocess-Keeps, sddmm-Keeps,
}
use cwapper.Spsm.{buffer_size as spsm_buffer_size}
use cwapper.Spsm.Agreement.{
  validate-Keeps as spsm_validate-Keeps, analysis-Keeps as spsm_analysis-Keeps,
  solve-Keeps as spsm_solve-Keeps,
}
use cwapper.Spgemm.Steps.{set_nnz, change_descr}
use cwapper.Spgemm.Agreement.{work_estimation-Keeps, compute-Keeps, copy-Keeps}
use cwapper.Library.{
  OperatorCall, Run, calls_gather, calls_scatter, sizes_spmv, prepares_spmv, calls_spmv, sizes_spsv,
  analyses_spsv, solves_spsv, sizes_spmm, prepares_spmm, calls_spmm, sizes_sddmm, prepares_sddmm,
  calls_sddmm, sizes_spsm, analyses_spsm, solves_spsm, estimates, computes, copies, begins, calls,
  between,
}

module _ (m : Machine) where
  sized : (q v : ℕ) → Keeps (AllAgree {Mem = m.Mem}) (modify (set_cell q v))
  sized q v = record { at = λ s h. h }

  changed : (q : ℕ) (f : SpGemmDescr → SpGemmDescr) → Keeps AllAgree (modify (change_descr m q f))
  changed q f = record { at = λ s h. h }

  counted : (q : ℕ) (v : ℤ) → Keeps AllAgree (modify (set_nnz m q v))
  counted q v = record { at = λ s h. h }

  spsv_marked : (q : ℕ) (d : SpSvDescr) → Keeps (AllAgree {Mem = m.Mem}) (modify (set_spsv q d))
  spsv_marked q d = record { at = λ s h. h }

  spsm_marked : (q : ℕ) (d : SpSmDescr) → Keeps (AllAgree {Mem = m.Mem}) (modify (set_spsm q d))
  spsm_marked q d = record { at = λ s h. h }

  module _ (handle : ℕ) (op : Operation) (a x y : ℕ) (t : DataType) (alg : SpMvAlg) where
    spmv_buffer_size-Keeps :
        (size : ℕ) → Keeps AllAgree (spmv_buffer_size m handle op a x y t alg size)
    unfolding spmv_buffer_size
    spmv_buffer_size-Keeps size = search (keeps_rules, sized, spmv_validate-Keeps) depth 12

    spmv_preprocess-Keeps :
        (buffer : ℕ) → Keeps AllAgree (spmv_preprocess m handle op a x y t alg buffer)
    unfolding spmv_preprocess
    spmv_preprocess-Keeps buffer =
        let frame = AllAgree-IsFrame m a in
        search
          (
            keeps_rules, spmv_validate-Keeps, ensure_max_row_nnz-Keeps, build_coo_row_offsets-Keeps,
            frame,
          )
          depth 12

  spsv_buffer_size-Keeps :
      (handle : ℕ) (op : Operation) (a x y : ℕ) (t : DataType) (alg : SpSvAlg) (descr size : ℕ)
      → Keeps AllAgree (spsv_buffer_size m handle op a x y t alg descr size)
  unfolding spsv_buffer_size
  spsv_buffer_size-Keeps handle op a x y t alg descr size =
      let frame = AllAgree-IsFrame m a in
      search (keeps_rules, sized, spsv_validate-Keeps, frame) depth 12

  module _ (handle : ℕ) (opA opB : Operation) (a b c : ℕ) (t : DataType) where
    spmm_buffer_size-Keeps :
        (alg : SpMmAlg) (size : ℕ)
        → Keeps AllAgree (spmm_buffer_size m handle opA opB a b c t alg size)
    unfolding spmm_buffer_size
    spmm_buffer_size-Keeps alg size = search (keeps_rules, sized, spmm_validate-Keeps) depth 12

    sddmm_buffer_size-Keeps :
        (alg : SddmmAlg) (size : ℕ)
        → Keeps AllAgree (sddmm_buffer_size m handle opA opB a b c t alg size)
    unfolding sddmm_buffer_size
    sddmm_buffer_size-Keeps alg size = search (keeps_rules, sized, sddmm_validate-Keeps) depth 12

    spsm_buffer_size-Keeps :
        (alg : SpSmAlg) (descr size : ℕ)
        → Keeps AllAgree (spsm_buffer_size m handle opA opB a b c t alg descr size)
    unfolding spsm_buffer_size
    spsm_buffer_size-Keeps alg descr size =
        let frame = AllAgree-IsFrame m a in
        search (keeps_rules, sized, spsm_validate-Keeps, frame) depth 12

  agreeing : (a : ℕ) → IsFrame m a AllAgree
  agreeing = AllAgree-IsFrame m

  OperatorCall-Keeps : (f : Op m (Unit {0})) → OperatorCall m f → Keeps AllAgree f
  OperatorCall-Keeps _ (calls_gather h y x) = gather-Keeps m 0 AllAgree (agreeing 0) h y x
  OperatorCall-Keeps _ (calls_scatter h x y) = scatter-Keeps m 0 AllAgree (agreeing 0) h x y
  OperatorCall-Keeps _ (sizes_spmv h op a x y t alg n) = spmv_buffer_size-Keeps h op a x y t alg n
  OperatorCall-Keeps _ (prepares_spmv h op a x y t alg n) = spmv_preprocess-Keeps h op a x y t alg n
  OperatorCall-Keeps _ (calls_spmv h op alpha a x beta y t alg n) = record {
    at = spmv-Agrees m h op alpha a x beta y t alg n;
  }
  OperatorCall-Keeps _ (sizes_spsv h op a x y t alg d n) =
      spsv_buffer_size-Keeps h op a x y t alg d n
  OperatorCall-Keeps _ (analyses_spsv h op a x y t alg d n) =
      spsv_analysis-Keeps m h op a x y t alg d AllAgree (agreeing a) n (spsv_marked d)
  OperatorCall-Keeps _ (solves_spsv h op alpha a x y t alg d) =
      spsv_solve-Keeps m h op a x y t alg d AllAgree (agreeing a) alpha
  OperatorCall-Keeps _ (sizes_spmm h opA opB a b c t alg n) =
      spmm_buffer_size-Keeps h opA opB a b c t alg n
  OperatorCall-Keeps _ (prepares_spmm h opA opB a b c t alg n) =
      spmm_preprocess-Keeps m a AllAgree (agreeing a) h opA opB b c t alg n
  OperatorCall-Keeps _ (calls_spmm h opA opB alpha a b beta c t alg n) =
      spmm-Keeps m a AllAgree (agreeing a) h opA opB alpha b beta c t alg n
  OperatorCall-Keeps _ (sizes_sddmm h opA opB a b c t alg n) =
      sddmm_buffer_size-Keeps h opA opB a b c t alg n
  OperatorCall-Keeps _ (prepares_sddmm h opA opB a b c t alg n) =
      sddmm_preprocess-Keeps m c AllAgree (agreeing c) (λ q s k. k) h opA opB a b t alg n
  OperatorCall-Keeps _ (calls_sddmm h opA opB alpha a b beta c t alg n) =
      sddmm-Keeps m c AllAgree (agreeing c) (λ q s k. k) h opA opB alpha a b beta t alg n
  OperatorCall-Keeps _ (sizes_spsm h opA opB a b c t alg d n) =
      spsm_buffer_size-Keeps h opA opB a b c t alg d n
  OperatorCall-Keeps _ (analyses_spsm h opA opB a b c t alg d n) =
      spsm_analysis-Keeps m a AllAgree (agreeing a) h opA opB b c t alg d n (spsm_marked d)
  OperatorCall-Keeps _ (solves_spsm h opA opB alpha a b c t alg d) =
      spsm_solve-Keeps m a AllAgree (agreeing a) h opA opB alpha b c t alg d
  OperatorCall-Keeps _ (estimates h opA opB alpha a b beta c t alg d size n) =
      work_estimation-Keeps m a AllAgree (agreeing a) h opA opB alpha a b beta c t alg d sized
        changed size n
  OperatorCall-Keeps _ (computes h opA opB alpha a b beta c t alg d size n) =
      compute-Keeps m a AllAgree (agreeing a) h opA opB alpha a b beta c t alg d sized changed
        counted size n
  OperatorCall-Keeps _ (copies h opA opB alpha a b beta c t alg d) =
      copy-Keeps m a AllAgree (agreeing a) h opA opB alpha a b beta c t alg d

  -- In every state of a run that starts where every launch made has arguments that agree with its
  -- signature, every launch made has: whatever operators are called, in whatever order and with
  -- whatever arguments, and whatever the application does between the calls, as long as it starts
  -- no kernel through the library.
  pub Run-Agrees : (s t : State m.Mem) → All Agrees s.launches → Run m s t → All Agrees t.launches
  Run-Agrees s _ h begins = h
  Run-Agrees s _ h (calls t f r k) = (OperatorCall-Keeps f k).at t (Run-Agrees s t h r)
  Run-Agrees s _ h (between t u r same) = subst (All Agrees) (sym same) (Run-Agrees s t h r)

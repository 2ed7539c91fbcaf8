-- ===== src/Library.antt =====
-- The operators of src/ops together: their entry points, called in any order on one state.
pub mod Launches
use cwapper.Base.{ℕ, ◌≡◌}
use cwapper.Types.{Operation, DataType, SpMvAlg, SpSvAlg, SpMmAlg, SpSmAlg, SpGemmAlg, SddmmAlg}
use cwapper.Machine.{Machine, State, Op}
use cwapper.Spmv.{spmv, buffer_size as spmv_buffer_size, preprocess as spmv_preprocess}
use cwapper.Gather.{gather, scatter}
use cwapper.Spsv.{buffer_size as spsv_buffer_size, analysis as spsv_analysis, solve as spsv_solve}
use cwapper.Spmm.{spmm, buffer_size as spmm_buffer_size, preprocess as spmm_preprocess}
use cwapper.Sddmm.{sddmm, buffer_size as sddmm_buffer_size, preprocess as sddmm_preprocess}
use cwapper.Spsm.{buffer_size as spsm_buffer_size, analysis as spsm_analysis, solve as spsm_solve}
use cwapper.Spgemm.{work_estimation, compute, copy}

-- One call of an operator's entry point.
pub data OperatorCall (m : Machine) : Op m (Unit {0}) → Type 0 where
  calls_gather : (handle vec_y vec_x : ℕ) → OperatorCall m (gather m handle vec_y vec_x)
  calls_scatter : (handle vec_x vec_y : ℕ) → OperatorCall m (scatter m handle vec_x vec_y)
  sizes_spmv :
      (handle : ℕ) (op : Operation) (a x y : ℕ) (t : DataType) (alg : SpMvAlg) (size : ℕ)
      → OperatorCall m (spmv_buffer_size m handle op a x y t alg size)
  prepares_spmv :
      (handle : ℕ) (op : Operation) (a x y : ℕ) (t : DataType) (alg : SpMvAlg) (buffer : ℕ)
      → OperatorCall m (spmv_preprocess m handle op a x y t alg buffer)
  calls_spmv :
      (handle : ℕ) (op : Operation) (alpha a x beta y : ℕ) (t : DataType) (alg : SpMvAlg)
      (buffer : ℕ)
      → OperatorCall m (spmv m handle op alpha a x beta y t alg buffer)
  sizes_spsv :
      (handle : ℕ) (op : Operation) (a x y : ℕ) (t : DataType) (alg : SpSvAlg) (descr size : ℕ)
      → OperatorCall m (spsv_buffer_size m handle op a x y t alg descr size)
  analyses_spsv :
      (handle : ℕ) (op : Operation) (a x y : ℕ) (t : DataType) (alg : SpSvAlg) (descr buffer : ℕ)
      → OperatorCall m (spsv_analysis m handle op a x y t alg descr buffer)
  solves_spsv :
      (handle : ℕ) (op : Operation) (alpha a x y : ℕ) (t : DataType) (alg : SpSvAlg) (descr : ℕ)
      → OperatorCall m (spsv_solve m handle op alpha a x y t alg descr)
  sizes_spmm :
      (handle : ℕ) (opA opB : Operation) (a b c : ℕ) (t : DataType) (alg : SpMmAlg) (size : ℕ)
      → OperatorCall m (spmm_buffer_size m handle opA opB a b c t alg size)
  prepares_spmm :
      (handle : ℕ) (opA opB : Operation) (a b c : ℕ) (t : DataType) (alg : SpMmAlg) (buffer : ℕ)
      → OperatorCall m (spmm_preprocess m handle opA opB a b c t alg buffer)
  calls_spmm :
      (handle : ℕ) (opA opB : Operation) (alpha a b beta c : ℕ) (t : DataType) (alg : SpMmAlg)
      (buffer : ℕ)
      → OperatorCall m (spmm m handle opA opB alpha a b beta c t alg buffer)
  sizes_sddmm :
      (handle : ℕ) (opA opB : Operation) (a b c : ℕ) (t : DataType) (alg : SddmmAlg) (size : ℕ)
      → OperatorCall m (sddmm_buffer_size m handle opA opB a b c t alg size)
  prepares_sddmm :
      (handle : ℕ) (opA opB : Operation) (a b c : ℕ) (t : DataType) (alg : SddmmAlg) (buffer : ℕ)
      → OperatorCall m (sddmm_preprocess m handle opA opB a b c t alg buffer)
  calls_sddmm :
      (handle : ℕ) (opA opB : Operation) (alpha a b beta c : ℕ) (t : DataType) (alg : SddmmAlg)
      (buffer : ℕ)
      → OperatorCall m (sddmm m handle opA opB alpha a b beta c t alg buffer)
  sizes_spsm :
      (handle : ℕ) (opA opB : Operation) (a b c : ℕ) (t : DataType) (alg : SpSmAlg) (descr size : ℕ)
      → OperatorCall m (spsm_buffer_size m handle opA opB a b c t alg descr size)
  analyses_spsm :
      (handle : ℕ) (opA opB : Operation) (a b c : ℕ) (t : DataType) (alg : SpSmAlg)
      (descr buffer : ℕ)
      → OperatorCall m (spsm_analysis m handle opA opB a b c t alg descr buffer)
  solves_spsm :
      (handle : ℕ) (opA opB : Operation) (alpha a b c : ℕ) (t : DataType) (alg : SpSmAlg)
      (descr : ℕ)
      → OperatorCall m (spsm_solve m handle opA opB alpha a b c t alg descr)
  estimates :
      (handle : ℕ) (opA opB : Operation) (alpha a b beta c : ℕ) (t : DataType) (alg : SpGemmAlg)
      (descr size buffer : ℕ)
      → OperatorCall m (work_estimation m handle opA opB alpha a b beta c t alg descr size buffer)
  computes :
      (handle : ℕ) (opA opB : Operation) (alpha a b beta c : ℕ) (t : DataType) (alg : SpGemmAlg)
      (descr size buffer : ℕ)
      → OperatorCall m (compute m handle opA opB alpha a b beta c t alg descr size buffer)
  copies :
      (handle : ℕ) (opA opB : Operation) (alpha a b beta c : ℕ) (t : DataType) (alg : SpGemmAlg)
      (descr : ℕ)
      → OperatorCall m (copy m handle opA opB alpha a b beta c t alg descr)

-- The states of a run: the operators are called in any order, and between two calls the application
-- may change whatever it likes, through the descriptor calls or on the device, but starts no kernel
-- through this library.
pub data Run (m : Machine) (s : State m.Mem) : State m.Mem → Type 0 where
  begins : Run m s s
  calls : (t : State m.Mem) (f : Op m (Unit {0})) → Run m s t → OperatorCall m f → Run m s (f t).1
  between : (t u : State m.Mem) → Run m s t → u.launches ≡ t.launches → Run m s u

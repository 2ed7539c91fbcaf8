-- ===== src/Spsv/Signatures.antt =====
-- The launches of src/ops/spsv.cpp: the signatures and the arguments.
use cwapper.Base.{ℕ, ℤ, arith}
use cwapper.Types.{DataType, SpSvAlg, component_dtype, triton_dtype}
use cwapper.Descr.{SpMatDescr, DnVecDescr}
use cwapper.Launch.{agrees}
use cwapper.Machine.{Machine}
use cwapper.Launch.{Agrees}
use cwapper.Types.{IsReal}
use cwapper.Spsv.Routes.{csr_request, sell_request}

module _ (m : Machine) (stream : ℕ) (d : SpMatDescr) (x y : DnVecDescr) (t : DataType) (flags : ℕ)
    (alpha : ℕ × ℕ) (workers : ℤ) (real : IsReal (component_dtype t)) where
  -- For a type with float or double components, the arguments of both SpSV kernels, CSR and
  -- sliced-ELL under either algorithm, are those that their signatures announce.
  pub csr_request-sell_request :
      (alg : SpSvAlg)
      → Agrees (csr_request m stream d x y t flags alpha workers)
        × Agrees (sell_request m stream d x y t alg flags alpha workers)
  unfolding csr_request sell_request agrees triton_dtype
  csr_request-sell_request alg = ground arith

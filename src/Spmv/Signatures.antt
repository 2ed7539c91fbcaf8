-- ===== src/Spmv/Signatures.antt =====
-- The launches of src/ops/spmv.cpp: the signatures and the arguments.
use cwapper.Base.{ℕ, ℤ, ◌≡◌, arith, if◌then◌else◌}
use cwapper.Types.{Operation, Scalar, fp32, fp64}
use cwapper.Descr.{SpMatDescr, DnVecDescr}
use cwapper.Launch.{Agrees, agrees}
use cwapper.Machine.{Machine}
use cwapper.Spmv.Checks.{Operands, push_scalar}
use cwapper.Spmv.Routes.{csr_request, coo_request, csc_request, bsr_request}

-- The spelling of the scalars is that of the width in which they are passed.
abbrev pub IsTyped : Operands → Type 0
IsTyped ops = ops.vt ≡ (if ops.acc_is_fp64 then fp64 else fp32)

module _ (m : Machine) (stream : ℕ) (d : SpMatDescr) (x y : DnVecDescr) (ops : Operands) where
  pub csr_request-Agrees :
      (offsets : ℕ) (offsets_type : Scalar) (n_rows longest : ℤ)
      → IsTyped ops
      → Agrees (csr_request m stream d offsets offsets_type n_rows longest x y ops)
  unfolding csr_request agrees push_scalar
  csr_request-Agrees offsets offsets_type n_rows longest typed = ground arith

  pub coo_request-Agrees :
      (buffer : ℕ) → IsTyped ops → Agrees (coo_request m stream d buffer x y ops)
  unfolding coo_request agrees push_scalar
  coo_request-Agrees buffer typed = ground arith

  pub csc_request-Agrees :
      (op : Operation) (longest : ℤ)
      → IsTyped ops
      → Agrees (csc_request m stream op d longest x y ops)
  unfolding csc_request agrees push_scalar
  csc_request-Agrees op longest typed = ground arith

  pub bsr_request-Agrees :
      (op : Operation) (longest : ℤ)
      → IsTyped ops
      → Agrees (bsr_request m stream op d longest x y ops)
  unfolding bsr_request agrees push_scalar
  bsr_request-Agrees op longest typed = ground arith

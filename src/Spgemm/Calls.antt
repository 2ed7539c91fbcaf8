-- ===== src/Spgemm/Calls.antt =====
-- The calls of src/ops/spgemm.cpp in any order, over the SpGEMM descriptors.
use cwapper.Base.{ℕ}
use cwapper.Types.{Operation, DataType, SpGemmAlg}
use cwapper.Exec.Keeps.{Keeps}
use cwapper.Machine.{Machine, State, Op}
use cwapper.Spgemm.{create_descr, destroy_descr, work_estimation, compute, copy}
use cwapper.Spgemm.Order.{AllOrdered}
use cwapper.Spgemm.Ordered.{
  create_descr-AllOrdered, destroy_descr-AllOrdered, work_estimation-AllOrdered, compute-AllOrdered,
  copy-AllOrdered,
}

-- A call of the C interface, with any arguments.
pub data SpGemmCall (m : Machine) : Op m (Unit {0}) → Type 0 where
  creates : (descr p : ℕ) → SpGemmCall m (create_descr m descr p)
  destroys : (descr : ℕ) → SpGemmCall m (destroy_descr m descr)
  estimates :
      (h : ℕ) (opA opB : Operation) (alpha a b beta c : ℕ) (t : DataType) (alg : SpGemmAlg)
      (d size buffer : ℕ)
      → SpGemmCall m (work_estimation m h opA opB alpha a b beta c t alg d size buffer)
  computes :
      (h : ℕ) (opA opB : Operation) (alpha a b beta c : ℕ) (t : DataType) (alg : SpGemmAlg)
      (d size buffer : ℕ)
      → SpGemmCall m (compute m h opA opB alpha a b beta c t alg d size buffer)
  copies :
      (h : ℕ) (opA opB : Operation) (alpha a b beta c : ℕ) (t : DataType) (alg : SpGemmAlg) (d : ℕ)
      → SpGemmCall m (copy m h opA opB alpha a b beta c t alg d)

-- The states that calls lead to, those that fail included.
pub data Reached (m : Machine) (s : State m.Mem) : State m.Mem → Type 0 where
  begins : Reached m s s
  calls :
      (t : State m.Mem) (f : Op m (Unit {0})) → Reached m s t → SpGemmCall m f → Reached m s (f t).1

module _ (m : Machine) where
  SpGemmCall-Keeps : (f : Op m (Unit {0})) → SpGemmCall m f → Keeps AllOrdered f
  SpGemmCall-Keeps _ (creates descr p) = create_descr-AllOrdered m descr p
  SpGemmCall-Keeps _ (destroys descr) = destroy_descr-AllOrdered m descr
  SpGemmCall-Keeps _ (estimates h opA opB alpha a b beta c t alg d size buffer) =
      work_estimation-AllOrdered m d h opA opB alpha a b beta c t alg size buffer
  SpGemmCall-Keeps _ (computes h opA opB alpha a b beta c t alg d size buffer) =
      compute-AllOrdered m d h opA opB alpha a b beta c t alg size buffer
  SpGemmCall-Keeps _ (copies h opA opB alpha a b beta c t alg d) =
      copy-AllOrdered m d h opA opB alpha a b beta c t alg

  -- Over calls in any order and with any arguments, those that fail included, if every SpGEMM
  -- descriptor is computed only where it is estimated, and estimated only with a scratch, at the
  -- start, then so it is at the end.
  pub Reached-AllOrdered : (s t : State m.Mem) → AllOrdered s → Reached m s t → AllOrdered t
  Reached-AllOrdered s _ h begins = h
  Reached-AllOrdered s _ h (calls t f r k) =
      (SpGemmCall-Keeps f k).at t (Reached-AllOrdered s t h r)

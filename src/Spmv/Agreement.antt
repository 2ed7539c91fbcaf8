-- ===== src/Spmv/Agreement.antt =====
-- flagsparseSpMV of src/ops/spmv.cpp as a whole: what its launches pass to the kernels.
use cwapper.Base.{ℕ, pos, ◌≡◌, sym, subst, arith, All, if◌then◌else◌, eq_ℤ}
use cwapper.Types.{
  Operation, DataType, SpMvAlg, Format, csc, coo, bsr, component_dtype, triton_dtype, is_r_64f,
  fp32, fp64,
}
use cwapper.Descr.{SpMatDescr, DnVecDescr}
use cwapper.Exec.{ok, pure, ◌>>=◌}
use cwapper.Exec.Keeps.{Keeps, Keeps-bind-ok, keeps_rules, Keeps-pure, Keeps-if}
use cwapper.Exec.Accepts.{Returns, returns_rules}
use cwapper.Scalars.{read_scalar, scalar_at}
use cwapper.Machine.{Machine, State, mat_at, dnvec_at}
use cwapper.Spmv.{dispatch, run, spmv}
use cwapper.Spmv.Checks.{Operands, validate, resolve_operands}
use cwapper.Spmv.Accepts.{IsAccepted, validate-IsAccepted, validate-Keeps}
use cwapper.Spmv.Launches.{
  IsSound, IsSound-IsFrame, run_csr-IsSound, run_coo-IsSound, run_csc-IsSound, run_bsr-IsSound,
}
use cwapper.Launch.{Agrees}
use cwapper.Types.{IsReal}
use cwapper.Spmv.Signatures.{IsTyped}

-- The spelling of a component type is that of the width that the accumulator flag says.
spelled_by_width : (t : DataType) → IsReal t → triton_dtype t ≡ (if is_r_64f t then fp64 else fp32)
unfolding triton_dtype
spelled_by_width t real = ground arith

module _ (m : Machine) (a : ℕ) where
  dispatch-IsSound :
      (f : Format) (handle : ℕ) (op : Operation) (x y : DnVecDescr) (ops : Operands) (buffer : ℕ)
      (alg : SpMvAlg)
      → IsTyped ops
      → Keeps (IsSound a) (dispatch m f handle op a x y ops buffer alg)
  unfolding dispatch
  dispatch-IsSound coo handle op x y ops buffer alg typed =
      run_coo-IsSound m a x y ops typed (IsSound-IsFrame m a) handle buffer _
  dispatch-IsSound csc handle op x y ops buffer alg typed =
      run_csc-IsSound m a x y ops typed (IsSound-IsFrame m a) handle op
  dispatch-IsSound bsr handle op x y ops buffer alg typed =
      run_bsr-IsSound m a x y ops typed (IsSound-IsFrame m a) handle op
  dispatch-IsSound _ handle op x y ops buffer alg typed =
      run_csr-IsSound m a x y ops typed (IsSound-IsFrame m a) handle

  scalar_at-Keeps : (P : State m.Mem → Type 0) (t : DataType) (p : ℕ) → Keeps P (scalar_at m t p)
  unfolding scalar_at
  scalar_at-Keeps P t p = record { at = λ s h. ground arith }

  read_scalar-Keeps :
      (P : State m.Mem → Type 0) (handle p : ℕ) (t : DataType) → Keeps P (read_scalar m handle p t)
  unfolding read_scalar
  read_scalar-Keeps P handle p t = search (keeps_rules, scalar_at-Keeps) depth 9

  module _ (handle alpha beta : ℕ) (y : DnVecDescr) (t : DataType) (d : SpMatDescr) where
    resolve_operands-Keeps :
        (P : State m.Mem → Type 0) → Keeps P (resolve_operands m handle alpha beta y t d)
    unfolding resolve_operands
    resolve_operands-Keeps P = search (keeps_rules, read_scalar-Keeps) depth 9

    resolve_operands-IsTyped :
        (s : State m.Mem)
        → IsReal (component_dtype t)
        → Returns IsTyped (resolve_operands m handle alpha beta y t d) s
    unfolding resolve_operands
    resolve_operands-IsTyped s real = search (returns_rules, spelled_by_width, real) depth 9

  module _ (handle : ℕ) (op : Operation) (alpha vec_x beta vec_y : ℕ) (t : DataType) (alg : SpMvAlg)
      (buffer : ℕ) (real : IsReal (component_dtype t)) where
    resolved :
        (s : State m.Mem) (x y : DnVecDescr) (d : SpMatDescr)
        → Keeps (IsSound a) (
            resolve_operands m handle alpha beta y t d >>= λ ops.
            if eq_ℤ ops.y_len (pos 0)
            then pure tt
            else dispatch m d.format handle op a x y ops buffer alg)
    resolved s x y d =
        Keeps-bind-ok _ _ (resolve_operands-Keeps handle alpha beta y t d (IsSound a))
          (λ s ops h e k.
            (Keeps-if (eq_ℤ ops.y_len (pos 0)) _ _ (Keeps-pure tt) (
                dispatch-IsSound d.format handle op x y ops buffer alg
                  ((resolve_operands-IsTyped handle alpha beta y t d s real).at ops e))).at
              _ k)

    run-IsSound : Keeps (IsSound a) (run m handle op alpha a vec_x beta vec_y t alg buffer)
    unfolding run
    run-IsSound = record {
      at = λ s h. (resolved s (dnvec_at s vec_x) (dnvec_at s vec_y) (mat_at s a)).at s h;
    }

module _ (m : Machine) (handle : ℕ) (op : Operation) (alpha a vec_x beta vec_y : ℕ) (t : DataType)
    (alg : SpMvAlg) (buffer : ℕ) where
  -- The part behind the checks, from a state that they accept.
  accepted :
      (s : State m.Mem)
      → IsAccepted (mat_at s a) (dnvec_at s vec_x) (dnvec_at s vec_y) op t alg
      → All Agrees s.launches
      → All Agrees (run m handle op alpha a vec_x beta vec_y t alg buffer s).1.launches
  accepted s h agreeing =
      let sound : IsSound a s = record {
        agreeing = agreeing;
        real = subst (λ u. IsReal (component_dtype u)) (sym h.matrix_type) h.real;
      } in
      ((run-IsSound m a handle op alpha vec_x beta vec_y t alg buffer h.real).at s sound).agreeing

  validated :
      (s : State m.Mem)
      → (validate m handle op a vec_x vec_y t alg s).0 ≡ ok tt
      → All Agrees (validate m handle op a vec_x vec_y t alg s).1.launches
      → All Agrees
          (run m handle op alpha a vec_x beta vec_y t alg buffer
            (validate m handle op a vec_x vec_y t alg s).1).1.launches
  validated s h agreeing =
      let facts = validate-IsAccepted m handle op a vec_x vec_y t alg s h in
      accepted (validate m handle op a vec_x vec_y t alg s).1
        (subst (λ v. IsAccepted (mat_at v a) (dnvec_at v vec_x) (dnvec_at v vec_y) op t alg)
          (sym facts.0) facts.5)
        agreeing

  -- If every launch before the call has arguments that agree with its signature, so has every launch
  -- after it. That is every kernel that flagsparseSpMV starts, the prologue's included, whatever the matrix, the
  -- operation and the state: the arguments are those of the pointers and scalars that the signature
  -- announces, in order, each of the announced kind and width.
  pub spmv-Agrees :
      (s : State m.Mem)
      → All Agrees s.launches
      → All Agrees (spmv m handle op alpha a vec_x beta vec_y t alg buffer s).1.launches
  unfolding spmv
  spmv-Agrees s h =
      (Keeps-bind-ok {P = λ u. All Agrees u.launches} _ _
          (validate-Keeps m handle op a vec_x vec_y t alg (λ u. All Agrees u.launches))
          (λ s r h e k. validated s e k)).at
        s h

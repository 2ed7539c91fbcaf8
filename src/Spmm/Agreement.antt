-- ===== src/Spmm/Agreement.antt =====
-- The launches of src/ops/spmm.cpp over a whole call.
use cwapper.Base.{ℕ, ℤ, pos, ◌≡◌, arith, ◌||◌, eq_ℤ, if◌then◌else◌}
use cwapper.Types.{Operation, DataType, SpMmAlg, IsReal, component_dtype, fp32, fp64, is_coo}
use cwapper.Descr.{SpMatDescr, DnMatDescr}
use cwapper.Launch.{Agrees, agrees}
use cwapper.Exec.{pure, ◌>>=◌}
use cwapper.Exec.Keeps.{Keeps, Keeps-bind-Accepts, Keeps-bind-ok, keeps_rules}
use cwapper.Exec.Accepts.{Accepts, Returns, accepts_rules, returns_rules}
use cwapper.Machine.{Machine, State}
use cwapper.Frame.{
  IsFrame, frame_steps, real_of, spelled_by_width, run_launch-Keeps, read_scalar-Keeps,
  ensure_max_row_nnz-Keeps, build_coo_row_offsets-Keeps, warp_size-Keeps, max_threads-Keeps,
}
use cwapper.Spmv.Routes.{ensure_coo_offsets}
use cwapper.Spmm.{
  append_dense_signature, append_dense_args, push_scalar, csr_request, coo_request, run_csr,
  run_coo, run, preprocess, spmm,
}
use cwapper.Spmm.Checks.{Operands, check_objects, validate, resolve_operands}
use cwapper.Spmm.Shape.{LaunchConfig, clip_num_warps, resolve_launch, resolve_coo_launch}

-- The spelling of the scalars is that of the width in which they are passed.
abbrev IsTyped : Operands → Type 0
IsTyped ops = ops.vt ≡ (if ops.acc_is_fp64 then fp64 else fp32)

module _ (m : Machine) where
  csr_request-Agrees :
      (stream : ℕ) (a : SpMatDescr) (b c : DnMatDescr) (ops : Operands) (cfg : LaunchConfig)
      → IsTyped ops
      → Agrees (csr_request m stream a b c ops cfg)
  unfolding csr_request agrees push_scalar append_dense_signature append_dense_args
  csr_request-Agrees stream a b c ops cfg typed = ground arith

  coo_request-Agrees :
      (stream : ℕ) (a : SpMatDescr) (buffer : ℕ) (b c : DnMatDescr) (ops : Operands)
      (cfg : LaunchConfig)
      → IsTyped ops
      → Agrees (coo_request m stream a buffer b c ops cfg)
  unfolding coo_request agrees push_scalar append_dense_signature append_dense_args
  coo_request-Agrees stream a buffer b c ops cfg typed = ground arith

  module _ (a : SpMatDescr) (b c : DnMatDescr) (opA opB : Operation) (t : DataType)
      (alg : SpMmAlg) where
    check_objects-Keeps : (P : State m.Mem → Type 0) → Keeps P (check_objects m a b c opA opB t alg)
    unfolding check_objects
    check_objects-Keeps P = search keeps_rules depth 20

    Accepts-check_objects :
        (s : State m.Mem)
        → Accepts (IsReal (component_dtype t)) (check_objects m a b c opA opB t alg) s
    unfolding check_objects
    Accepts-check_objects s = search (accepts_rules, real_of) depth 20

  module _ (handle : ℕ) (opA opB : Operation) (mat_a mat_b mat_c : ℕ) (t : DataType)
      (alg : SpMmAlg) where
    pub validate-Keeps :
        (P : State m.Mem → Type 0) → Keeps P (validate m handle opA opB mat_a mat_b mat_c t alg)
    unfolding validate
    validate-Keeps P = search (keeps_rules, check_objects-Keeps) depth 12

    Accepts-validate :
        (s : State m.Mem)
        → Accepts (IsReal (component_dtype t)) (validate m handle opA opB mat_a mat_b mat_c t alg) s
    unfolding validate
    Accepts-validate s = search (accepts_rules, Accepts-check_objects) depth 12

  module _ (handle : ℕ) (opB : Operation) (alpha : ℕ) (a : SpMatDescr) (b : DnMatDescr) (beta : ℕ)
      (c : DnMatDescr) (t : DataType) where
    resolve_operands-IsTyped :
        (s : State m.Mem)
        → IsReal (component_dtype t)
        → Returns IsTyped (resolve_operands m handle opB alpha a b beta c t) s
    unfolding resolve_operands
    resolve_operands-IsTyped s real = search (returns_rules, spelled_by_width, real) depth 9

module _ (m : Machine) (mat_a : ℕ) (P : State m.Mem → Type 0) (frame : IsFrame m mat_a P) where
  clip_num_warps-Keeps : (desired : ℕ) → Keeps P (clip_num_warps m desired)
  unfolding clip_num_warps
  clip_num_warps-Keeps desired =
      search (frame_steps, warp_size-Keeps, max_threads-Keeps, frame) depth 9

  resolve_launch-Keeps : (t : DataType) (n longest : ℤ) → Keeps P (resolve_launch m t n longest)
  unfolding resolve_launch
  resolve_launch-Keeps t n longest = search (keeps_rules, clip_num_warps-Keeps) depth 9

  resolve_coo_launch-Keeps : (n : ℤ) → Keeps P (resolve_coo_launch m n)
  unfolding resolve_coo_launch
  resolve_coo_launch-Keeps n = search (keeps_rules, warp_size-Keeps, frame) depth 9

  ensure_coo_offsets-Keeps : (b : ℕ) → Keeps P (ensure_coo_offsets m mat_a b)
  unfolding ensure_coo_offsets
  ensure_coo_offsets-Keeps b = search (keeps_rules, build_coo_row_offsets-Keeps, frame) depth 9

  resolve_operands-Keeps :
      (handle : ℕ) (opB : Operation) (alpha : ℕ) (a : SpMatDescr) (b : DnMatDescr) (beta : ℕ)
      (c : DnMatDescr) (t : DataType)
      → Keeps P (resolve_operands m handle opB alpha a b beta c t)
  unfolding resolve_operands
  resolve_operands-Keeps handle opB alpha a b beta c t =
      search (keeps_rules, read_scalar-Keeps, frame) depth 9

  run_csr-Keeps :
      (handle : ℕ) (b c : DnMatDescr) (t : DataType) (ops : Operands)
      → IsTyped ops
      → Keeps P (run_csr m handle mat_a b c t ops)
  unfolding run_csr
  run_csr-Keeps handle b c t ops typed =
      search
        (
          frame_steps, ensure_max_row_nnz-Keeps, resolve_launch-Keeps, run_launch-Keeps,
          csr_request-Agrees, frame, typed,
        )
        depth 12

  run_coo-Keeps :
      (handle : ℕ) (b c : DnMatDescr) (ops : Operands) (buffer : ℕ)
      → IsTyped ops
      → Keeps P (run_coo m handle mat_a b c ops buffer)
  unfolding run_coo
  run_coo-Keeps handle b c ops buffer typed =
      search
        (
          frame_steps, ensure_coo_offsets-Keeps, resolve_coo_launch-Keeps, run_launch-Keeps,
          coo_request-Agrees, frame, typed,
        )
        depth 12

  module _ (handle : ℕ) (opB : Operation) (alpha mat_b beta mat_c : ℕ) (t : DataType) (buffer : ℕ)
      (real : IsReal (component_dtype t)) where
    routed-Keeps :
        (a : SpMatDescr) (b c : DnMatDescr) (ops : Operands)
        → IsTyped ops
        → Keeps P (
            if eq_ℤ ops.m (pos 0) || eq_ℤ ops.n (pos 0)
            then pure tt
            else if is_coo a.format
            then run_coo m handle mat_a b c ops buffer
            else run_csr m handle mat_a b c t ops)
    routed-Keeps a b c ops typed = search (keeps_rules, run_coo-Keeps, run_csr-Keeps, typed) depth 6

    operands_then-Keeps :
        (a : SpMatDescr) (b c : DnMatDescr)
        → Keeps P (
            resolve_operands m handle opB alpha a b beta c t >>= λ ops.
            if eq_ℤ ops.m (pos 0) || eq_ℤ ops.n (pos 0)
            then pure tt
            else if is_coo a.format
            then run_coo m handle mat_a b c ops buffer
            else run_csr m handle mat_a b c t ops)
    operands_then-Keeps a b c =
        Keeps-bind-ok _ _ (resolve_operands-Keeps handle opB alpha a b beta c t) (λ s ops h e k.
          (routed-Keeps a b c ops
              ((resolve_operands-IsTyped m handle opB alpha a b beta c t s real).at ops e)).at
            _ k)

    run-Keeps : Keeps P (run m handle opB alpha mat_a mat_b beta mat_c t buffer)
    unfolding run
    run-Keeps = search (keeps_rules, operands_then-Keeps) depth 6

  pub preprocess-Keeps :
      (handle : ℕ) (opA opB : Operation) (mat_b mat_c : ℕ) (t : DataType) (alg : SpMmAlg)
      (buffer : ℕ)
      → Keeps P (preprocess m handle opA opB mat_a mat_b mat_c t alg buffer)
  unfolding preprocess
  preprocess-Keeps handle opA opB mat_b mat_c t alg buffer =
      search
        (frame_steps, validate-Keeps, ensure_max_row_nnz-Keeps, build_coo_row_offsets-Keeps, frame)
        depth 16

  pub spmm-Keeps :
      (handle : ℕ) (opA opB : Operation) (alpha mat_b beta mat_c : ℕ) (t : DataType) (alg : SpMmAlg)
      (buffer : ℕ)
      → Keeps P (spmm m handle opA opB alpha mat_a mat_b beta mat_c t alg buffer)
  unfolding spmm
  spmm-Keeps handle opA opB alpha mat_b beta mat_c t alg buffer =
      Keeps-bind-Accepts _ _ (validate-Keeps m handle opA opB mat_a mat_b mat_c t alg P)
        (Accepts-validate m handle opA opB mat_a mat_b mat_c t alg)
        (λ _ real. run-Keeps handle opB alpha mat_b beta mat_c t buffer real)

-- ===== src/Spmv/Launches.antt =====
-- The launches of src/ops/spmv.cpp over a whole call, route by route.
use cwapper.Base.{ℕ, ℤ, ◌≡◌, refl, arith, Bool, true, false, All, if◌then◌else◌}
use cwapper.Types.{Operation, i32, component_dtype}
use cwapper.Descr.{SpMatDescr, DnVecDescr}
use cwapper.Exec.Keeps.{Keeps, Keeps-gets-bind}
use cwapper.Machine.{Machine, State, mat_at, set_mat}
use cwapper.Frame.{
  IsFrame, frame_steps, run_launch-Keeps, refuse_with-Keeps, ensure_max_row_nnz-Keeps,
  build_coo_row_offsets-Keeps, scale_dense-Keeps,
}
use cwapper.Spmv.Checks.{Operands}
use cwapper.Spmv.Routes.{
  csr_request, coo_request, run_csr, run_coo, run_csc, run_bsr, ensure_coo_offsets, y_block,
}
use cwapper.Adaptor.{init_once, discover}
use cwapper.Jit.{handed}
use cwapper.Prologue.{scale_dense}
use cwapper.Launch.{Agrees}
use cwapper.Types.{IsReal}
use cwapper.Spmv.Signatures.{
  IsTyped, csr_request-Agrees, coo_request-Agrees, csc_request-Agrees, bsr_request-Agrees,
}

-- Every launch so far has arguments that agree with its signature, and the matrix at `a` has values
-- that the operators compute in.
pub record IsSound {Mem : Type 0} (a : ℕ) (s : State Mem) : Type 0 where
  pub agreeing : All Agrees s.launches
  pub real : IsReal (component_dtype (mat_at s a).value_type)

discovered-IsSound :
    (m : Machine) (a : ℕ) (s : State m.Mem) → IsSound a s → IsSound a (init_once m s)
unfolding init_once discover
discovered-IsSound m a s h = ground arith

relabelled :
    {Mem : Type 0} (a : ℕ) (d : SpMatDescr) (s : State Mem)
    → d.value_type ≡ (mat_at s a).value_type
    → IsSound a s
    → IsSound a (set_mat a d s)
relabelled a d s e h = ground arith

pub IsSound-IsFrame : (m : Machine) (a : ℕ) → IsFrame m a (IsSound a)
unfolding handed
IsSound-IsFrame m a = record {
  memory = λ v s h. record { agreeing = h.agreeing; real = h.real };
  longest = λ v s h. relabelled a _ s refl h;
  offsets = λ b s h. relabelled a _ s refl h;
  failure = λ handle text s h. record { agreeing = h.agreeing; real = h.real };
  discovery = discovered-IsSound m a;
  launched = λ r agreeing s h. record { agreeing = (agreeing, h.agreeing); real = h.real };
}

module _ (m : Machine) (a : ℕ) (x y : DnVecDescr) (ops : Operands) (typed : IsTyped ops)
    (frame : IsFrame m a (IsSound a)) where
  pub run_csr-IsSound : (handle : ℕ) → Keeps (IsSound a) (run_csr m handle a x y ops)
  unfolding run_csr
  run_csr-IsSound handle =
      search
        (frame_steps, ensure_max_row_nnz-Keeps, run_launch-Keeps, csr_request-Agrees, typed, frame)
        depth 9

  ensure_coo_offsets-IsSound : (b : ℕ) → Keeps (IsSound a) (ensure_coo_offsets m a b)
  unfolding ensure_coo_offsets
  ensure_coo_offsets-IsSound b = search (frame_steps, build_coo_row_offsets-Keeps, frame) depth 9

  coo_choice-Agrees :
      (stream : ℕ) (d : SpMatDescr) (b : ℕ) (longest : ℤ) (to_csr : Bool)
      → Agrees (
          if to_csr
          then csr_request m stream d b i32 d.rows longest x y ops
          else coo_request m stream d b x y ops)
  coo_choice-Agrees stream d b longest true =
      csr_request-Agrees m stream d x y ops b i32 d.rows longest typed
  coo_choice-Agrees stream d b longest false = coo_request-Agrees m stream d x y ops b typed

  pub run_coo-IsSound :
      (handle b : ℕ) (to_csr : Bool) → Keeps (IsSound a) (run_coo m handle a x y ops b to_csr)
  unfolding run_coo
  run_coo-IsSound handle b to_csr =
      search
        (
          frame_steps, refuse_with-Keeps, ensure_coo_offsets-IsSound, run_launch-Keeps,
          coo_choice-Agrees, frame,
        )
        depth 12

  -- The rest of csc and bsr, from the state in which the descriptor was read.
  scale_y-IsSound :
      (handle : ℕ) (s : State m.Mem)
      → IsSound a s
      → Keeps
          (IsSound a)
          (scale_dense m handle (y_block m (mat_at s a) y ops) ops.beta_re ops.beta_im)
  scale_y-IsSound handle s h =
      scale_dense-Keeps m a (IsSound a) frame handle (y_block m (mat_at s a) y ops) ops.beta_re
        ops.beta_im h.real

  pub run_csc-IsSound :
      (handle : ℕ) (op : Operation) → Keeps (IsSound a) (run_csc m handle op a x y ops)
  unfolding run_csc
  run_csc-IsSound handle op =
      search
        (
          Keeps-gets-bind, frame_steps, ensure_max_row_nnz-Keeps, scale_y-IsSound, run_launch-Keeps,
          csc_request-Agrees, typed, frame,
        )
        depth 12

  pub run_bsr-IsSound :
      (handle : ℕ) (op : Operation) → Keeps (IsSound a) (run_bsr m handle op a x y ops)
  unfolding run_bsr
  run_bsr-IsSound handle op =
      search
        (
          Keeps-gets-bind, frame_steps, ensure_max_row_nnz-Keeps, scale_y-IsSound, run_launch-Keeps,
          bsr_request-Agrees, typed, frame,
        )
        depth 12

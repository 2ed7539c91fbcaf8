-- ===== src/Spsv/Phases.antt =====
-- The two phases of src/ops/spsv.cpp: what an analysis leaves on the SpSV descriptor, and which
-- solves it allows.
use cwapper.Base.{ℕ, ◌≡◌, ◌≢◌, refl, sym, subst, arith, true, false, not, ◌||◌, Option, ◌==◌}
use cwapper.Types.{Operation, DataType, SpSvAlg, Status}
use cwapper.Descr.{SpSvDescr, new_spsv}
use cwapper.Exec.{ok, err, gets, ◌>>=◌}
use cwapper.Exec.Keeps.{keeps_rules}
use cwapper.Exec.Leaves.{
  Leaves, Leaves-bind, Leaves-if, Leaves-modify, Spares, Spares-bind, Spares-if, Spares-modify,
}
use cwapper.Exec.Accepts.{Accepts, Accepts-now, Accepts-after}
use cwapper.Machine.Steps.{Accepts-refuse_with}
use cwapper.Machine.{Machine, State, spsv_at, set_spsv, or_default}
use cwapper.Adaptor.{init_once, discover}
use cwapper.Frame.{IsFrame}
use cwapper.Spsv.Agreement.{validate-Keeps, checked_view-Keeps, checked-Keeps}
use cwapper.Spsv.{analysed_descr, analysis, solve, solve_analysed}
use cwapper.Spsv.Checks.{validate}

spsv_at-set_spsv :
    {Mem : Type 0} (p : ℕ) (d : SpSvDescr) (s : State Mem) → spsv_at (set_spsv p d s) p ≡ d
spsv_at-set_spsv p d s = ground arith

-- The SpSV descriptors are these.
abbrev Descrs : {Mem : Type 0} → (ℕ → Option SpSvDescr) → State Mem → Type 0
Descrs f s = s.spsvs ≡ f

Descrs-IsFrame : (m : Machine) (a : ℕ) (f : ℕ → Option SpSvDescr) → IsFrame m a (Descrs f)
unfolding init_once discover
Descrs-IsFrame m a f = record {
  memory = λ v s h. h;
  longest = λ v s h. h;
  offsets = λ b s h. h;
  failure = λ handle text s h. h;
  discovery = λ s h. ground arith;
  launched = λ r agreeing s h. h;
}

-- A descriptor that a solve may use: analysed, for this matrix, with the scratch of that analysis.
pub record IsReady (a : ℕ) (e : SpSvDescr) : Type 0 where
  pub analysed : e.analysed ≡ true
  pub buffer : e.buffer ≢ 0
  pub matrix : e.analysed_matrix ≡ a

-- The descriptor is marked as analysed and holds the scratch, the matrix, the operation and the
-- algorithm of a call.
pub record IsAnalysed (buffer a : ℕ) (op : Operation) (alg : SpSvAlg) (e : SpSvDescr) : Type 0 where
  pub analysed : e.analysed ≡ true
  pub scratch : e.buffer ≡ buffer
  pub matrix : e.analysed_matrix ≡ a
  pub operation : e.analysed_op ≡ op
  pub algorithm : e.analysed_alg ≡ alg

gates-IsReady :
    (a : ℕ) (e : SpSvDescr)
    → (not e.analysed || e.buffer == 0) ≡ false
    → not (e.analysed_matrix == a) ≡ false
    → IsReady a e
gates-IsReady a e h i = ground arith

module _ (m : Machine) (handle : ℕ) (op : Operation) (a vec_x vec_y : ℕ) (t : DataType)
    (alg : SpSvAlg) (descr : ℕ) where
  set_spsv-IsAnalysed :
      (buffer : ℕ) (s : State m.Mem)
      → IsAnalysed buffer a op alg
          (spsv_at (set_spsv descr (analysed_descr m buffer a op alg) s) descr)
  set_spsv-IsAnalysed buffer s =
      subst (IsAnalysed buffer a op alg)
        (sym (spsv_at-set_spsv descr (analysed_descr m buffer a op alg) s))
        (record {
          analysed = refl;
          scratch = refl;
          matrix = refl;
          operation = refl;
          algorithm = refl;
        })

  analysis-Leaves :
      (buffer : ℕ) (s : State m.Mem)
      → Leaves
          (λ u. IsAnalysed buffer a op alg (spsv_at u descr))
          (analysis m handle op a vec_x vec_y t alg descr buffer)
          s
  unfolding analysis
  analysis-Leaves buffer s =
      search (Leaves-bind, Leaves-if, Leaves-modify, set_spsv-IsAnalysed) depth 20

  analysis-Spares :
      (buffer : ℕ) (f : ℕ → Option SpSvDescr)
      → Spares (Descrs f) (analysis m handle op a vec_x vec_y t alg descr buffer)
  unfolding analysis
  analysis-Spares buffer f =
      let frame = Descrs-IsFrame m a f in
      search
        (
          Spares-bind, Spares-if, Spares-modify, keeps_rules, validate-Keeps, checked_view-Keeps,
          checked-Keeps, frame,
        )
        depth 20

  solve_analysed-IsReady :
      (alpha : ℕ) (e : SpSvDescr) (s : State m.Mem)
      → Accepts (IsReady a e) (solve_analysed m handle alpha a vec_x vec_y t e) s
  unfolding solve_analysed
  solve_analysed-IsReady alpha e s =
      search (Accepts-refuse_with, Accepts-now, gates-IsReady) depth 12

  solve-IsReady :
      (alpha : ℕ) (s : State m.Mem)
      → Accepts (IsReady a (spsv_at s descr)) (solve m handle op alpha a vec_x vec_y t alg descr) s
  unfolding solve
  solve-IsReady alpha s =
      let u = (validate m handle op a vec_x vec_y t alg descr s).1 in
      let same : u.spsvs ≡ s.spsvs =
        (validate-Keeps m a (Descrs s.spsvs) (Descrs-IsFrame m a s.spsvs) handle op a vec_x vec_y t
            alg descr).at
          s refl in
      Accepts-after (validate m handle op a vec_x vec_y t alg descr)
        (λ _. gets (λ v. spsv_at v descr) >>= solve_analysed m handle alpha a vec_x vec_y t) s
        (λ _. record {
          at = λ r h.
              subst (λ d. IsReady a (or_default new_spsv (d descr))) same
                ((solve_analysed-IsReady alpha (spsv_at u descr) u).at r h);
        })

  -- An analysis that succeeds leaves the SpSV descriptor marked as analysed, with this buffer as its
  -- scratch, and with this matrix, operation and algorithm recorded.
  pub analysis-IsAnalysed :
      (buffer : ℕ) (s : State m.Mem)
      → (analysis m handle op a vec_x vec_y t alg descr buffer s).0 ≡ ok tt
      → IsAnalysed buffer a op alg
          (spsv_at (analysis m handle op a vec_x vec_y t alg descr buffer s).1 descr)
  analysis-IsAnalysed buffer s = (analysis-Leaves buffer s).at tt

  -- An analysis that fails leaves every SpSV descriptor as it was: what was analysed before it stays
  -- analysed, and what was not does not become so.
  pub analysis_failed :
      (buffer : ℕ) (s : State m.Mem) (e : Status)
      → (analysis m handle op a vec_x vec_y t alg descr buffer s).0 ≡ err e
      → (analysis m handle op a vec_x vec_y t alg descr buffer s).1.spsvs ≡ s.spsvs
  analysis_failed buffer s e = (analysis-Spares buffer s.spsvs).at s e refl

  -- A solve that succeeds found its descriptor analysed, for the matrix that it is given, with a
  -- scratch.
  pub solve_lem :
      (alpha : ℕ) (s : State m.Mem)
      → (solve m handle op alpha a vec_x vec_y t alg descr s).0 ≡ ok tt
      → IsReady a (spsv_at s descr)
  solve_lem alpha s = (solve-IsReady alpha s).at tt

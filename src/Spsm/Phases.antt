-- ===== src/Spsm/Phases.antt =====
-- The two phases of src/ops/spsm.cpp: what an analysis leaves on the SpSM descriptor, and which
-- solves it allows.
use cwapper.Base.{ℕ, ◌≡◌, ◌≢◌, refl, sym, subst, arith, true, false, not, ◌||◌, Option, ◌==◌}
use cwapper.Types.{Operation, DataType, SpSmAlg}
use cwapper.Descr.{SpSmDescr, new_spsm}
use cwapper.Exec.{Result, ok, err, gets, ◌>>=◌}
use cwapper.Exec.Keeps.{keeps_rules}
use cwapper.Exec.Leaves.{
  Leaves, Leaves-bind, Leaves-if, Leaves-modify, Spares, Spares-bind, Spares-if, Spares-modify,
}
use cwapper.Exec.Accepts.{Accepts, Accepts-now, Accepts-after}
use cwapper.Machine.{Machine, State, spsm_at, set_spsm, or_default}
use cwapper.Machine.Steps.{Accepts-refuse_with}
use cwapper.Adaptor.{init_once, discover}
use cwapper.Frame.{IsFrame}
use cwapper.Spsm.{analysed_descr, analysis, solve, solve_analysed}
use cwapper.Spsm.Agreement.{validate-Keeps, analysed_view-Keeps, extract_diag-Keeps}
use cwapper.Spsm.Checks.{validate}

spsm_at-set_spsm :
    {Mem : Type 0} (p : ℕ) (d : SpSmDescr) (s : State Mem) → spsm_at (set_spsm p d s) p ≡ d
spsm_at-set_spsm p d s = ground arith

-- The SpSM descriptors are these.
abbrev Descrs : {Mem : Type 0} → (ℕ → Option SpSmDescr) → State Mem → Type 0
Descrs f s = s.spsms ≡ f

Descrs-IsFrame : (m : Machine) (a : ℕ) (f : ℕ → Option SpSmDescr) → IsFrame m a (Descrs f)
unfolding init_once discover
Descrs-IsFrame m a f = record {
  memory = λ v s h. h;
  longest = λ v s h. h;
  offsets = λ b s h. h;
  failure = λ handle text s h. h;
  discovery = λ s h. ground arith;
  launched = λ r agreeing s h. h;
}

-- A descriptor that a solve may use: analysed, for this matrix, with the scratch of that analysis.
pub record IsReady (a : ℕ) (e : SpSmDescr) : Type 0 where
  pub analysed : e.analysed ≡ true
  pub buffer : e.buffer ≢ 0
  pub matrix : e.analysed_matrix ≡ a

-- The descriptor is marked as analysed and holds the scratch and the matrix of a call.
pub record IsAnalysed (buffer a : ℕ) (e : SpSmDescr) : Type 0 where
  pub analysed : e.analysed ≡ true
  pub scratch : e.buffer ≡ buffer
  pub matrix : e.analysed_matrix ≡ a

-- The SpSM descriptors after an analysis on the one at `p` that returned `r`: on success it is
-- analysed with this scratch and matrix, and on failure all are as before.
abbrev pub IsSettled :
    {Mem : Type 0} → Result (Unit {0}) → State Mem → State Mem → ℕ → ℕ → ℕ → Type 0
IsSettled (ok tt) s u p buffer a = IsAnalysed buffer a (spsm_at u p)
IsSettled (err e) s u p buffer a = u.spsms ≡ s.spsms

gates-IsReady :
    (a : ℕ) (e : SpSmDescr)
    → (not e.analysed || e.buffer == 0) ≡ false
    → not (e.analysed_matrix == a) ≡ false
    → IsReady a e
gates-IsReady a e h i = ground arith

module _ (m : Machine) (handle : ℕ) (opA opB : Operation) (mat_a mat_b mat_c : ℕ) (t : DataType)
    (alg : SpSmAlg) (descr : ℕ) where
  set_spsm-IsAnalysed :
      (buffer : ℕ) (s : State m.Mem)
      → IsAnalysed buffer mat_a (spsm_at (set_spsm descr (analysed_descr buffer mat_a) s) descr)
  set_spsm-IsAnalysed buffer s =
      subst (IsAnalysed buffer mat_a) (sym (spsm_at-set_spsm descr (analysed_descr buffer mat_a) s))
        (record { analysed = refl; scratch = refl; matrix = refl })

  analysis-Leaves :
      (buffer : ℕ) (s : State m.Mem)
      → Leaves
          (λ u. IsAnalysed buffer mat_a (spsm_at u descr))
          (analysis m handle opA opB mat_a mat_b mat_c t alg descr buffer)
          s
  unfolding analysis
  analysis-Leaves buffer s =
      search (Leaves-bind, Leaves-if, Leaves-modify, set_spsm-IsAnalysed) depth 20

  analysis-Spares :
      (buffer : ℕ) (f : ℕ → Option SpSmDescr)
      → Spares (Descrs f) (analysis m handle opA opB mat_a mat_b mat_c t alg descr buffer)
  unfolding analysis
  analysis-Spares buffer f =
      let frame = Descrs-IsFrame m mat_a f in
      search
        (
          Spares-bind, Spares-if, Spares-modify, keeps_rules, validate-Keeps, analysed_view-Keeps,
          extract_diag-Keeps, frame,
        )
        depth 20

  solve_analysed-IsReady :
      (alpha : ℕ) (e : SpSmDescr) (s : State m.Mem)
      → Accepts (IsReady mat_a e) (solve_analysed m handle opB alpha mat_a mat_b mat_c t e) s
  unfolding solve_analysed
  solve_analysed-IsReady alpha e s =
      search (Accepts-refuse_with, Accepts-now, gates-IsReady) depth 12

  solve-IsReady :
      (alpha : ℕ) (s : State m.Mem)
      → Accepts
          (IsReady mat_a (spsm_at s descr))
          (solve m handle opA opB alpha mat_a mat_b mat_c t alg descr)
          s
  unfolding solve
  solve-IsReady alpha s =
      let checks = validate m handle opA opB mat_a mat_b mat_c t alg descr in
      let u = (checks s).1 in
      let same : u.spsms ≡ s.spsms =
        (validate-Keeps m handle opA opB mat_a mat_b mat_c t alg descr mat_a (Descrs s.spsms)
            (Descrs-IsFrame m mat_a s.spsms)).at
          s refl in
      Accepts-after checks
        (λ _. gets (λ v. spsm_at v descr) >>= solve_analysed m handle opB alpha mat_a mat_b mat_c t)
        s
        (λ _. record {
          at = λ r h.
              subst (λ d. IsReady mat_a (or_default new_spsm (d descr))) same
                ((solve_analysed-IsReady alpha (spsm_at u descr) u).at r h);
        })

  settled :
      (buffer : ℕ) (s : State m.Mem) (r : Result (Unit {0}))
      → (analysis m handle opA opB mat_a mat_b mat_c t alg descr buffer s).0 ≡ r
      → IsSettled r s
          (analysis m handle opA opB mat_a mat_b mat_c t alg descr buffer s).1
          descr
          buffer
          mat_a
  settled buffer s (ok tt) h = (analysis-Leaves buffer s).at tt h
  settled buffer s (err e) h = (analysis-Spares buffer s.spsms).at s e refl h

  -- An analysis either succeeds, and then the SpSM descriptor is marked as analysed and holds this
  -- matrix and this buffer as its scratch; or it fails, and then every SpSM descriptor is as it was before the call.
  pub analysis-IsSettled :
      (buffer : ℕ) (s : State m.Mem)
      → IsSettled
          (analysis m handle opA opB mat_a mat_b mat_c t alg descr buffer s).0
          s
          (analysis m handle opA opB mat_a mat_b mat_c t alg descr buffer s).1
          descr
          buffer
          mat_a
  analysis-IsSettled buffer s = settled buffer s _ refl

  -- A solve that succeeds found its descriptor analysed, for the matrix that it is given, with a
  -- scratch.
  pub solve-IsReady_descr :
      (alpha : ℕ) (s : State m.Mem)
      → (solve m handle opA opB alpha mat_a mat_b mat_c t alg descr s).0 ≡ ok tt
      → IsReady mat_a (spsm_at s descr)
  solve-IsReady_descr alpha s = (solve-IsReady alpha s).at tt

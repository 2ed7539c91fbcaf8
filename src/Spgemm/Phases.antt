-- ===== src/Spgemm/Phases.antt =====
-- The order of the three calls of src/ops/spgemm.cpp.
use cwapper.Base.{ℕ, ◌≡◌, ◌≢◌, refl, subst, arith, true, false, not, Option, ◌==◌}
use cwapper.Types.{Operation, DataType, SpGemmAlg}
use cwapper.Descr.{SpGemmDescr, new_spgemm}
use cwapper.Exec.{ok}
use cwapper.Exec.Accepts.{Accepts, Accepts-now, Accepts-after, Accepts-gets, Accepts-refuse}
use cwapper.Machine.{Machine, State, mat_at, spgemm_at, or_default}
use cwapper.Machine.Steps.{Accepts-refuse_with}
use cwapper.Adaptor.{init_once, discover}
use cwapper.Frame.{IsFrame}
use cwapper.Spgemm.{compute, copy}
use cwapper.Spgemm.Agreement.{validate-Keeps}
use cwapper.Spgemm.Checks.{validate}

-- The SpGEMM descriptors, and the offsets array of the matrix at `c`.
abbrev Holds : {Mem : Type 0} → ℕ → (ℕ → Option SpGemmDescr) → ℕ → State Mem → Type 0
Holds c f v s = (s.spgemms ≡ f) × ((mat_at s c).offsets ≡ v)

Holds-IsFrame :
    (m : Machine) (p c : ℕ) (f : ℕ → Option SpGemmDescr) (v : ℕ) → IsFrame m p (Holds c f v)
unfolding init_once discover
Holds-IsFrame m p c f v = record {
  memory = λ u s h. h;
  longest = λ n s h. ground arith;
  offsets = λ b s h. ground arith;
  failure = λ handle text s h. h;
  discovery = λ s h. ground arith;
  launched = λ r agreeing s h. h;
}

-- What a copy needs: a compute that was completed, and an offsets array for C.
pub record IsCopyable (c_offsets : ℕ) (d : SpGemmDescr) : Type 0 where
  pub computed : d.computed ≡ true
  pub attached : c_offsets ≢ 0

of_gates : (o : ℕ) (d : SpGemmDescr) → not d.computed ≡ false → (o == 0) ≡ false → IsCopyable o d
of_gates o d h i = ground arith

of_estimated : (d : SpGemmDescr) → not d.estimated ≡ false → d.estimated ≡ true
of_estimated d h = ground arith

module _ (m : Machine) (handle : ℕ) (opA opB : Operation) (alpha mat_a mat_b beta mat_c : ℕ)
    (t : DataType) (alg : SpGemmAlg) (descr : ℕ) where
  checks-Holds :
      (s : State m.Mem)
      → Holds mat_c s.spgemms
          (mat_at s mat_c).offsets
          (validate m handle opA opB alpha mat_a mat_b beta mat_c t alg descr s).1
  checks-Holds s =
      let frame = Holds-IsFrame m mat_a mat_c s.spgemms (mat_at s mat_c).offsets in
      (validate-Keeps m mat_a (Holds mat_c s.spgemms (mat_at s mat_c).offsets) frame handle opA opB
          alpha mat_a mat_b beta mat_c t alg descr).at
        s (refl, refl)

  moved :
      (s u : State m.Mem)
      → Holds mat_c s.spgemms (mat_at s mat_c).offsets u
      → not (spgemm_at u descr).computed ≡ false
      → ((mat_at u mat_c).offsets == 0) ≡ false
      → IsCopyable (mat_at s mat_c).offsets (spgemm_at s descr)
  moved s u same h i =
      subst (λ f. IsCopyable (mat_at s mat_c).offsets (or_default new_spgemm (f descr))) same.0
        (subst (λ v. IsCopyable v (spgemm_at u descr)) same.1
          (of_gates (mat_at u mat_c).offsets (spgemm_at u descr) h i))

  copy-IsCopyable :
      (s : State m.Mem)
      → Accepts
          (IsCopyable (mat_at s mat_c).offsets (spgemm_at s descr))
          (copy m handle opA opB alpha mat_a mat_b beta mat_c t alg descr)
          s
  unfolding copy
  copy-IsCopyable s =
      let checks = validate m handle opA opB alpha mat_a mat_b beta mat_c t alg descr in
      let gates = moved s (checks s).1 (checks-Holds s) in
      Accepts-after checks _ s
        (λ _. search (Accepts-gets, Accepts-refuse_with, Accepts-now, gates) depth 12)

  estimated_before :
      (s u : State m.Mem)
      → Holds mat_c s.spgemms (mat_at s mat_c).offsets u
      → not (spgemm_at u descr).estimated ≡ false
      → (spgemm_at s descr).estimated ≡ true
  estimated_before s u same h =
      subst (λ f. (or_default new_spgemm (f descr)).estimated ≡ true) same.0
        (of_estimated (spgemm_at u descr) h)

  found :
      (size buffer : ℕ) (s : State m.Mem)
      → Accepts
          ((spgemm_at s descr).estimated ≡ true)
          (compute m handle opA opB alpha mat_a mat_b beta mat_c t alg descr size buffer)
          s
  unfolding compute
  found size buffer s =
      let checks = validate m handle opA opB alpha mat_a mat_b beta mat_c t alg descr in
      let gate = estimated_before s (checks s).1 (checks-Holds s) in
      Accepts-refuse (size == 0) _ _ _ (λ _.
        Accepts-after checks _ s
          (λ _. search (Accepts-gets, Accepts-refuse_with, Accepts-now, gate) depth 12))

  -- A compute that succeeds, the sizing call included, found its descriptor estimated.
  pub compute_lem :
      (size buffer : ℕ) (s : State m.Mem)
      → (compute m handle opA opB alpha mat_a mat_b beta mat_c t alg descr size buffer s).0 ≡ ok tt
      → (spgemm_at s descr).estimated ≡ true
  compute_lem size buffer s = (found size buffer s).at tt

  -- A copy that succeeds found its descriptor computed, and C with an offsets array of its own
  -- attached.
  copy_lem :
      (s : State m.Mem)
      → (copy m handle opA opB alpha mat_a mat_b beta mat_c t alg descr s).0 ≡ ok tt
      → IsCopyable (mat_at s mat_c).offsets (spgemm_at s descr)
  copy_lem s = (copy-IsCopyable s).at tt

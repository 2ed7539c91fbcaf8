-- ===== src/Spgemm/Order.antt =====
-- The SpGEMM descriptors of src/ops/spgemm.cpp over any sequence of the calls on them.
use cwapper.Base.{
  ℕ, ◌≡◌, ◌≢◌, ◌⊎◌, inl, inr, refl, sym, subst, ap, ◌∙◌, arith, ℤ, List, Bool, Bool-cases, true,
  false, not, String, none, ◌==◌,
}
use cwapper.Types.{Status}
use cwapper.Descr.{SpMatDescr, SpGemmDescr, new_spgemm}
use cwapper.Exec.{gets, modify, ◌>>=◌}
use cwapper.Exec.Keeps.{Keeps}
use cwapper.Machine.{
  Machine, State, Op, spgemm_at, set_spgemm, set_cell, refuse_with, update, or_default,
}
use cwapper.Adaptor.{init_once, discover}
use cwapper.Frame.{IsFrame, frame_steps}
use cwapper.Spgemm.Steps.{change_descr, set_nnz, derive_offsets}

-- A descriptor is computed only if it is estimated, and estimated only with a scratch.
pub record IsOrdered (d : SpGemmDescr) : Type 0 where
  pub computed : (d.computed ≡ false) ⊎ (d.estimated ≡ true)
  pub estimated : (d.estimated ≡ false) ⊎ (d.buffer1 ≢ 0)

abbrev pub AllOrdered : {Mem : Type 0} → State Mem → Type 0
AllOrdered s = (p : ℕ) → IsOrdered (spgemm_at s p)

-- The same, where the descriptor at `q` is estimated.
abbrev pub Estimated : {Mem : Type 0} → ℕ → State Mem → Type 0
Estimated q s = AllOrdered s × ((spgemm_at s q).estimated ≡ true)

AllOrdered-discovered : (m : Machine) (s : State m.Mem) → (init_once m s).spgemms ≡ s.spgemms
unfolding init_once discover
AllOrdered-discovered m s = ground arith

pub AllOrdered-IsFrame : (m : Machine) (p : ℕ) → IsFrame m p AllOrdered
AllOrdered-IsFrame m p = record {
  memory = λ v s h. h;
  longest = λ v s h. h;
  offsets = λ b s h. h;
  failure = λ handle text s h. h;
  discovery = λ s h.
      subst (λ f. (q : ℕ) → IsOrdered (or_default new_spgemm (f q)))
        (sym (AllOrdered-discovered m s)) h;
  launched = λ r agreeing s h. h;
}

pub Estimated-IsFrame : (m : Machine) (p q : ℕ) → IsFrame m p (Estimated q)
Estimated-IsFrame m p q = record {
  memory = λ v s h. h;
  longest = λ v s h. h;
  offsets = λ b s h. h;
  failure = λ handle text s h. h;
  discovery = λ s h.
      subst
        (λ f.
          ((n : ℕ) → IsOrdered (or_default new_spgemm (f n)))
          × ((or_default new_spgemm (f q)).estimated ≡ true))
        (sym (AllOrdered-discovered m s)) h;
  launched = λ r agreeing s h. h;
}

module _ {Mem : Type 0} where
  pub put-AllOrdered :
      (q : ℕ) (d : SpGemmDescr) (s : State Mem)
      → AllOrdered s
      → IsOrdered d
      → AllOrdered (set_spgemm q d s)
  put-AllOrdered q d s h k p = elim (Bool-cases (q == p)) [
    | inl e ↦ rw (e) k
    | inr e ↦ rw (e) (h p)
  ]

  spgemm_at-set_spgemm :
      (q : ℕ) (d : SpGemmDescr) (s : State Mem) → spgemm_at (set_spgemm q d s) q ≡ d
  spgemm_at-set_spgemm q d s = ground arith

  dropped-AllOrdered :
      (q : ℕ) (s : State Mem)
      → AllOrdered s
      → AllOrdered (record s { spgemms = update s.spgemms q none })
  dropped-AllOrdered q s h p = elim (Bool-cases (q == p)) [
    | inl e ↦ rw (e) (record { computed = inl refl; estimated = inl refl })
    | inr e ↦ rw (e) (h p)
  ]

-- The code from the test for an estimate on: it may rely on the descriptor that was looked up.
module _ (m : Machine) (descr handle : ℕ) (text : String) (e : Status)
    (f : SpGemmDescr → Op m (Unit {0})) where
  past_test :
      (b : Bool) (d : SpGemmDescr) (s : State m.Mem)
      → AllOrdered s
      → (b ≡ true → Estimated descr s)
      → Keeps (Estimated descr) (f d)
      → AllOrdered ((refuse_with handle (not b) text e >>= λ _. f d) s).1
  past_test true d s h k keeps = (keeps.at s (k refl)).0
  past_test false d s h k keeps = h

  pub tested-Keeps :
      ((d : SpGemmDescr) → Keeps (Estimated descr) (f d))
      → Keeps AllOrdered (
          gets (λ s. spgemm_at s descr) >>= λ d.
          refuse_with handle (not d.estimated) text e >>= λ _. f d)
  tested-Keeps keeps = record {
    at = λ s h.
        past_test (spgemm_at s descr).estimated (spgemm_at s descr) s h (λ e. (h, e))
          (keeps (spgemm_at s descr));
  }

module _ {Mem : Type 0} where
  pub made-AllOrdered : (p : ℕ) → Keeps (AllOrdered {Mem = Mem}) (modify (set_spgemm p new_spgemm))
  made-AllOrdered p = record {
    at = λ s h.
        put-AllOrdered p new_spgemm s h (record { computed = inl refl; estimated = inl refl });
  }

  pub sized-AllOrdered : (q v : ℕ) → Keeps (AllOrdered {Mem = Mem}) (modify (set_cell q v))
  sized-AllOrdered q v = record { at = λ s h. h }

  pub destroyed-AllOrdered :
      (q : ℕ)
      → Keeps
          (AllOrdered {Mem = Mem})
          (modify (λ s. record s { spgemms = update s.spgemms q none }))
  destroyed-AllOrdered q = record { at = dropped-AllOrdered q }

module _ (m : Machine) (descr : ℕ) where
  -- A write that keeps `estimated` of an estimated descriptor, and its scratch.
  pub changed-Estimated :
      (f : SpGemmDescr → SpGemmDescr)
      → ((d : SpGemmDescr) → (f d).estimated ≡ d.estimated)
      → ((d : SpGemmDescr) → (f d).buffer1 ≡ d.buffer1)
      → Keeps (Estimated descr) (modify (change_descr m descr f))
  changed-Estimated f flag scratch = record {
    at = λ s h.
        let here = (h.0 descr).estimated in
        let still = flag (spgemm_at s descr) ∙ h.1 in
        (
          put-AllOrdered descr (f (spgemm_at s descr)) s (h.0) (record {
            computed = inr still;
            estimated = rw (flag (spgemm_at s descr), scratch (spgemm_at s descr)) here;
          }),
          ap (λ d. d.estimated) (spgemm_at-set_spgemm descr (f (spgemm_at s descr)) s) ∙ still,
        );
  }

  pub sized-Estimated : (q v : ℕ) → Keeps (Estimated {Mem = m.Mem} descr) (modify (set_cell q v))
  sized-Estimated q v = record { at = λ s h. h }

  pub counted-Estimated : (q : ℕ) (v : ℤ) → Keeps (Estimated descr) (modify (set_nnz m q v))
  counted-Estimated q v = record { at = λ s h. h }

  pub derive_offsets-Estimated :
      (mat_c : ℕ) (a : SpMatDescr) (host_nnz : List ℤ) (buffer : ℕ)
      → Keeps (Estimated descr) (derive_offsets m mat_c descr a host_nnz buffer)
  unfolding derive_offsets
  derive_offsets-Estimated mat_c a host_nnz buffer =
      let frame = Estimated-IsFrame m mat_c descr in
      search (frame_steps, changed-Estimated, counted-Estimated, refl, frame) depth 12

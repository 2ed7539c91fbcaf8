-- ===== src/Spgemm/Ordered.antt =====
-- What each call of src/ops/spgemm.cpp does to the order of the phases of a descriptor.
use cwapper.Base.{
  ℕ, ◌≡◌, ◌≢◌, inr, refl, arith, pos, eq_ℤ, if◌then◌else◌, Bool, true, false, not, String, ◌==◌,
}
use cwapper.Types.{Status, invalid_value, Operation, DataType, SpGemmAlg}
use cwapper.Descr.{SpMatDescr, SpGemmDescr}
use cwapper.Exec.{pure, ◌>>◌, gets, modify, ◌>>=◌}
use cwapper.Exec.Keeps.{Keeps, Keeps-bind, Keeps-gets, Keeps-refuse, keeps_rules}
use cwapper.Machine.{Machine, Op, mat_at, spgemm_at, set_cell, refuse_with}
use cwapper.Frame.{frame_steps}
use cwapper.Spgemm.{create_descr, destroy_descr, work_estimation, compute, copy}
use cwapper.Spgemm.Agreement.{
  validate-Keeps, estimate-Keeps, serve-Keeps, count_entries-Keeps, copy-Keeps,
}
use cwapper.Spgemm.Steps.{change_descr, set_nnz, derive_offsets, serve, count_entries}
use cwapper.Spgemm.Plan.{buckets, pick_bucket, buffer2_bytes}
use cwapper.Spgemm.Order.{
  AllOrdered, Estimated, AllOrdered-IsFrame, Estimated-IsFrame, put-AllOrdered, tested-Keeps,
  made-AllOrdered, sized-AllOrdered, destroyed-AllOrdered, changed-Estimated, sized-Estimated,
  counted-Estimated, derive_offsets-Estimated,
}

module _ (m : Machine) (descr : ℕ) where
  module _ (handle : ℕ) (opA opB : Operation) (alpha mat_a mat_b beta mat_c : ℕ) (t : DataType)
      (alg : SpGemmAlg) where
    -- The code of compute after the test.
    abbrev after_test : ℕ → ℕ → SpMatDescr → SpMatDescr → SpGemmDescr → Op m (Unit {0})
    after_test size buffer a b d = do
      modify (set_cell size (buffer2_bytes a.rows))
      if buffer == 0
          then pure tt
          else if eq_ℤ a.rows (pos 0)
          then (do
            modify (set_nnz m mat_c (pos 0))
            modify (change_descr m descr (λ e. record e { computed = true })))
          else do
            bucket ← serve m handle (pick_bucket buckets d.max_row_work)
            host_nnz ← count_entries m handle a b d bucket t buffer
            derive_offsets m mat_c descr a host_nnz buffer

    after_test-Estimated :
        (size buffer : ℕ) (a b : SpMatDescr) (d : SpGemmDescr)
        → Keeps (Estimated descr) (after_test size buffer a b d)
    after_test-Estimated size buffer a b d =
        let frame = Estimated-IsFrame m mat_c descr in
        search
          (
            keeps_rules, serve-Keeps, count_entries-Keeps, derive_offsets-Estimated,
            sized-Estimated, changed-Estimated, counted-Estimated, refl, frame,
          )
          depth 20

    -- The text of the refusal.
    abbrev unestimated : String
    unestimated =
        "flagsparseSpGEMM_compute requires a completed workEstimation (the one called WITH a buffer, not the sizing call)."

    compute_tested :
        (size buffer : ℕ) (text : String) (e : Status) (a b : SpMatDescr)
        → Keeps AllOrdered (
            gets (λ s. spgemm_at s descr) >>= λ d.
            refuse_with handle (not d.estimated) text e >>= λ _. after_test size buffer a b d)
    compute_tested size buffer text e a b =
        tested-Keeps m descr handle text e (after_test size buffer a b)
          (after_test-Estimated size buffer a b)

    pub compute-AllOrdered :
        (size buffer : ℕ)
        → Keeps AllOrdered
            (compute m handle opA opB alpha mat_a mat_b beta mat_c t alg descr size buffer)
    unfolding compute
    compute-AllOrdered size buffer =
        let checks =
          validate-Keeps m mat_c AllOrdered (AllOrdered-IsFrame m mat_c) handle opA opB alpha mat_a
            mat_b beta mat_c t alg descr in
        Keeps-bind _ _ (Keeps-refuse _ _) (λ _. Keeps-bind _ _ checks (λ _.
          Keeps-bind {A = SpMatDescr} _ _ (Keeps-gets (λ s. mat_at s mat_a)) (λ a.
            Keeps-bind {A = SpMatDescr} _ _ (Keeps-gets (λ s. mat_at s mat_b))
              (λ b. compute_tested size buffer unestimated invalid_value a b))))

    pub copy-AllOrdered :
        Keeps AllOrdered (copy m handle opA opB alpha mat_a mat_b beta mat_c t alg descr)
    copy-AllOrdered =
        copy-Keeps m mat_a AllOrdered (AllOrdered-IsFrame m mat_a) handle opA opB alpha mat_a mat_b
          beta mat_c t alg descr

    -- A write that makes a descriptor estimated, with a scratch.
    written-AllOrdered :
        (f : SpGemmDescr → SpGemmDescr)
        → ((d : SpGemmDescr) → (f d).estimated ≡ true)
        → ((d : SpGemmDescr) → (f d).buffer1 ≢ 0)
        → Keeps AllOrdered (modify (change_descr m descr f))
    written-AllOrdered f flag scratch = record {
      at = λ s h. put-AllOrdered descr (f (spgemm_at s descr)) s h (record {
        computed = inr (flag (spgemm_at s descr));
        estimated = inr (scratch (spgemm_at s descr));
      });
    }

    with_scratch :
        (buffer : ℕ) (n : Op m (Unit {0}))
        → (buffer ≢ 0 → Keeps AllOrdered n)
        → Keeps AllOrdered (if buffer == 0 then pure tt else n)
    with_scratch buffer n k = guarded (buffer == 0) (λ e. k (ground arith))
      where
        guarded :
            (b : Bool)
            → (b ≡ false → Keeps AllOrdered n)
            → Keeps AllOrdered (if b then pure tt else n)
        guarded true g = record { at = λ s h. h }
        guarded false g = g refl

    pub work_estimation-AllOrdered :
        (size buffer : ℕ)
        → Keeps AllOrdered
            (work_estimation m handle opA opB alpha mat_a mat_b beta mat_c t alg descr size buffer)
    unfolding work_estimation
    work_estimation-AllOrdered size buffer =
        let frame = AllOrdered-IsFrame m mat_c in
        search
          (
            with_scratch, frame_steps, validate-Keeps, estimate-Keeps, sized-AllOrdered,
            written-AllOrdered, refl, frame,
          )
          depth 24

  pub create_descr-AllOrdered : (p : ℕ) → Keeps AllOrdered (create_descr m descr p)
  unfolding create_descr
  create_descr-AllOrdered p = search (keeps_rules, made-AllOrdered, sized-AllOrdered) depth 12

  pub destroy_descr-AllOrdered : Keeps AllOrdered (destroy_descr m descr)
  unfolding destroy_descr
  destroy_descr-AllOrdered = search (keeps_rules, destroyed-AllOrdered) depth 12

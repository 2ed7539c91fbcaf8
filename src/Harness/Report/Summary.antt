-- ===== src/Harness/Report/Summary.antt =====
-- The counts that BenchReport::write and write_accuracy_json (ctest/common.cpp) close a file with, and
-- the rows of a whole report.
use cwapper.Base.{
  ℕ, suc, ◌+◌, ◌≡◌, refl, sym, subst, arith, inl, Bool, true, List, [], ◌∷◌, ◌++◌, String, ◌≤◌,
  length, length-append, All,
}
use cwapper.Floats.{Doubles}
use cwapper.Harness.Report.{
  BenchRow, RowStatus, row_ok, row_not_supported, not_implemented_in_test, Accuracy, unchecked,
  pass, pass_relaxed, fail, Subject, positive, measure, measure_vs_baseline, skip,
}
use cwapper.Harness.Report.Judged.{
  HasSpeedup, HasVerdict, Fresh, measure-IsJudged, measure_vs_baseline-IsJudged,
}

pub record Counts (V : Type 0) : Type 0 where
  pub ok : ℕ
  pub unsupported : ℕ
  pub failed : ℕ
  pub no_test : ℕ
  pub acc_fail : ℕ
  pub acc_relaxed : ℕ
  pub speedups : List V

abbrev of_status : {V : Type 0} → RowStatus → Counts V → Counts V
of_status row_ok n = record n { ok = suc n.ok }
of_status row_not_supported n = record n { unsupported = suc n.unsupported }
of_status not_implemented_in_test n = record n { no_test = suc n.no_test }
of_status _ n = record n { failed = suc n.failed }

-- The last argument says whether the speedup is above 0.
abbrev of_accuracy : {V : Type 0} → Accuracy → V → Bool → Counts V → Counts V
of_accuracy fail v counted n = record n { acc_fail = suc n.acc_fail }
of_accuracy pass_relaxed v counted n = record n { acc_relaxed = suc n.acc_relaxed }
of_accuracy pass v true n = record n { speedups = n.speedups ++ v ∷ [] }
of_accuracy _ v counted n = n

module _ (d : Doubles) where
  -- The loop over the rows.
  unfoldable pub count : List (BenchRow d.V) → Counts d.V → Counts d.V
  count [] n = n
  count (r ∷ rs) n =
      count rs (of_accuracy r.accuracy r.speedup (positive d r.speedup) (of_status r.status n))

  abbrev pub total : Counts d.V → ℕ
  total n = n.ok + n.unsupported + n.failed + n.no_test

  one_more :
      (s : RowStatus) (a : Accuracy) (v : d.V) (counted : Bool) (n : Counts d.V)
      → total (of_accuracy a v counted (of_status s n)) ≡ suc (total n)
  one_more s a v counted n = ground arith

  total-count :
      (rs : List (BenchRow d.V)) (n : Counts d.V) → total (count rs n) ≡ length rs + total n
  unfolding count
  total-count [] n = ground arith
  total-count (r ∷ rs) n = omega (
    arith,
    total-count rs (of_accuracy r.accuracy r.speedup (positive d r.speedup) (of_status r.status n)),
    one_more r.status r.accuracy r.speedup (positive d r.speedup) n,
  )

  -- The verdicts are within the rows that they are about.
  abbrev IsBalanced : Counts d.V → Type 0
  IsBalanced n = (n.acc_fail ≤ n.failed) × (length n.speedups + n.acc_relaxed ≤ n.ok)

  one_more-IsBalanced :
      (r : BenchRow d.V) (n : Counts d.V)
      → HasVerdict d r
      → IsBalanced n
      → IsBalanced (of_accuracy r.accuracy r.speedup (positive d r.speedup) (of_status r.status n))
  one_more-IsBalanced r n h k = ground (arith, length-append n.speedups (r.speedup ∷ []))

  -- A report that a benchmark built from nothing: every attempt starts from a blank row and appends to
  -- the rows so far.
  pub data Swept : List (BenchRow d.V) → Type 1 where
    empty : Swept []
    measured :
        (b : Subject d) (row : BenchRow d.V) (flops : d.V) (rows : List (BenchRow d.V))
        (w : b.World)
        → Fresh d b row
        → Swept rows
        → Swept (measure d b row flops rows w).1
    compared :
        (b : Subject d) (row : BenchRow d.V) (flops : d.V) (writes : Bool)
        (rows : List (BenchRow d.V)) (w : b.World)
        → Fresh d b row
        → Swept rows
        → Swept (measure_vs_baseline d b row flops writes rows w).1
    skipped :
        (row : BenchRow d.V) (status : RowStatus) (why : String) (rows : List (BenchRow d.V))
        → row.speedup ≡ d.zero
        → row.accuracy ≡ unchecked
        → Swept rows
        → Swept (skip row status why rows)

  abbrev IsSound : BenchRow d.V → Type 0
  IsSound r = HasSpeedup d r × HasVerdict d r

  append-All :
      (rows : List (BenchRow d.V)) (r : BenchRow d.V)
      → All IsSound rows
      → IsSound r
      → All IsSound (rows ++ r ∷ [])
  append-All [] r h k = (k, tt)
  append-All (x ∷ rows) r h k = (h.0, append-All rows r h.1 k)

  Swept-IsSound : (rows : List (BenchRow d.V)) → Swept rows → All IsSound rows
  unfolding skip
  Swept-IsSound _ empty = tt
  Swept-IsSound _ (measured b row flops rows w fresh sweep) =
      let (r, e, judged) = measure-IsJudged d b row flops rows w fresh in
      subst (All IsSound) (sym e)
        (append-All rows r (Swept-IsSound rows sweep) (judged.0, judged.1))
  Swept-IsSound _ (compared b row flops writes rows w fresh sweep) =
      let (r, e, judged) = measure_vs_baseline-IsJudged d b row flops writes rows w fresh in
      subst (All IsSound) (sym e)
        (append-All rows r (Swept-IsSound rows sweep) (judged.0, judged.1))
  Swept-IsSound _ (skipped row status why rows blank fresh sweep) =
      append-All rows _ (Swept-IsSound rows sweep) (inl blank, inl fresh)

  count-IsBalanced :
      (rs : List (BenchRow d.V)) (n : Counts d.V)
      → All IsSound rs
      → IsBalanced n
      → IsBalanced (count rs n)
  unfolding count
  count-IsBalanced [] n h k = k
  count-IsBalanced (r ∷ rs) n h k = count-IsBalanced rs _ h.1 (one_more-IsBalanced r n h.0.1 k)

  abbrev pub no_counts : Counts d.V
  no_counts = record {
    ok = 0;
    unsupported = 0;
    failed = 0;
    no_test = 0;
    acc_fail = 0;
    acc_relaxed = 0;
    speedups = [];
  }

  -- In the report of a sweep, whatever the operators, vendors and checks did: every row is counted under
  -- one of the four statuses, the answers out of tolerance are among the failed rows, the speedups that
  -- are averaged and the relaxed passes are together at most the ok rows, and each row's speedup and
  -- verdict rest on its own columns as for a single attempt.
  pub Swept-count :
      (rows : List (BenchRow d.V))
      → Swept rows
      → (total (count rows no_counts) ≡ length rows)
        × ((count rows no_counts).acc_fail ≤ (count rows no_counts).failed)
        × (length (count rows no_counts).speedups + (count rows no_counts).acc_relaxed
            ≤ (count rows no_counts).ok)
        × All IsSound rows
  Swept-count rows sweep =
      let sound = Swept-IsSound rows sweep in
      let balanced = count-IsBalanced rows no_counts sound (ground arith, ground arith) in
      let whole : total no_counts ≡ 0 = refl in
      (omega (arith, total-count rows no_counts, whole), balanced.0, balanced.1, sound)

-- ===== src/Harness/Report/Judged.antt =====
-- The rows of measure_vs_baseline (ctest/common.cpp): what the verdict on a row rests on.
use cwapper.Base.{
  ◌≡◌, ◌≢◌, refl, ◌⊎◌, inl, inr, Bool, true, false, ◌&&◌, List, [], ◌∷◌, ◌++◌, String, none, some,
  Option-cases, Bool-cases, arith, if◌then◌else◌,
}
use cwapper.Types.{Status}
use cwapper.Floats.{Doubles}
use cwapper.Harness.Report.{
  BenchRow, unchecked, pass, pass_relaxed, fail, baseline_ok, row_ok, row_failed, Subject, positive,
  gate, verdict, refusal, Part, text, with_baseline, with_timing, with_ratios, timed, Trial, judge,
  or_judge, or_time, measure, measure_vs_baseline,
}

module _ (d : Doubles) where
  -- The speedup is blank, or the quotient of two positive times over an answer that passed.
  abbrev pub HasSpeedup : BenchRow d.V → Type 0
  HasSpeedup row =
      (row.speedup ≡ d.zero)
      ⊎ ((row.speedup ≡ d.over row.baseline_ms row.median_ms)
          × (row.baseline_status ≡ baseline_ok)
          × (positive d row.baseline_ms ≡ true)
          × (positive d row.median_ms ≡ true)
          × ((row.accuracy ≡ pass) ⊎ (row.accuracy ≡ pass_relaxed)))

  -- What each verdict rests on: the ratios and the columns of the row itself.
  abbrev pub HasVerdict : BenchRow d.V → Type 0
  HasVerdict row =
      (row.accuracy ≡ unchecked)
      ⊎ ((row.accuracy ≡ pass) × (d.le row.error_ratio d.one ≡ true) × (row.status ≡ row_ok))
      ⊎ ((row.accuracy ≡ pass_relaxed)
          × (d.le row.error_ratio d.one ≡ false)
          × (d.le row.relaxed_error_ratio d.one ≡ true)
          × (row.baseline_accuracy ≡ fail)
          × (row.baseline_status ≡ baseline_ok)
          × (row.status ≡ row_ok))
      ⊎ ((row.accuracy ≡ fail)
          × (d.le row.error_ratio d.one ≡ false)
          × (row.status ≡ row_failed)
          × (row.speedup ≡ d.zero))

  abbrev pub IsOkRow : BenchRow d.V → Bool → Type 0
  IsOkRow row returned =
      ((returned ≡ true) × (row.status ≡ row_ok)) ⊎ ((returned ≡ false) × (row.status ≢ row_ok))

  -- A row as step 6 finds it.
  record IsOpen (row : BenchRow d.V) : Type 0 where
    speedup : row.speedup ≡ d.zero
    vendor : (row.baseline_accuracy ≡ unchecked) ⊎ (row.baseline_status ≡ baseline_ok)

  verdict-HasSpeedup :
      (vendor : String) (checkable : Bool) (strict relaxed : d.V) (row : BenchRow d.V)
      → row.speedup ≡ d.zero
      → HasSpeedup (verdict d vendor checkable strict relaxed row).1
  unfolding verdict gate
  verdict-HasSpeedup vendor checkable strict relaxed row h = ground arith

  verdict-HasVerdict :
      (vendor : String) (checkable : Bool) (strict relaxed : d.V) (row : BenchRow d.V)
      → IsOpen row
      → row.error_ratio ≡ (if checkable then strict else d.zero)
      → row.relaxed_error_ratio ≡ (if d.le d.zero relaxed then relaxed else d.zero)
      → HasVerdict (verdict d vendor checkable strict relaxed row).1
  unfolding verdict gate
  verdict-HasVerdict vendor checkable strict relaxed row fresh e f =
      ground (arith, fresh.speedup, fresh.vendor)

  verdict-row_ok :
      (vendor : String) (checkable : Bool) (strict relaxed : d.V) (row : BenchRow d.V)
      → IsOkRow
          (verdict d vendor checkable strict relaxed row).1
          (verdict d vendor checkable strict relaxed row).0
  unfolding verdict gate
  verdict-row_ok vendor checkable strict relaxed row = ground arith

  -- The row after an attempt.
  abbrev pub IsJudged : BenchRow d.V → Bool → Type 0
  IsJudged row returned = HasSpeedup row × HasVerdict row × IsOkRow row returned

module _ (d : Doubles) (b : Subject d) where
  abbrev pub Fresh : BenchRow d.V → Type 0
  Fresh row =
      (row.speedup ≡ d.zero) × (row.baseline_accuracy ≡ unchecked) × (row.accuracy ≡ unchecked)

  -- The row with the vendor's columns is as the verdict wants it.
  with_baseline-IsOpen :
      (checks : Bool) (row : BenchRow d.V) (trial : Trial d.V) (w : b.World)
      → row.speedup ≡ d.zero
      → row.baseline_accuracy ≡ unchecked
      → ((with_baseline d b checks row (trial, w)).0.speedup ≡ d.zero)
        × (((with_baseline d b checks row (trial, w)).0.baseline_accuracy ≡ unchecked)
            ⊎ ((with_baseline d b checks row (trial, w)).0.baseline_status ≡ baseline_ok))
        × ((with_baseline d b checks row (trial, w)).0.error_ratio ≡ row.error_ratio)
        × ((with_baseline d b checks row (trial, w)).0.relaxed_error_ratio
            ≡ row.relaxed_error_ratio)
  unfolding with_baseline
  with_baseline-IsOpen checks row trial w h k = ground arith

  judge-IsJudged :
      (checkable : Bool) (strict relaxed flops : d.V) (writes : Bool) (row : BenchRow d.V)
      (rows : List (BenchRow d.V)) (w : b.World)
      → Fresh row
      → (r : BenchRow d.V) × ((judge d b checkable strict relaxed flops writes row rows w).1
          ≡ rows ++ r ∷ [])
        × IsJudged d r (judge d b checkable strict relaxed flops writes row rows w).0
  unfolding judge
  judge-IsJudged checkable strict relaxed flops writes row rows w fresh =
      let timing = timed d b w in
      let trial = b.base timing.1 in
      let facts =
        with_baseline-IsOpen (writes && checkable)
          (with_timing d b flops timing.0 (with_ratios d b checkable strict relaxed row)) trial.0
          trial.1 fresh.0 fresh.1 in
      let vendor =
        (with_baseline d b (writes && checkable)
          (with_timing d b flops timing.0 (with_ratios d b checkable strict relaxed row))
          trial).0 in
      (
        (verdict d b.vendor checkable strict relaxed vendor).1,
        refl,
        (
          verdict-HasSpeedup d b.vendor checkable strict relaxed vendor facts.0,
          verdict-HasVerdict d b.vendor checkable strict relaxed vendor
              (record { speedup = facts.0; vendor = facts.1 }) facts.2 facts.3,
          verdict-row_ok d b.vendor checkable strict relaxed vendor,
        ),
      )

  pub refused-IsJudged :
      (start : List (Part d.V)) (st : Status) (row refused : BenchRow d.V)
      → Fresh row
      → refusal d start st row ≡ some refused
      → IsJudged d refused false
  refused-IsJudged start st row refused fresh h = ground arith

  or_judge-IsJudged :
      (row : BenchRow d.V) (flops : d.V) (writes : Bool) (rows : List (BenchRow d.V)) (w : b.World)
      → Fresh row
      → (r : BenchRow d.V) × ((or_judge d b none row flops writes rows w).1 ≡ rows ++ r ∷ [])
        × IsJudged d r (or_judge d b none row flops writes rows w).0
  or_judge-IsJudged row flops writes rows w fresh =
      let strict = b.verify false w in
      let relaxed = b.verify true strict.1 in
      elim (Bool-cases (d.le d.zero strict.0)) [
        | inl e ↦
            rw (e) (judge-IsJudged true strict.0 relaxed.0 flops writes row rows relaxed.1 fresh)
        | inr e ↦
            rw (e) (
              judge-IsJudged false strict.0 (d.literal "-1.0") flops writes row rows strict.1 fresh)
      ]

  -- A row comes in blank. However the operator, the vendor and the check behave, the call adds one row
  -- to the report: its speedup is blank or the quotient of two positive times over an answer that
  -- passed, with the vendor measured; "pass" and "fail" stand over a ratio within and beyond 1,
  -- "pass_relaxed" only where the vendor, measured, failed at the strict ratio too and the relaxed ratio
  -- is within 1; and the call returns true exactly if the row's status is ok.
  pub measure_vs_baseline-IsJudged :
      (row : BenchRow d.V) (flops : d.V) (writes : Bool) (rows : List (BenchRow d.V)) (w : b.World)
      → Fresh row
      → (r : BenchRow d.V) × ((measure_vs_baseline d b row flops writes rows w).1 ≡ rows ++ r ∷ [])
        × IsJudged d r (measure_vs_baseline d b row flops writes rows w).0
  unfolding measure_vs_baseline
  measure_vs_baseline-IsJudged row flops writes rows w fresh =
      let first = b.once w in
      let start = text "operator returned " ∷ [] in
      elim (Option-cases (refusal d start first.0 row)) [
        | inl e ↦ rw (e) (or_judge-IsJudged row flops writes rows first.1 fresh)
        | inr (refused, e) ↦
            rw (e) (refused, refl, refused-IsJudged start first.0 row refused fresh e)
      ]

  time_row-IsJudged :
      (row : BenchRow d.V) (flops : d.V) (rows : List (BenchRow d.V)) (w : b.World)
      → Fresh row
      → (r : BenchRow d.V) × ((or_time d b none row flops rows w).1 ≡ rows ++ r ∷ [])
        × IsJudged d r (or_time d b none row flops rows w).0
  time_row-IsJudged row flops rows w fresh = (_, refl, (inl fresh.0, inl fresh.2, inl (refl, refl)))

  -- Likewise for a measurement without a vendor: one more row, without a verdict or a speedup.
  pub measure-IsJudged :
      (row : BenchRow d.V) (flops : d.V) (rows : List (BenchRow d.V)) (w : b.World)
      → Fresh row
      → (r : BenchRow d.V) × ((measure d b row flops rows w).1 ≡ rows ++ r ∷ [])
        × IsJudged d r (measure d b row flops rows w).0
  unfolding measure
  measure-IsJudged row flops rows w fresh =
      let first = b.once w in
      elim (Option-cases (refusal d [] first.0 row)) [
        | inl e ↦ rw (e) (time_row-IsJudged row flops rows first.1 fresh)
        | inr (refused, e) ↦ rw (e) (refused, refl, refused-IsJudged [] first.0 row refused fresh e)
      ]

-- ===== src/Harness/Report.antt =====
-- BenchReport of ctest/common.hpp and ctest/common.cpp: the measurements that add rows to a report.
-- What the callbacks and the clock do stands in the fields of `Subject`; the rows are those of Row.
pub mod Json
pub mod Judged
pub mod Summary
use cwapper.Base.{
  ℕ, zero, suc, ◌/◌, Bool, true, false, not, ◌&&◌, ◌||◌, List, [], ◌∷◌, ◌++◌, String, Option, none,
  some, length, get_or, if◌then◌else◌,
}
use cwapper.Types.{Status, success, not_supported}
use cwapper.Floats.{Doubles}
unfoldable pub use cwapper.Harness.Row.{gate, verdict, median}
pub use cwapper.Harness.Row.{
  RowStatus, row_ok, row_not_supported, row_failed, not_implemented_in_test, row_other, Accuracy,
  unchecked, pass, pass_relaxed, fail, BaselineStatus, baseline_ok, baseline_unavailable,
  baseline_failed, Part, text, number, name_of, BenchRow, Trial, new_row, positive, rate, refusal,
}

-- What a measurement calls: the operator, the check of what is in the output buffer, the vendor, the
-- wait for the device and the clock. `World` is all that they read and change.
pub record Subject (d : Doubles) : Type 1 where
  pub World : Type 0
  pub once : World → Status × World
  pub verify : Bool → World → d.V × World
  pub base : World → Trial d.V × World
  pub sync : World → World
  pub now : World → d.V × World
  pub available : Bool
  pub vendor : String

abbrev pub warmup : ℕ
warmup = 10

abbrev pub iters : ℕ
iters = 100

module _ (d : Doubles) (b : Subject d) where
  unfoldable pub warm_up : ℕ → b.World → b.World
  warm_up zero w = w
  warm_up (suc k) w = warm_up k (b.once w).1

  -- One timed call.
  abbrev sample : b.World → d.V × b.World
  sample w =
      let start = b.now w in
      let stop = b.now (b.sync (b.once start.1).1) in (d.minus stop.0 start.0, stop.1)

  unfoldable pub samples : ℕ → b.World → List d.V × b.World
  samples zero w = ([], w)
  samples (suc k) w =
      let first = sample w in let rest = samples k first.1 in (first.0 ∷ rest.0, rest.1)

  -- The warm-up and the timed calls.
  unfoldable pub timed : b.World → d.V × b.World
  unfolding median warm_up samples
  timed w = let runs = samples iters (b.sync (warm_up warmup w)) in (median d runs.0, runs.1)

  -- What a measurement leaves: whether the row is ok, the rows and the world.
  abbrev Measured : Type 0
  Measured = Bool × List (BenchRow d.V) × b.World

  abbrev time_row : BenchRow d.V → d.V → List (BenchRow d.V) → d.V × b.World → Measured
  time_row row flops rows (ms, w) =
      let speed = if positive d flops && positive d ms then rate d flops ms else d.zero in
      (true, rows ++ record row { status = row_ok; median_ms = ms; gflops = speed } ∷ [], w)

  abbrev or_time :
      Option (BenchRow d.V) → BenchRow d.V → d.V → List (BenchRow d.V) → b.World → Measured
  or_time (some refused) row flops rows w = (false, rows ++ refused ∷ [], w)
  or_time none row flops rows w = time_row row flops rows (timed w)

  unfoldable pub measure : BenchRow d.V → d.V → List (BenchRow d.V) → b.World → Measured
  unfolding timed
  measure row flops rows w =
      let first = b.once w in or_time (refusal d [] first.0 row) row flops rows first.1

  -- The vendor's columns. The check reads what the vendor left in the output buffer.
  unfoldable pub with_baseline : Bool → BenchRow d.V → Trial d.V × b.World → BenchRow d.V × b.World
  with_baseline checks row (trial, w) =
      let timing = record row { baseline_status = baseline_ok; baseline_ms = trial.median_ms } in
      let checked = b.verify false w in
      let ratio = checked.0 in
      if not trial.is_ok
      then (
        record row {
          baseline_status = if b.available then baseline_failed else baseline_unavailable;
          baseline_detail = trial.reason;
        },
        w,
      )
      else if checks
      then (
        record timing {
          baseline_error_ratio = if d.le d.zero ratio then ratio else d.zero;
          baseline_accuracy = if d.le d.zero ratio && d.le ratio d.one then pass else fail;
        },
        checked.1,
      )
      else (timing, w)

  -- The ratios, before anything is timed.
  abbrev with_ratios : Bool → d.V → d.V → BenchRow d.V → BenchRow d.V
  with_ratios checkable strict relaxed row = record row {
    error_ratio = if checkable then strict else d.zero;
    relaxed_error_ratio = if d.le d.zero relaxed then relaxed else d.zero;
  }

  abbrev with_timing : d.V → d.V → BenchRow d.V → BenchRow d.V
  with_timing flops ms row = record row {
    median_ms = ms;
    gflops = if positive d flops && positive d ms then rate d flops ms else row.gflops;
  }

  -- From the second ratio on.
  unfoldable pub judge :
      Bool → d.V → d.V → d.V → Bool → BenchRow d.V → List (BenchRow d.V) → b.World → Measured
  unfolding timed with_baseline verdict
  judge checkable strict relaxed flops writes row rows w =
      let timing = timed w in
      let row = with_timing flops timing.0 (with_ratios checkable strict relaxed row) in
      let vendor = with_baseline (writes && checkable) row (b.base timing.1) in
      let final = verdict d b.vendor checkable strict relaxed vendor.0 in
      (final.0, rows ++ final.1 ∷ [], vendor.1)

  abbrev or_judge :
      Option (BenchRow d.V) → BenchRow d.V → d.V → Bool → List (BenchRow d.V) → b.World → Measured
  or_judge (some refused) row flops writes rows w = (false, rows ++ refused ∷ [], w)
  or_judge none row flops writes rows w =
      let strict = b.verify false w in
      let relaxed = b.verify true strict.1 in
      if d.le d.zero strict.0
      then judge true strict.0 relaxed.0 flops writes row rows relaxed.1
      else judge false strict.0 (d.literal "-1.0") flops writes row rows strict.1

  unfoldable pub measure_vs_baseline :
      BenchRow d.V → d.V → Bool → List (BenchRow d.V) → b.World → Measured
  unfolding judge
  measure_vs_baseline row flops writes rows w =
      let first = b.once w in
      or_judge (refusal d (text "operator returned " ∷ []) first.0 row) row flops writes rows
        first.1

-- BenchReport::skip
unfoldable pub skip :
    {V : Type 0} → BenchRow V → RowStatus → String → List (BenchRow V) → List (BenchRow V)
skip row status why rows = rows ++ record row { status = status; detail = text why ∷ [] } ∷ []

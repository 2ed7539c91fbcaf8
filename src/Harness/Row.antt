-- ===== src/Harness/Row.antt =====
-- The rows of BenchReport (ctest/common.hpp), and the verdict on a row (ctest/common.cpp).
-- A text with numbers in it is the list of its parts.
use cwapper.Base.{
  ◌/◌, Bool, true, false, not, ◌&&◌, ◌||◌, List, [], ◌∷◌, ◌++◌, String, Option, none, some, length,
  get_or, if◌then◌else◌,
}
use cwapper.Types.{Status, success, not_supported}
use cwapper.Floats.{Doubles}

pub data RowStatus : Type 0 where
  row_ok row_not_supported row_failed not_implemented_in_test : RowStatus
  row_other : String → RowStatus

pub data Accuracy : Type 0 where
  unchecked pass pass_relaxed fail : Accuracy

pub data BaselineStatus : Type 0 where
  baseline_ok baseline_unavailable baseline_failed : BaselineStatus

pub data Part (V : Type 0) : Type 0 where
  text : String → Part V
  number : V → Part V
  name_of : Status → Part V

-- The tags and the free-form numbers are written as they were given, and left out.
pub record BenchRow (V : Type 0) : Type 0 where
  pub status : RowStatus
  pub detail : List (Part V)
  pub median_ms : V
  pub gflops : V
  pub baseline_ms : V
  pub speedup : V
  pub accuracy : Accuracy
  pub error_ratio : V
  pub relaxed_error_ratio : V
  pub baseline_accuracy : Accuracy
  pub baseline_error_ratio : V
  pub baseline_status : BaselineStatus
  pub baseline_detail : String

-- baseline::Status, and the Timing that the call fills in.
pub record Trial (V : Type 0) : Type 0 where
  pub is_ok : Bool
  pub reason : String
  pub median_ms : V

abbrev pub new_row : (d : Doubles) → BenchRow d.V
new_row d = record {
  status = row_ok;
  detail = [];
  median_ms = d.zero;
  gflops = d.zero;
  baseline_ms = d.zero;
  speedup = d.zero;
  accuracy = unchecked;
  error_ratio = d.zero;
  relaxed_error_ratio = d.zero;
  baseline_accuracy = unchecked;
  baseline_error_ratio = d.zero;
  baseline_status = baseline_unavailable;
  baseline_detail = "";
}

abbrev is_fail : Accuracy → Bool
is_fail fail = true
is_fail _ = false

abbrev is_pass : Accuracy → Bool
is_pass pass = true
is_pass _ = false

abbrev is_relaxed : Accuracy → Bool
is_relaxed pass_relaxed = true
is_relaxed _ = false

abbrev is_baseline_ok : BaselineStatus → Bool
is_baseline_ok baseline_ok = true
is_baseline_ok _ = false

module _ (d : Doubles) where
  -- x > 0, which is false for a NaN.
  abbrev pub positive : d.V → Bool
  positive x = d.le d.zero x && not (d.le x d.zero)

  insert_sample : d.V → List d.V → List d.V
  insert_sample x [] = x ∷ []
  insert_sample x (y ∷ ys) =
      let rest = insert_sample x ys in if d.le x y then x ∷ y ∷ ys else y ∷ rest

  unfoldable pub sort_samples : List d.V → List d.V
  unfolding insert_sample
  sort_samples [] = []
  sort_samples (x ∷ xs) = insert_sample x (sort_samples xs)

  unfoldable pub median : List d.V → d.V
  unfolding sort_samples
  median samples = get_or (sort_samples samples) (length samples / 2) d.zero

  abbrev pub rate : d.V → d.V → d.V
  rate flops ms = d.over flops (d.times ms (d.literal "1e6"))

  -- The rows that the first call already decides; `prefix` stands before the name of its status.
  abbrev pub refusal : List (Part d.V) → Status → BenchRow d.V → Option (BenchRow d.V)
  refusal prefix success row = none
  refusal prefix not_supported row = some (record row {
    status = row_not_supported;
    detail = text "operator declined this configuration on this backend" ∷ [];
  })
  refusal prefix st row =
      some (record row { status = row_failed; detail = prefix ++ name_of st ∷ [] })

  -- The speedup is written over an answer that passed.
  unfoldable pub gate : BenchRow d.V → BenchRow d.V
  gate row =
      let final = record row { status = row_ok } in
      if is_baseline_ok row.baseline_status
        && positive row.baseline_ms
        && positive row.median_ms
        && (is_pass row.accuracy || is_relaxed row.accuracy)
      then record final { speedup = d.over row.baseline_ms row.median_ms }
      else final

  abbrev softer : Accuracy → String → List (Part d.V)
  softer pass vendor = text vendor ∷ text " passed strict, so spec 6.3.1 does not apply" ∷ []
  softer _ vendor =
      text
        "there is no vendor baseline to confirm the matrix is hard for both (spec 6.3.1 requires it)"
      ∷ []

  -- The verdict on the two ratios, and whether the row is ok.
  unfoldable pub verdict : String → Bool → d.V → d.V → BenchRow d.V → Bool × BenchRow d.V
  unfolding gate
  verdict vendor checkable strict relaxed row =
      let soft = d.le d.zero relaxed && d.le relaxed d.one in
      if not checkable
      then (true, gate (record row { accuracy = unchecked }))
      else if d.le strict d.one
      then (true, gate (record row { accuracy = pass }))
      else if is_fail row.baseline_accuracy && soft
      then (
        true,
        gate (record row {
          accuracy = pass_relaxed;
          detail =
              text "PASS(relaxed) per spec 6.3.1: strict ratio "
              ∷ number strict
              ∷ text ", relaxed "
              ∷ number relaxed
              ∷ text "; "
              ∷ text vendor
              ∷ text " also failed strict (ratio "
              ∷ number row.baseline_error_ratio
              ∷ text ")"
              ∷ [];
        }),
      )
      else (
        false,
        record row {
          accuracy = fail;
          status = row_failed;
          detail =
              text "result outside tolerance: strict ratio "
              ∷ number strict
              ∷ (if soft
                  then text "; relaxed would pass ("
                    ∷ number relaxed
                    ∷ text ") but "
                    ∷ softer row.baseline_accuracy vendor
                  else []);
        },
      )

-- ===== src/Tests/Harness.antt =====
-- What the test programs share, at concrete values: natural numbers in the place of the doubles.
use cwapper.Base.{
  ℕ, suc, ◌+◌, ◌*◌, ◌/◌, ◌%◌, ◌≤◌, ◌≡◌, ◌≢◌, ◌⊎◌, refl, arith, true, false, List, [], ◌∷◌, ◌++◌,
  some, none, length, All, inl, inr,
}
use cwapper.Types.{success}
use cwapper.Exec.{ok, ◌>>=◌}
use cwapper.Harness.Buffer.{from, download, download-from}
use cwapper.Harness.Half.{float_to_fp16, fp16_to_float}
use cwapper.Harness.Half.Nearest.{float_to_fp16-fp16_to_float, float_to_fp16-IsNearest}
use cwapper.Harness.Report.{BenchRow, new_row, Subject, measure_vs_baseline}
use cwapper.Harness.Report.Judged.{IsJudged, HasSpeedup, HasVerdict, measure_vs_baseline-IsJudged}
use cwapper.Harness.Report.Summary.{compared, empty, count, no_counts, total, Swept-count}
use cwapper.Harness.Report.Json.{IsPrintable, json_escape, read_string, read_string-json_escape}
use cwapper.Harness.Values.{worst_of, max_error_ratio}
use cwapper.Harness.Values.Within.{IsOrdered, IsWithin, max_error_ratio-IsWithin}
use cwapper.Harness.Random.{Generator}
use cwapper.Harness.Corpus.{File, listed, load_once, thrown, load_once-thrown}
use cwapper.Market.Text.{codes}
use cwapper.Tests.Bench.{bench, bench-IsMemory, start}
use cwapper.Tests.Market.{naturals}

abbrev three_bytes : List ℕ
three_bytes = 1 ∷ 2 ∷ 3 ∷ []

download-from_example :
    (from bench 8 three_bytes >>= λ p. download bench p 3) start
    ≡ (ok three_bytes, (from bench 8 three_bytes start).1)
download-from_example =
    download-from bench bench-IsMemory 8 12288 three_bytes start _ _ (ground arith) (ground arith)
      refl refl

float_to_fp16-fp16_to_float_example : float_to_fp16 (fp16_to_float 0x8001) ≡ 0x8001
float_to_fp16-fp16_to_float_example =
    float_to_fp16-fp16_to_float 0x8001 (ground arith) (ground arith)

abbrev third : ℕ
third = 0x3eaaaaab

float_to_fp16-IsNearest_example :
    (float_to_fp16 third % 32768 * 8192 + 939524096 ≤ third % 2147483648 + 4096)
    × (third % 2147483648 ≤ float_to_fp16 third % 32768 * 8192 + 939524096 + 4096)
    × ((third % 8192 ≢ 4096) ⊎ (float_to_fp16 third % 2 ≡ 0))
    × (float_to_fp16 third / 32768 ≡ third / 2147483648)
float_to_fp16-IsNearest_example =
    float_to_fp16-IsNearest third (ground arith) (ground arith) (ground arith)

-- A clock that goes on by one at every look, a vendor that needs 4, and an answer at ratio 1.
abbrev subject : Subject naturals
subject = record {
  World = ℕ;
  once = λ w. (success, w);
  verify = λ relaxed w. (1, w);
  base = λ w. (record { is_ok = true; reason = ""; median_ms = 4 }, w);
  sync = λ w. w;
  now = λ w. (w, suc w);
  available = true;
  vendor = "vendor";
}

measure_vs_baseline-IsJudged_example :
    (r : BenchRow ℕ) × ((measure_vs_baseline naturals subject (new_row naturals) 10 true [] 0).1
      ≡ r ∷ [])
    × IsJudged naturals r (measure_vs_baseline naturals subject (new_row naturals) 10 true [] 0).0
measure_vs_baseline-IsJudged_example =
    measure_vs_baseline-IsJudged naturals subject (new_row naturals) 10 true [] 0 (refl, refl, refl)

abbrev sweep : List (BenchRow ℕ)
sweep = (measure_vs_baseline naturals subject (new_row naturals) 10 true [] 0).1

Swept-count_example :
    (total naturals (count naturals sweep (no_counts naturals)) ≡ length sweep)
    × ((count naturals sweep (no_counts naturals)).acc_fail
        ≤ (count naturals sweep (no_counts naturals)).failed)
    × (length (count naturals sweep (no_counts naturals)).speedups
          + (count naturals sweep (no_counts naturals)).acc_relaxed
        ≤ (count naturals sweep (no_counts naturals)).ok)
    × All (λ r. HasSpeedup naturals r × HasVerdict naturals r) sweep
Swept-count_example =
    Swept-count naturals sweep
      (compared subject (new_row naturals) 10 true [] 0 (refl, refl, refl) empty)

-- A tab, a newline, a quote, a backslash and a letter.
abbrev reason : List ℕ
reason = 9 ∷ 10 ∷ 34 ∷ 92 ∷ 97 ∷ []

reason-IsPrintable : All IsPrintable reason
reason-IsPrintable = (
  inr (inr (inr refl)),
  (inr (inl refl), (inl (ground arith), (inl (ground arith), (inl (ground arith), tt)))),
)

read_string-json_escape_example :
    read_string false (json_escape reason ++ 34 ∷ codes ", 1") ≡ some (reason, codes ", 1")
read_string-json_escape_example = read_string-json_escape reason (codes ", 1") reason-IsPrintable

naturals-IsOrdered : IsOrdered naturals
naturals-IsOrdered = record {
  trans = λ a b c h k. ground arith;
  total = λ a b h k. ground arith;
  zero_zero = ground arith;
  infinity_one = ground arith;
}

abbrev answer_pair : List ℕ
answer_pair = 5 ∷ 7 ∷ []

abbrev dense_pair : List ℕ
dense_pair = 4 ∷ 6 ∷ []

near :
    naturals.le (max_error_ratio naturals answer_pair dense_pair (record { rtol = 1; atol = 1 })) 1
    ≡ true
unfolding max_error_ratio worst_of
near = ground arith

max_error_ratio-IsWithin_example :
    (length answer_pair ≡ length dense_pair)
    × IsWithin naturals (record { rtol = 1; atol = 1 }) answer_pair dense_pair
max_error_ratio-IsWithin_example =
    max_error_ratio-IsWithin naturals (record { rtol = 1; atol = 1 }) naturals-IsOrdered answer_pair
      dense_pair (refl, (refl, tt)) near

abbrev no_draws : Generator ℕ
no_draws = record { Rng = Unit {0}; seeded = λ n. tt; unit = λ s. (0, s); value = λ s. (0, s) }

abbrev files : List File
files = record { path = "a.mtx"; stem = "a"; lines = none } ∷ []

load_once-thrown_example :
    ((load_once naturals (λ n. true) no_draws (listed files)).failures
      ≡ thrown naturals (λ n. true) files)
    × (((load_once naturals (λ n. true) no_draws (listed files)).real ≡ false)
        ⊎ (length (load_once naturals (λ n. true) no_draws (listed files)).entries
              + length (thrown naturals (λ n. true) files)
            ≡ 1))
load_once-thrown_example = load_once-thrown naturals (λ n. true) no_draws files

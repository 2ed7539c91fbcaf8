-- ===== src/Harness/Report/Json.antt =====
-- json_escape and the counts of write_accuracy_json (ctest/common.cpp).
use cwapper.Base.{
  ℕ, suc, ◌≡◌, refl, ap, ◌∙◌, arith, Bool, true, false, List, [], ◌∷◌, ◌++◌, Option, none, some,
  ◌==◌, ltb, ◌||◌, ◌≤◌, ◌⊎◌, All, if◌then◌else◌,
}
use mathlib.Core.List.{append_assoc}
use cwapper.Harness.Report.{
  BenchRow, RowStatus, row_not_supported, not_implemented_in_test, row_other, Accuracy, pass, fail,
}
use cwapper.Market.Text.{codes, starts_with}

-- The characters by their codes: 34 is '"', 92 is '\', 10, 13 and 9 are the newline, the return and
-- the tab, 110, 114 and 116 are the letters after a backslash that stand for them.
abbrev escaped : ℕ → List ℕ
escaped c =
    if c == 34
    then 92 ∷ 34 ∷ []
    else if c == 92
    then 92 ∷ 92 ∷ []
    else if c == 10
    then 92 ∷ 110 ∷ []
    else if c == 13
    then 92 ∷ 114 ∷ []
    else if c == 9
    then 92 ∷ 116 ∷ []
    else c ∷ []

unfoldable pub json_escape : List ℕ → List ℕ
json_escape [] = []
json_escape (c ∷ cs) = escaped c ++ json_escape cs

-- A string of JSON as RFC 8259 has it, from the character after the opening quote on: it ends at the
-- first quote that no backslash stands before, a control character below 32 must not stand in it, and
-- behind a backslash come a quote, a backslash, a slash or one of the letters b, f, n, r and t. (The
-- code of four digits behind `u` is left out: json_escape never writes one.)
abbrev meant : ℕ → Option ℕ
meant c =
    if c == 34 || c == 92 || c == 47
    then some c
    else if c == 98
    then some 8
    else if c == 102
    then some 12
    else if c == 110
    then some 10
    else if c == 114
    then some 13
    else if c == 116
    then some 9
    else none

abbrev with_char : ℕ → Option (List ℕ × List ℕ) → Option (List ℕ × List ℕ)
with_char c none = none
with_char c (some (cs, rest)) = some (c ∷ cs, rest)

abbrev with_meant : Option ℕ → Option (List ℕ × List ℕ) → Option (List ℕ × List ℕ)
with_meant none read = none
with_meant (some c) read = with_char c read

-- `after` says that a backslash stands before. The second list of the result is what follows the
-- closing quote.
unfoldable pub read_string : Bool → List ℕ → Option (List ℕ × List ℕ)
read_string after [] = none
read_string true (c ∷ cs) = with_meant (meant c) (read_string false cs)
read_string false (c ∷ cs) =
    let plain = read_string false cs in
    let behind = read_string true cs in
    if c == 34
    then some ([], cs)
    else if c == 92
    then behind
    else if ltb c 32
    then none
    else with_char c plain

-- No control character but the newline, the return and the tab.
abbrev pub IsPrintable : ℕ → Type 0
IsPrintable c = (32 ≤ c) ⊎ ((c ≡ 10) ⊎ ((c ≡ 13) ⊎ (c ≡ 9)))

read_string-escaped :
    (c : ℕ) (cs : List ℕ)
    → IsPrintable c
    → read_string false (escaped c ++ cs) ≡ with_char c (read_string false cs)
unfolding read_string
read_string-escaped c cs h = ground arith

-- For every text whose only characters below 32 are newlines, returns and tabs, and whatever follows
-- the closing quote: a reader of JSON strings accepts what json_escape writes between quotes, gets the
-- whole text back, and goes on behind the closing quote.
pub read_string-json_escape :
    (text rest : List ℕ)
    → All IsPrintable text
    → read_string false (json_escape text ++ 34 ∷ rest) ≡ some (text, rest)
unfolding json_escape read_string
read_string-json_escape [] rest h = refl
read_string-json_escape (c ∷ cs) rest h =
    ap (read_string false) (append_assoc (escaped c) (json_escape cs) (34 ∷ rest))
    ∙ read_string-escaped c (json_escape cs ++ 34 ∷ rest) h.0
    ∙ ap (with_char c) (read_string-json_escape cs rest h.1)

-- The counts of the accuracy file. `std::string::rfind("skipped", 0) == 0` is the test of a prefix.
pub record Verdicts : Type 0 where
  pub passed : ℕ
  pub failed : ℕ
  pub unchecked : ℕ
  pub skipped : ℕ
  pub no_test : ℕ

abbrev by_accuracy : Accuracy → Verdicts → Verdicts
by_accuracy pass n = record n { passed = suc n.passed }
by_accuracy fail n = record n { failed = suc n.failed }
by_accuracy _ n = record n { unchecked = suc n.unchecked }

abbrev by_status : RowStatus → Verdicts → Verdicts
by_status not_implemented_in_test n = record n { no_test = suc n.no_test }
by_status row_not_supported n = record n { skipped = suc n.skipped }
by_status (row_other text) n =
    if starts_with (codes "skipped") (codes text) then record n { skipped = suc n.skipped } else n
by_status _ n = n

unfoldable pub count_verdicts : {V : Type 0} → List (BenchRow V) → Verdicts → Verdicts
count_verdicts [] n = n
count_verdicts (r ∷ rs) n = count_verdicts rs (by_status r.status (by_accuracy r.accuracy n))

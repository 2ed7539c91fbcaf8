-- ===== src/Meta/Offsets.antt =====
-- The row offsets of a row-sorted COO matrix (src/core/csr_meta.cpp: build_coo_row_offsets).
use cwapper.Base.{
  ℕ, zero, suc, ◌+◌, ◌≤◌, ◌<◌, ℤ, pos, ◌≤ℤ◌, lt_ℤ, List, [], ◌∷◌, ◌≡◌, refl, ◌⊎◌, inr, arith,
  length, get_or, replicate, length-replicate, ltb, pos_part, if◌then◌else◌, true,
}
use cwapper.Types.{invalid_value}
use cwapper.Exec.{ok, err}
use cwapper.Meta.{increment, count_rows, accumulate}

-- How many of the rows stand before row `i`.
abbrev pub count_below : ℕ → List ℤ → ℕ
count_below i [] = 0
count_below i (r ∷ rest) = (if lt_ℤ r (pos i) then 1 else 0) + count_below i rest

-- Every row is in range, and none is below the one before it.
abbrev pub IsRowSorted : ℤ → ℤ → List ℤ → Type 0
IsRowSorted rows previous [] = Unit {0}
IsRowSorted rows previous (r ∷ rest) =
    (pos 0 ≤ℤ r) × (lt_ℤ r rows ≡ true) × (previous ≤ℤ r) × IsRowSorted rows r rest

abbrev pub sum_to : ℕ → List ℕ → ℕ
sum_to zero xs = 0
sum_to (suc n) [] = 0
sum_to (suc n) (x ∷ xs) = x + sum_to n xs

sum_to-increment :
    (n i : ℕ) (xs : List ℕ)
    → i < length xs
    → sum_to n (increment i xs) ≡ sum_to n xs + (if ltb i n then 1 else 0)
unfolding increment
sum_to-increment zero i [] h = elim h [ ]
sum_to-increment (suc n) i [] h = elim h [ ]
sum_to-increment zero i (x ∷ xs) h = ground arith
sum_to-increment (suc n) zero (x ∷ xs) h = ground arith
sum_to-increment (suc n) (suc i) (x ∷ xs) h = ground (arith, sum_to-increment n i xs)

length-increment : (i : ℕ) (xs : List ℕ) → length (increment i xs) ≡ length xs
unfolding increment
length-increment i [] = refl
length-increment zero (x ∷ xs) = refl
length-increment (suc i) (x ∷ xs) = ground (arith, length-increment i xs)

sum_to-replicate : (n k : ℕ) → sum_to n (replicate k 0) ≡ 0
sum_to-replicate zero k = refl
sum_to-replicate (suc n) zero = refl
sum_to-replicate (suc n) (suc k) = ground (arith, sum_to-replicate n k)

pub get_or-accumulate :
    (t : ℕ) (xs : List ℕ) (i : ℕ)
    → i < length xs
    → get_or (accumulate t xs) i 0 ≡ t + sum_to (suc i) xs
unfolding accumulate
get_or-accumulate t [] i h = elim h [ ]
get_or-accumulate t (x ∷ xs) zero h = ground arith
get_or-accumulate t (x ∷ xs) (suc i) h = omega (arith, get_or-accumulate (t + x) xs i (omega arith))

pub length-accumulate : (t : ℕ) (xs : List ℕ) → length (accumulate t xs) ≡ length xs
unfolding accumulate
length-accumulate t [] = refl
length-accumulate t (x ∷ xs) = omega (arith, length-accumulate (t + x) xs)

-- The first loop keeps the length and adds each row one place up.
sum_to-count_rows :
    (n : ℕ) (previous : ℤ) (rs : List ℤ) (before after : List ℕ) (i : ℕ)
    → suc n ≤ length before
    → count_rows (pos n) previous rs before ≡ ok after
    → (sum_to (suc i) after ≡ sum_to (suc i) before + count_below i rs)
      × (length after ≡ length before)
unfolding count_rows
sum_to-count_rows n previous [] before after i room h = ground arith
sum_to-count_rows n previous (r ∷ rs) before after i room h = ground (
  arith,
  sum_to-count_rows n r rs (increment (suc (pos_part r)) before) after i,
  sum_to-increment (suc i) (suc (pos_part r)) before,
  length-increment (suc (pos_part r)) before,
)

-- The offsets of a COO matrix of n rows: entry i, up to n, is the number of nonzeros in the rows
-- before row i. So the nonzeros of row i are those from entry i up to entry i + 1.
pub get_or-accumulate-count_rows :
    (n : ℕ) (rs : List ℤ) (counts : List ℕ) (i : ℕ)
    → count_rows (pos n) (pos 0) rs (replicate (suc n) 0) ≡ ok counts
    → i ≤ n
    → get_or (accumulate 0 counts) i 0 ≡ count_below i rs
get_or-accumulate-count_rows n rs counts i h le =
    let zeros : List ℕ = replicate (suc n) 0 in
    let size = length-replicate {A = ℕ} (suc n) 0 in
    let totals = sum_to-count_rows n (pos 0) rs zeros counts i (omega (arith, size)) h in
    omega (
      arith,
      size,
      totals,
      sum_to-replicate (suc i) (suc n),
      get_or-accumulate 0 counts i (omega (arith, size, totals)),
    )

-- It is accepted exactly if the rows are in range and sorted.
pub count_rows-IsRowSorted :
    (rows previous : ℤ) (rs : List ℤ) (offsets counts : List ℕ)
    → count_rows rows previous rs offsets ≡ ok counts
    → IsRowSorted rows previous rs
unfolding count_rows
count_rows-IsRowSorted rows previous [] offsets counts h = tt
count_rows-IsRowSorted rows previous (r ∷ rs) offsets counts h =
    ground (arith, count_rows-IsRowSorted rows r rs (increment (suc (pos_part r)) offsets) counts)

pub IsRowSorted-count_rows :
    (rows previous : ℤ) (rs : List ℤ) (offsets : List ℕ)
    → IsRowSorted rows previous rs
    → (counts : List ℕ) × (count_rows rows previous rs offsets ≡ ok counts)
unfolding count_rows
IsRowSorted-count_rows rows previous [] offsets h = (offsets, refl)
IsRowSorted-count_rows rows previous (r ∷ rs) offsets h =
    let (counts, e) = IsRowSorted-count_rows rows r rs (increment (suc (pos_part r)) offsets) h.3 in
    (counts, ground arith)

-- The only refusal is INVALID_VALUE.
pub count_rows-cases :
    (rows previous : ℤ) (rs : List ℤ) (offsets : List ℕ)
    → (count_rows rows previous rs offsets ≡ err invalid_value)
      ⊎ ((counts : List ℕ) × (count_rows rows previous rs offsets ≡ ok counts))
unfolding count_rows
count_rows-cases rows previous [] offsets = inr (offsets, refl)
count_rows-cases rows previous (r ∷ rs) offsets =
    ground (arith, count_rows-cases rows r rs (increment (suc (pos_part r)) offsets))

pub length-count_rows :
    (rows previous : ℤ) (rs : List ℤ) (before after : List ℕ)
    → count_rows rows previous rs before ≡ ok after
    → length after ≡ length before
unfolding count_rows
length-count_rows rows previous [] before after h = ground arith
length-count_rows rows previous (r ∷ rs) before after h = ground (
  arith,
  length-count_rows rows r rs (increment (suc (pos_part r)) before) after,
  length-increment (suc (pos_part r)) before,
)

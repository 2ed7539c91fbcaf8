-- ===== src/Meta/Sorted.antt =====
-- The check of the column order (src/core/csr_meta.cpp: check_csr_columns_sorted).
use cwapper.Base.{ℤ, pos, ◌≤ℤ◌, lt_ℤ, List, [], ◌∷◌, ◌≡◌, refl, arith, Option, some, none, true}
use cwapper.Exec.{ok}
use cwapper.Meta.{scan_row, scan_rows, slice}

-- The columns of one row: in range, and each above the one before it.
abbrev pub IsAbove : Option ℤ → ℤ → Type 0
IsAbove none c = Unit {0}
IsAbove (some q) c = lt_ℤ q c ≡ true

abbrev pub IsAscending : ℤ → Option ℤ → List ℤ → Type 0
IsAscending cols previous [] = Unit {0}
IsAscending cols previous (c ∷ rest) =
    (pos 0 ≤ℤ c) × (lt_ℤ c cols ≡ true) × IsAbove previous c × IsAscending cols (some c) rest

-- The rows: offsets that stay within the nonzeros and do not fall, and ascending columns in each.
abbrev pub IsSortedCsr : ℤ → ℤ → List ℤ → List ℤ → Type 0
IsSortedCsr cols nnz columns [] = Unit {0}
IsSortedCsr cols nnz columns (begin ∷ []) = Unit {0}
IsSortedCsr cols nnz columns (begin ∷ end ∷ rest) =
    (pos 0 ≤ℤ begin)
    × (end ≤ℤ nnz)
    × (begin ≤ℤ end)
    × IsAscending cols none (slice begin end columns)
    × IsSortedCsr cols nnz columns (end ∷ rest)

scan_row-IsAscending :
    (cols : ℤ) (previous : Option ℤ) (xs : List ℤ)
    → scan_row cols previous xs ≡ ok tt
    → IsAscending cols previous xs
unfolding scan_row
scan_row-IsAscending cols previous [] h = tt
scan_row-IsAscending cols none (c ∷ rest) h =
    ground (arith, scan_row-IsAscending cols (some c) rest)
scan_row-IsAscending cols (some q) (c ∷ rest) h =
    ground (arith, scan_row-IsAscending cols (some c) rest)

IsAscending-scan_row :
    (cols : ℤ) (previous : Option ℤ) (xs : List ℤ)
    → IsAscending cols previous xs
    → scan_row cols previous xs ≡ ok tt
unfolding scan_row
IsAscending-scan_row cols none [] h = refl
IsAscending-scan_row cols (some q) [] h = refl
IsAscending-scan_row cols none (c ∷ rest) h =
    ground (arith, IsAscending-scan_row cols (some c) rest)
IsAscending-scan_row cols (some q) (c ∷ rest) h =
    ground (arith, IsAscending-scan_row cols (some c) rest)

pub scan_rows-IsSortedCsr :
    (cols nnz : ℤ) (columns offsets : List ℤ)
    → scan_rows cols nnz columns offsets ≡ ok tt
    → IsSortedCsr cols nnz columns offsets
unfolding scan_rows
scan_rows-IsSortedCsr cols nnz columns [] h = tt
scan_rows-IsSortedCsr cols nnz columns (begin ∷ []) h = tt
scan_rows-IsSortedCsr cols nnz columns (begin ∷ end ∷ rest) h = ground (
  arith,
  scan_row-IsAscending cols none (slice begin end columns),
  scan_rows-IsSortedCsr cols nnz columns (end ∷ rest),
)

pub IsSortedCsr-scan_rows :
    (cols nnz : ℤ) (columns offsets : List ℤ)
    → IsSortedCsr cols nnz columns offsets
    → scan_rows cols nnz columns offsets ≡ ok tt
unfolding scan_rows
IsSortedCsr-scan_rows cols nnz columns [] h = refl
IsSortedCsr-scan_rows cols nnz columns (begin ∷ []) h = refl
IsSortedCsr-scan_rows cols nnz columns (begin ∷ end ∷ rest) h = ground (
  arith,
  IsAscending-scan_row cols none (slice begin end columns),
  IsSortedCsr-scan_rows cols nnz columns (end ∷ rest),
)

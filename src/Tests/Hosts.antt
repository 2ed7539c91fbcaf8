-- ===== src/Tests/Hosts.antt =====
-- The host matrices of the test programs, at concrete values.
use cwapper.Base.{
  int32_max, pos_part, ℕ, ◌+◌, ◌*◌, ◌≤◌, ◌≡◌, ◌<◌, refl, arith, pos, negsuc, true, List, [], ◌∷◌,
  ◌++◌, map, none, length, get_or, min, All, ℤ, ◌+ℤ◌, ◌-ℤ◌, ◌*ℤ◌, eq_ℤ, le_ℤ,
}
use cwapper.Floats.{Doubles}
use cwapper.Exec.{ok}
use cwapper.Meta.{count_rows, accumulate, slice}
use cwapper.Meta.Sorted.{IsSortedCsr}
use cwapper.Harness.Matrix.{
  CsrMatrix, row, expand_rows, lower_triangle, triangle_row, below_diagonal, pack,
}
use cwapper.Harness.Triangle.{weight, lower_triangle-IsSortedCsr}
use cwapper.Harness.Sell.{pack_sell, width, slice_slots}
use cwapper.Harness.Sell.Slots.{pack_sell-slot_of}
use cwapper.Harness.Expanded.{count_rows-expand_rows}
use cwapper.Tests.Market.{naturals}

-- 1 0 2
-- 3 4 0
-- 0 5 6
abbrev full : CsrMatrix ℕ
full = record {
  rows = 3;
  cols = 3;
  nnz = 6;
  indptr = pos 0 ∷ pos 2 ∷ pos 4 ∷ pos 6 ∷ [];
  indices = 0 ∷ 2 ∷ 0 ∷ 1 ∷ 1 ∷ 2 ∷ [];
  values = 1 ∷ 2 ∷ 3 ∷ 4 ∷ 5 ∷ 6 ∷ [];
}

abbrev dense : List ℕ
dense = 1 ∷ 2 ∷ 3 ∷ 4 ∷ 5 ∷ 6 ∷ []

full-IsSortedCsr : IsSortedCsr (pos 3) (pos 6) (map pos full.indices) full.indptr
unfolding slice
full-IsSortedCsr = ground arith

few_entries : (lower_triangle naturals full).nnz ≤ int32_max
unfolding lower_triangle triangle_row below_diagonal pack row
few_entries = ground arith

lower_triangle-IsSortedCsr_example :
    IsSortedCsr
      (pos (lower_triangle naturals full).cols)
      (pos (lower_triangle naturals full).nnz)
      (map pos (lower_triangle naturals full).indices)
      (lower_triangle naturals full).indptr
    × ((kept : List (ℕ × ℕ)) × (row (lower_triangle naturals full) 1
          ≡ kept ++ (1, 1 + weight naturals 0 kept) ∷ [])
        × All (λ (e : ℕ × ℕ). (e.0 < 1) × (e.0 < min full.rows full.cols)) kept)
lower_triangle-IsSortedCsr_example =
    lower_triangle-IsSortedCsr naturals full (pos 3) (pos 6) 1 refl full-IsSortedCsr (ground arith)
      few_entries

-- The integers, with the quotients by 1 and -1.
abbrev integers : Doubles
integers = record {
  V = ℤ;
  zero = pos 0;
  one = pos 1;
  plus = λ a b. a +ℤ b;
  minus = λ a b. a -ℤ b;
  times = λ a b. a *ℤ b;
  over = λ a b. a *ℤ b;
  negate = λ a. pos 0 -ℤ a;
  magnitude = λ a. a;
  is_zero = λ a. eq_ℤ a (pos 0);
  le = λ a b. le_ℤ a b;
  read = λ text. none;
  literal = λ text. pos 1;
  whole = λ n. pos n;
  infinity = pos 0;
  is_finite = λ a. true;
}

--  1  0
--  3 -1
abbrev triangle : CsrMatrix ℤ
triangle = record {
  rows = 2;
  cols = 2;
  nnz = 3;
  indptr = pos 0 ∷ pos 1 ∷ pos 3 ∷ [];
  indices = 0 ∷ 0 ∷ 1 ∷ [];
  values = pos 1 ∷ pos 3 ∷ negsuc 0 ∷ [];
}

count_rows-expand_rows_example :
    (counts : List ℕ) × (count_rows
        (pos 3)
        (pos 0)
        (expand_rows 0 (pos 0 ∷ pos 2 ∷ pos 2 ∷ pos 5 ∷ []))
        (0 ∷ 0 ∷ 0 ∷ 0 ∷ [])
      ≡ ok counts)
    × (accumulate 0 counts ≡ 0 ∷ 2 ∷ 2 ∷ 5 ∷ [])
unfolding accumulate
count_rows-expand_rows_example = count_rows-expand_rows (2 ∷ 0 ∷ 3 ∷ []) (ground arith)

-- 2 0 0
-- 1 3 0
-- 0 0 4
abbrev rows_of_three : List (List (ℕ × ℕ))
rows_of_three = ((0, 2) ∷ []) ∷ ((0, 1) ∷ (1, 3) ∷ []) ∷ ((2, 4) ∷ []) ∷ []

two_wide : 1 < width naturals rows_of_three 2 0 2
unfolding width
two_wide = ground arith

few_slots : length (pack_sell naturals 3 2 rows_of_three).cols ≤ int32_max
unfolding pack_sell slice_slots width
few_slots = ground arith

pack_sell-slot_of_example :
    (get_or
        (pack_sell naturals 3 2 rows_of_three).cols
        (pos_part (get_or (pack_sell naturals 3 2 rows_of_three).offsets 0 (pos 0)) + (1 * 2 + 1))
        (negsuc 0)
      ≡ pos 1)
    × (get_or
          (pack_sell naturals 3 2 rows_of_three).values
          (pos_part (get_or (pack_sell naturals 3 2 rows_of_three).offsets 0 (pos 0)) + (1 * 2 + 1))
          0
        ≡ 3)
    × (2 ≤ width naturals rows_of_three 2 0 2)
pack_sell-slot_of_example =
    pack_sell-slot_of naturals 3 2 rows_of_three 0 1 1 (ground arith) two_wide (ground arith)
      few_slots

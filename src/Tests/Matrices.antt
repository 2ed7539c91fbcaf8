-- ===== src/Tests/Matrices.antt =====
-- What is read from the index arrays of the test matrices.
use cwapper.Base.{ℕ, ◌≤◌, ◌≡◌, ◌↔◌, refl, arith, pos, List, [], ◌∷◌, length, get_or, ◌-ℤ◌}
use cwapper.Types.{index_size, index_32i}
use cwapper.Exec.{ok, err}
use cwapper.Machine.{State, mat_at, set_mat}
use cwapper.Adaptor.{memcpy_h2d, memcpy_d2h}
use cwapper.Meta.{
  ints32, ints_of, words32, ensure_max_row_nnz, read_longest, build_coo_row_offsets, coo_offsets,
  check_csr_columns_sorted, count_rows, accumulate, longest_gap, scan_rows, scan_row, slice,
  major_extent, increment,
}
use cwapper.Meta.Build.{
  IsReadable, build_coo_row_offsets-count_below, build_coo_row_offsets_unsorted,
}
use cwapper.Meta.Columns.{AreReadable, check_csr_columns_sorted-IsSortedCsr}
use cwapper.Meta.Longest.{IsLongest, longest_of, ensure_max_row_nnz-IsLongest}
use cwapper.Meta.Offsets.{IsRowSorted, count_below}
use cwapper.Meta.Sorted.{IsSortedCsr}
use cwapper.Tests.Bench.{bench, bench-IsMemory, start, two_rows, two_rows_coo, load, store}

abbrev offsets_bytes : List ℕ
offsets_bytes = load 1000 12 start.mem

abbrev column_bytes : List ℕ
column_bytes = load 2000 12 start.mem

abbrev row_bytes : List ℕ
row_bytes = load 4000 12 start.mem

longest_is_two :
    ensure_max_row_nnz bench 2 start
    ≡ (ok (pos 2), set_mat 2 (record two_rows { max_row_nnz = pos 2 }) start)
unfolding ensure_max_row_nnz index_size ◌-ℤ◌ read_longest memcpy_d2h ints_of ints32 longest_gap
    major_extent load store words32
longest_is_two = refl

ensure_max_row_nnz-IsLongest_example :
    (ensure_max_row_nnz bench 2 start ≡ (
      ok (longest_of bench 2 start two_rows offsets_bytes),
      set_mat 2
          (record two_rows { max_row_nnz = longest_of bench 2 start two_rows offsets_bytes })
          start,
    ))
    × IsLongest (longest_of bench 2 start two_rows offsets_bytes) (ints_of index_32i offsets_bytes)
unfolding index_size major_extent
ensure_max_row_nnz-IsLongest_example =
    ensure_max_row_nnz-IsLongest bench 2 start two_rows offsets_bytes (ground arith) refl refl refl
      (ground arith) (ground arith) refl

readable : IsReadable bench 3 7000 start two_rows_coo row_bytes
unfolding index_size
readable = record {
  live = ground arith;
  target = ground arith;
  here = refl;
  not_negative = refl;
  some_nonzeros = refl;
  in_int32 = refl;
  width = ground arith;
  array = ground arith;
  read = refl;
}

abbrev built : State (ℕ → ℕ)
built = (build_coo_row_offsets bench 3 7000 start).1

built_ok : build_coo_row_offsets bench 3 7000 start ≡ (ok tt, built)
unfolding build_coo_row_offsets index_size coo_offsets memcpy_d2h memcpy_h2d ints_of ints32
    count_rows increment accumulate load store words32
built_ok = refl

build_coo_row_offsets-count_below_example :
    IsRowSorted (pos 2) (pos 0) (ints_of index_32i row_bytes)
    × ((mat_at built 3).coo_offsets_buffer ≡ 7000)
    × ((offsets : List ℕ) × (length offsets ≡ 3)
        × ((i : ℕ) → i ≤ 2 → get_or offsets i 0 ≡ count_below i (ints_of index_32i row_bytes))
        × (memcpy_d2h bench 7000 (length (words32 offsets)) built ≡ (ok (words32 offsets), built)))
build_coo_row_offsets-count_below_example =
    build_coo_row_offsets-count_below bench 3 7000 start two_rows_coo row_bytes readable
      bench-IsMemory built built_ok

-- The same matrix with its row indices the wrong way round.
abbrev falling : State (ℕ → ℕ)
falling = record start { mem = store 4000 (words32 (1 ∷ 0 ∷ 0 ∷ [])) (λ p. 0) }

abbrev falling_bytes : List ℕ
falling_bytes = load 4000 12 falling.mem

falling-IsReadable : IsReadable bench 3 7000 falling two_rows_coo falling_bytes
unfolding index_size
falling-IsReadable = record {
  live = ground arith;
  target = ground arith;
  here = refl;
  not_negative = refl;
  some_nonzeros = refl;
  in_int32 = refl;
  width = ground arith;
  array = ground arith;
  read = refl;
}

falling_unsorted : ¬ IsRowSorted (pos 2) (pos 0) (ints_of index_32i falling_bytes)
unfolding ints_of ints32 load store words32
falling_unsorted h = ground arith

build_coo_row_offsets_unsorted_example :
    build_coo_row_offsets bench 3 7000 falling ≡ (err cwapper.Types.Status.invalid_value, falling)
build_coo_row_offsets_unsorted_example =
    build_coo_row_offsets_unsorted bench 3 7000 falling two_rows_coo falling_bytes
      falling-IsReadable falling_unsorted

both_readable : AreReadable bench start two_rows offsets_bytes column_bytes
unfolding index_size
both_readable = record {
  full = refl;
  width = ground arith;
  column_width = ground arith;
  offsets_array = ground arith;
  columns_array = ground arith;
  some_nonzeros = ground arith;
  read_offsets = refl;
  read_columns = refl;
}

check_csr_columns_sorted-IsSortedCsr_example :
    ((check_csr_columns_sorted bench two_rows start).1 ≡ start)
    × (((check_csr_columns_sorted bench two_rows start).0 ≡ ok tt)
        ↔ IsSortedCsr
            (pos 2)
            (pos 3)
            (ints_of index_32i column_bytes)
            (ints_of index_32i offsets_bytes))
check_csr_columns_sorted-IsSortedCsr_example =
    check_csr_columns_sorted-IsSortedCsr bench start two_rows offsets_bytes column_bytes
      both_readable

columns_sorted : (check_csr_columns_sorted bench two_rows start).0 ≡ ok tt
unfolding check_csr_columns_sorted index_size slice memcpy_d2h ints_of ints32 scan_rows scan_row
    load store words32
columns_sorted = refl

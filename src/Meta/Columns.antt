-- ===== src/Meta/Columns.antt =====
-- check_csr_columns_sorted (src/core/csr_meta.cpp) as a whole.
use cwapper.Base.{
  ℕ, suc, ◌*◌, ◌<◌, pos, ◌≡◌, ◌≢◌, refl, ◌↔◌, arith, List, false, ◌||◌, ◌==◌, some, pos_part, le_ℤ,
  eq_ℤ,
}
use cwapper.Types.{index_size}
use cwapper.Descr.{SpMatDescr}
use cwapper.Exec.{ok}
use cwapper.Machine.{Machine, State}
use cwapper.Adaptor.Memory.{memcpy_d2h-copy_out}
use cwapper.Meta.{ints_of, scan_rows, check_csr_columns_sorted}
use cwapper.Meta.Sorted.{IsSortedCsr, scan_rows-IsSortedCsr, IsSortedCsr-scan_rows}

-- A CSR matrix with rows and nonzeros whose two index arrays the driver can read.
pub record AreReadable (m : Machine) (s : State m.Mem) (d : SpMatDescr) (offsets columns : List ℕ)
    : Type 0 where
  pub full : (le_ℤ d.rows (pos 0) || eq_ℤ d.nnz (pos 0)) ≡ false
  pub width : 0 < index_size d.offsets_type
  pub column_width : 0 < index_size d.indices_type
  pub offsets_array : d.offsets ≢ 0
  pub columns_array : d.indices ≢ 0
  pub some_nonzeros : 0 < pos_part d.nnz
  pub read_offsets :
      m.copy_out d.offsets (suc (pos_part d.rows) * index_size d.offsets_type) s.mem ≡ some offsets
  pub read_columns :
      m.copy_out d.indices (pos_part d.nnz * index_size d.indices_type) s.mem ≡ some columns

module _ (m : Machine) (s : State m.Mem) (d : SpMatDescr) (offsets columns : List ℕ)
    (call : AreReadable m s d offsets columns) where
  scanned : check_csr_columns_sorted m d s ≡ (
    scan_rows d.cols d.nnz (ints_of d.indices_type columns) (ints_of d.offsets_type offsets),
    s,
  )
  unfolding check_csr_columns_sorted
  scanned =
      let sized : (index_size d.offsets_type == 0 || index_size d.indices_type == 0) ≡ false =
        let a = call.width in let b = call.column_width in ground arith in
      let first =
        memcpy_d2h-copy_out m d.offsets _ offsets s (let a = call.width in grind arith)
          call.offsets_array call.read_offsets in
      let second =
        memcpy_d2h-copy_out m d.indices _ columns s
          (let a = call.column_width in let b = call.some_nonzeros in grind arith)
          call.columns_array call.read_columns in
      rw (call.full, sized, first, second) refl

  -- On a matrix with rows and nonzeros whose index arrays the driver can read (AreReadable): the check
  -- changes nothing. It succeeds exactly if the offsets stay within the nonzeros and do
  -- not fall, and the columns of each row are in range and strictly ascending.
  pub check_csr_columns_sorted-IsSortedCsr :
      ((check_csr_columns_sorted m d s).1 ≡ s)
      × (((check_csr_columns_sorted m d s).0 ≡ ok tt)
          ↔ IsSortedCsr d.cols d.nnz
              (ints_of d.indices_type columns)
              (ints_of d.offsets_type offsets))
  check_csr_columns_sorted-IsSortedCsr =
      rw (scanned) (refl, (scan_rows-IsSortedCsr _ _ _ _, IsSortedCsr-scan_rows _ _ _ _))

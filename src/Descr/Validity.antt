-- ===== src/Descr/Validity.antt =====
-- The descriptors that the library's own constructors make.
use cwapper.Base.{pos, ◌≤ℤ◌, ◌≡◌, ◌≢◌, ◌<◌, true}
use cwapper.Types.{
  dtype_size, index_size, is_known_base, is_csr, is_csc, is_coo, is_bsr, is_blocked_ell,
  is_sliced_ell,
}
use cwapper.Descr.{SpMatDescr}

-- Extents are not negative, the index base and the element sizes are known, a format with an offsets
-- array (CSR, CSC, BSR, sliced ELL) has one, block and slice sizes are positive where the format has
-- them, and the width of a blocked ELL is not negative. A matrix with nonzeros in CSR, CSC or COO has
-- its index and value arrays; the calls for the other formats take those as they are given.
pub record IsValid (d : SpMatDescr) : Type 0 where
  pub rows : pos 0 ≤ℤ d.rows
  pub cols : pos 0 ≤ℤ d.cols
  pub nnz : pos 0 ≤ℤ d.nnz
  pub base : is_known_base d.idx_base ≡ true
  pub value_size : 0 < dtype_size d.value_type
  pub offsets_size : 0 < index_size d.offsets_type
  pub indices_size : 0 < index_size d.indices_type
  pub csr_offsets : is_csr d.format ≡ true → d.offsets ≢ 0
  pub csc_offsets : is_csc d.format ≡ true → d.offsets ≢ 0
  pub csr_arrays : is_csr d.format ≡ true → pos 1 ≤ℤ d.nnz → (d.indices ≢ 0) × (d.values ≢ 0)
  pub csc_arrays : is_csc d.format ≡ true → pos 1 ≤ℤ d.nnz → (d.indices ≢ 0) × (d.values ≢ 0)
  pub bsr_offsets : is_bsr d.format ≡ true → d.offsets ≢ 0
  pub sliced_offsets : is_sliced_ell d.format ≡ true → d.offsets ≢ 0
  pub coo_arrays :
      is_coo d.format ≡ true → pos 1 ≤ℤ d.nnz → (d.row_ind ≢ 0) × ((d.indices ≢ 0) × (d.values ≢ 0))
  pub ell_blocks :
      is_blocked_ell d.format ≡ true → (pos 1 ≤ℤ d.ell_block_size) × (pos 0 ≤ℤ d.ell_cols)
  pub bsr_blocks : is_bsr d.format ≡ true → (pos 1 ≤ℤ d.row_block_dim) × (pos 1 ≤ℤ d.col_block_dim)
  pub slices : is_sliced_ell d.format ≡ true → pos 1 ≤ℤ d.slice_size

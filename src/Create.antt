-- ===== src/Create.antt =====
-- src/api/descriptors.cpp: the matrix and vector descriptors.
-- `descr` is the out parameter's address, and `p` is what operator new returns, 0 when it fails.
pub mod Calls
pub mod Dense
pub mod Lifecycle
pub mod Made
use cwapper.Base.{
  ℕ, ℤ, pos, negsuc, Bool, true, not, ◌&&◌, ◌||◌, none, some, ◌==◌, lt_ℤ, le_ℤ, if◌then◌else◌,
}
use cwapper.Types.{
  Format, invalid_value, not_supported, alloc_failed, IndexType, IndexBase, DataType, Order,
  order_col, csr, csc, coo, bsr, blocked_ell, sliced_ell, FillMode, DiagType, SpMatAttribute,
  attribute_fill_mode, attribute_diag_type, dtype_size, index_size, is_known_base, is_known_order,
  is_csr, is_col_major,
}
use cwapper.Descr.{
  SpMatDescr, DnMatDescr, DnVecDescr, SpVecDescr, new_spmat, new_dnmat, new_dnvec, new_spvec,
}
use cwapper.Exec.{Exec, pure, fail, gets, modify, refuse, ◌>>=◌, ◌>>◌}
use cwapper.Machine.{State, mat_at, set_mat, set_cell, update}

-- A call of the C interface, which returns a status.
abbrev pub Call : Type 0 → Type 0
Call Mem = Exec (State Mem) (Unit {0})

module _ {Mem : Type 0} where
  unfoldable pub check_common : ℤ → ℤ → ℤ → IndexBase → DataType → Call Mem
  check_common rows cols nnz base vtype = do
    refuse (lt_ℤ rows (pos 0) || lt_ℤ cols (pos 0) || lt_ℤ nnz (pos 0)) invalid_value
    refuse (not (is_known_base base)) invalid_value
    refuse (dtype_size vtype == 0) not_supported

  unfoldable pub check_index : IndexType → IndexType → Call Mem
  check_index a b = refuse (index_size a == 0 || index_size b == 0) invalid_value

  -- auto* d = new (std::nothrow) SpMatDescr(); ... *descr = d;
  abbrev pub publish : ℕ → ℕ → SpMatDescr → Call Mem
  publish descr p d = do
    refuse (p == 0) alloc_failed
    modify (set_mat p d)
    modify (set_cell descr p)

  unfoldable pub create_csr :
      ℕ → ℤ → ℤ → ℤ → ℕ → ℕ → ℕ → IndexType → IndexType → IndexBase → DataType → ℕ → Call Mem
  create_csr descr rows cols nnz offsets indices values offsets_type indices_type base vtype p = do
    refuse (descr == 0) invalid_value
    modify (set_cell descr 0)
    check_common rows cols nnz base vtype
    check_index offsets_type indices_type
    refuse (offsets == 0) invalid_value
    refuse (lt_ℤ (pos 0) nnz && (indices == 0 || values == 0)) invalid_value
    publish descr p (record new_spmat {
      format = csr;
      rows = rows;
      cols = cols;
      nnz = nnz;
      offsets = offsets;
      indices = indices;
      values = values;
      offsets_type = offsets_type;
      indices_type = indices_type;
      idx_base = base;
      value_type = vtype;
    })

  unfoldable pub create_csc :
      ℕ → ℤ → ℤ → ℤ → ℕ → ℕ → ℕ → IndexType → IndexType → IndexBase → DataType → ℕ → Call Mem
  create_csc descr rows cols nnz offsets indices values offsets_type indices_type base vtype p = do
    refuse (descr == 0) invalid_value
    modify (set_cell descr 0)
    check_common rows cols nnz base vtype
    check_index offsets_type indices_type
    refuse (offsets == 0) invalid_value
    refuse (lt_ℤ (pos 0) nnz && (indices == 0 || values == 0)) invalid_value
    publish descr p (record new_spmat {
      format = csc;
      rows = rows;
      cols = cols;
      nnz = nnz;
      offsets = offsets;
      indices = indices;
      values = values;
      offsets_type = offsets_type;
      indices_type = indices_type;
      idx_base = base;
      value_type = vtype;
    })

  unfoldable pub create_coo :
      ℕ → ℤ → ℤ → ℤ → ℕ → ℕ → ℕ → IndexType → IndexBase → DataType → ℕ → Call Mem
  create_coo descr rows cols nnz row_ind col_ind values idx_type base vtype p = do
    refuse (descr == 0) invalid_value
    modify (set_cell descr 0)
    check_common rows cols nnz base vtype
    check_index idx_type idx_type
    refuse (lt_ℤ (pos 0) nnz && (row_ind == 0 || col_ind == 0 || values == 0)) invalid_value
    publish descr p (record new_spmat {
      format = coo;
      rows = rows;
      cols = cols;
      nnz = nnz;
      row_ind = row_ind;
      indices = col_ind;
      values = values;
      offsets_type = idx_type;
      indices_type = idx_type;
      idx_base = base;
      value_type = vtype;
    })

  unfoldable pub create_bsr :
      ℕ
      → ℤ
      → ℤ
      → ℤ
      → ℤ
      → ℤ
      → ℕ
      → ℕ
      → ℕ
      → IndexType
      → IndexType
      → IndexBase
      → DataType
      → Order
      → ℕ
      → Call Mem
  create_bsr descr brows bcols bnnz row_dim col_dim offsets indices values offsets_type indices_type
        base vtype order p =
      do
        refuse (descr == 0) invalid_value
        modify (set_cell descr 0)
        check_common brows bcols bnnz base vtype
        check_index offsets_type indices_type
        refuse (le_ℤ row_dim (pos 0) || le_ℤ col_dim (pos 0)) invalid_value
        refuse (offsets == 0) invalid_value
        publish descr p (record new_spmat {
          format = bsr;
          rows = brows;
          cols = bcols;
          nnz = bnnz;
          row_block_dim = row_dim;
          col_block_dim = col_dim;
          offsets = offsets;
          indices = indices;
          values = values;
          offsets_type = offsets_type;
          indices_type = indices_type;
          idx_base = base;
          value_type = vtype;
          order = order;
        })

  unfoldable pub create_blocked_ell :
      ℕ → ℤ → ℤ → ℤ → ℤ → ℕ → ℕ → IndexType → IndexBase → DataType → ℕ → Call Mem
  create_blocked_ell descr rows cols block_size ell_cols col_ind value idx_type base vtype p = do
    refuse (descr == 0) invalid_value
    modify (set_cell descr 0)
    check_common rows cols (pos 0) base vtype
    check_index idx_type idx_type
    refuse (le_ℤ block_size (pos 0) || lt_ℤ ell_cols (pos 0)) invalid_value
    publish descr p (record new_spmat {
      format = blocked_ell;
      rows = rows;
      cols = cols;
      ell_block_size = block_size;
      ell_cols = ell_cols;
      indices = col_ind;
      values = value;
      offsets_type = idx_type;
      indices_type = idx_type;
      idx_base = base;
      value_type = vtype;
    })

  unfoldable pub create_sliced_ell :
      ℕ → ℤ → ℤ → ℤ → ℕ → ℕ → ℕ → IndexType → IndexBase → DataType → ℕ → Call Mem
  create_sliced_ell descr rows cols slice_size offsets col_ind values idx_type base vtype p = do
    refuse (descr == 0) invalid_value
    modify (set_cell descr 0)
    check_common rows cols (pos 0) base vtype
    check_index idx_type idx_type
    refuse (le_ℤ slice_size (pos 0)) invalid_value
    refuse (offsets == 0) invalid_value
    publish descr p (record new_spmat {
      format = sliced_ell;
      rows = rows;
      cols = cols;
      slice_size = slice_size;
      offsets = offsets;
      indices = col_ind;
      values = values;
      offsets_type = idx_type;
      indices_type = idx_type;
      idx_base = base;
      value_type = vtype;
    })

  unfoldable pub csr_set_pointers : ℕ → ℕ → ℕ → ℕ → Call Mem
  csr_set_pointers descr offsets indices values = do
    refuse (descr == 0) invalid_value
    d ← gets (λ s. mat_at s descr)
    refuse (not (is_csr d.format)) not_supported
    refuse (offsets == 0) invalid_value
    refuse (lt_ℤ (pos 0) d.nnz && (indices == 0 || values == 0)) invalid_value
    modify (
        set_mat descr (record d {
          offsets = offsets;
          indices = indices;
          values = values;
          max_row_nnz = negsuc 0;
          coo_offsets_buffer = 0;
          sddmm_row_ids_buffer = 0;
        }))

  unfoldable pub destroy_spmat : ℕ → Call Mem
  destroy_spmat descr = do
    refuse (descr == 0) invalid_value
    modify (λ s. record s { mats = update s.mats descr none })

  -- The four bytes at `data` as either enumeration.
  unfoldable pub spmat_set_attribute : ℕ → SpMatAttribute → ℕ → FillMode → DiagType → ℕ → Call Mem
  spmat_set_attribute descr attribute pointer fill diag size = do
    refuse (descr == 0 || pointer == 0) invalid_value
    d ← gets (λ s. mat_at s descr)
    elim attribute [
      | attribute_fill_mode ↦ do
        refuse (not (size == 4)) invalid_value
        modify (set_mat descr (record d { fill_mode = fill; fill_mode_set = true }))
      | attribute_diag_type ↦ do
        refuse (not (size == 4)) invalid_value
        modify (set_mat descr (record d { diag_type = diag }))
      | SpMatAttribute.other n ↦ fail not_supported
    ]

  -- `rows`, `cols` and `nnz` are the addresses of the out parameters; their values are returned.
  unfoldable pub spmat_get_size : ℕ → ℕ → ℕ → ℕ → Exec (State Mem) (ℤ × ℤ × ℤ)
  spmat_get_size descr rows cols nnz = do
    refuse (descr == 0 || rows == 0 || cols == 0 || nnz == 0) invalid_value
    d ← gets (λ s. mat_at s descr)
    pure (d.rows, d.cols, d.nnz)

  unfoldable pub spmat_get_format : ℕ → ℕ → Exec (State Mem) Format
  spmat_get_format descr format = do
    refuse (descr == 0 || format == 0) invalid_value
    d ← gets (λ s. mat_at s descr)
    pure d.format

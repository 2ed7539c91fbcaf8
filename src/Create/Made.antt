-- ===== src/Create/Made.antt =====
-- The descriptors that src/api/descriptors.cpp makes, and the tests before them.
use cwapper.Base.{ℕ, ℤ, pos, ◌≤ℤ◌, ◌≡◌, ◌<◌, arith, false, not, ◌&&◌, ◌||◌, ◌==◌, lt_ℤ, le_ℤ}
use cwapper.Types.{
  IndexType, IndexBase, DataType, Order, dtype_size, index_size, is_known_base, csr, csc, coo, bsr,
  blocked_ell, sliced_ell,
}
use cwapper.Descr.{new_spmat}
use cwapper.Descr.Validity.{IsValid}

pub csr-IsValid :
    (rows cols nnz : ℤ) (offsets indices values : ℕ) (t u : IndexType) (base : IndexBase)
    (vtype : DataType)
    → pos 0 ≤ℤ rows
    → pos 0 ≤ℤ cols
    → pos 0 ≤ℤ nnz
    → not (is_known_base base) ≡ false
    → 0 < dtype_size vtype
    → 0 < index_size t
    → 0 < index_size u
    → (offsets == 0) ≡ false
    → (lt_ℤ (pos 0) nnz && (indices == 0 || values == 0)) ≡ false
    → IsValid (record new_spmat {
      format = csr;
      rows = rows;
      cols = cols;
      nnz = nnz;
      offsets = offsets;
      indices = indices;
      values = values;
      offsets_type = t;
      indices_type = u;
      idx_base = base;
      value_type = vtype;
    })
csr-IsValid rows cols nnz offsets indices values t u base vtype h0 h1 h2 h3 h4 h5 h6 h7 h8 =
    ground arith

pub csc-IsValid :
    (rows cols nnz : ℤ) (offsets indices values : ℕ) (t u : IndexType) (base : IndexBase)
    (vtype : DataType)
    → pos 0 ≤ℤ rows
    → pos 0 ≤ℤ cols
    → pos 0 ≤ℤ nnz
    → not (is_known_base base) ≡ false
    → 0 < dtype_size vtype
    → 0 < index_size t
    → 0 < index_size u
    → (offsets == 0) ≡ false
    → (lt_ℤ (pos 0) nnz && (indices == 0 || values == 0)) ≡ false
    → IsValid (record new_spmat {
      format = csc;
      rows = rows;
      cols = cols;
      nnz = nnz;
      offsets = offsets;
      indices = indices;
      values = values;
      offsets_type = t;
      indices_type = u;
      idx_base = base;
      value_type = vtype;
    })
csc-IsValid rows cols nnz offsets indices values t u base vtype h0 h1 h2 h3 h4 h5 h6 h7 h8 =
    ground arith

pub coo-IsValid :
    (rows cols nnz : ℤ) (row_ind col_ind values : ℕ) (t : IndexType) (base : IndexBase)
    (vtype : DataType)
    → pos 0 ≤ℤ rows
    → pos 0 ≤ℤ cols
    → pos 0 ≤ℤ nnz
    → not (is_known_base base) ≡ false
    → 0 < dtype_size vtype
    → 0 < index_size t
    → 0 < index_size t
    → (lt_ℤ (pos 0) nnz && (row_ind == 0 || col_ind == 0 || values == 0)) ≡ false
    → IsValid (record new_spmat {
      format = coo;
      rows = rows;
      cols = cols;
      nnz = nnz;
      row_ind = row_ind;
      indices = col_ind;
      values = values;
      offsets_type = t;
      indices_type = t;
      idx_base = base;
      value_type = vtype;
    })
coo-IsValid rows cols nnz row_ind col_ind values t base vtype h0 h1 h2 h3 h4 h5 h6 h7 = ground arith

pub bsr-IsValid :
    (rows cols nnz row_dim col_dim : ℤ) (offsets indices values : ℕ) (t u : IndexType)
    (base : IndexBase) (vtype : DataType) (order : Order)
    → pos 0 ≤ℤ rows
    → pos 0 ≤ℤ cols
    → pos 0 ≤ℤ nnz
    → not (is_known_base base) ≡ false
    → 0 < dtype_size vtype
    → 0 < index_size t
    → 0 < index_size u
    → (le_ℤ row_dim (pos 0) || le_ℤ col_dim (pos 0)) ≡ false
    → (offsets == 0) ≡ false
    → IsValid (record new_spmat {
      format = bsr;
      rows = rows;
      cols = cols;
      nnz = nnz;
      row_block_dim = row_dim;
      col_block_dim = col_dim;
      offsets = offsets;
      indices = indices;
      values = values;
      offsets_type = t;
      indices_type = u;
      idx_base = base;
      value_type = vtype;
      order = order;
    })
bsr-IsValid rows cols nnz row_dim col_dim offsets indices values t u base vtype order h0 h1 h2 h3 h4
      h5 h6 h7 h8 =
    ground arith

pub blocked_ell-IsValid :
    (rows cols block_size ell_cols : ℤ) (col_ind value : ℕ) (t : IndexType) (base : IndexBase)
    (vtype : DataType)
    → pos 0 ≤ℤ rows
    → pos 0 ≤ℤ cols
    → not (is_known_base base) ≡ false
    → 0 < dtype_size vtype
    → 0 < index_size t
    → (le_ℤ block_size (pos 0) || lt_ℤ ell_cols (pos 0)) ≡ false
    → IsValid (record new_spmat {
      format = blocked_ell;
      rows = rows;
      cols = cols;
      ell_block_size = block_size;
      ell_cols = ell_cols;
      indices = col_ind;
      values = value;
      offsets_type = t;
      indices_type = t;
      idx_base = base;
      value_type = vtype;
    })
blocked_ell-IsValid rows cols block_size ell_cols col_ind value t base vtype h0 h1 h2 h3 h4 h5 =
    ground arith

pub sliced_ell-IsValid :
    (rows cols slice_size : ℤ) (offsets col_ind values : ℕ) (t : IndexType) (base : IndexBase)
    (vtype : DataType)
    → pos 0 ≤ℤ rows
    → pos 0 ≤ℤ cols
    → not (is_known_base base) ≡ false
    → 0 < dtype_size vtype
    → 0 < index_size t
    → le_ℤ slice_size (pos 0) ≡ false
    → (offsets == 0) ≡ false
    → IsValid (record new_spmat {
      format = sliced_ell;
      rows = rows;
      cols = cols;
      slice_size = slice_size;
      offsets = offsets;
      indices = col_ind;
      values = values;
      offsets_type = t;
      indices_type = t;
      idx_base = base;
      value_type = vtype;
    })
sliced_ell-IsValid rows cols slice_size offsets col_ind values t base vtype h0 h1 h2 h3 h4 h5 h6 =
    ground arith

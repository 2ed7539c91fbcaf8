-- ===== src/Descr.antt =====
-- The objects behind the opaque handles: src/core/internal.hpp, and the descriptors of
-- src/ops/spsv.cpp, src/ops/spsm.cpp and src/ops/spgemm.cpp. A pointer is a number, 0 for nullptr; an `int64_t` is an integer.
pub mod Validity
use cwapper.Base.{ℕ, String, ℤ, pos, negsuc, Bool, false, List, []}
use cwapper.Types.{
  PointerMode, host_mode, FillMode, lower, DiagType, non_unit, IndexBase, base_zero, IndexType,
  index_32i, Order, order_col, order_row, DataType, r_32f, Format, csr, Operation, non_transpose,
  SpSvAlg, spsv_default,
}

pub record Context : Type 0 where
  pub stream : ℕ
  pub pointer_mode : PointerMode
  pub device_index : ℕ
  pub device_arch : String
  pub last_error : String

pub record SpMatDescr : Type 0 where
  pub format : Format
  pub rows : ℤ
  pub cols : ℤ
  pub nnz : ℤ
  pub offsets : ℕ
  pub indices : ℕ
  pub row_ind : ℕ
  pub values : ℕ
  pub offsets_type : IndexType
  pub indices_type : IndexType
  pub idx_base : IndexBase
  pub value_type : DataType
  pub row_block_dim : ℤ
  pub col_block_dim : ℤ
  pub ell_block_size : ℤ
  pub ell_cols : ℤ
  pub slice_size : ℤ
  pub order : Order
  pub max_row_nnz : ℤ
  pub coo_offsets_buffer : ℕ
  pub sddmm_row_ids_buffer : ℕ
  pub fill_mode : FillMode
  pub diag_type : DiagType
  pub fill_mode_set : Bool

pub record DnMatDescr : Type 0 where
  pub rows : ℤ
  pub cols : ℤ
  pub ld : ℤ
  pub values : ℕ
  pub value_type : DataType
  pub order : Order

pub record DnVecDescr : Type 0 where
  pub size : ℤ
  pub values : ℕ
  pub value_type : DataType

pub record SpVecDescr : Type 0 where
  pub size : ℤ
  pub nnz : ℤ
  pub indices : ℕ
  pub values : ℕ
  pub idx_type : IndexType
  pub idx_base : IndexBase
  pub value_type : DataType

pub record SpSvDescr : Type 0 where
  pub buffer : ℕ
  pub analysed_matrix : ℕ
  pub analysed_op : Operation
  pub analysed_alg : SpSvAlg
  pub analysed : Bool

pub record SpSmDescr : Type 0 where
  pub buffer : ℕ
  pub analysed_matrix : ℕ
  pub analysed : Bool

-- `host_indptr` holds the `int32_t` row offsets on the host.
pub record SpGemmDescr : Type 0 where
  pub buffer1 : ℕ
  pub buffer2 : ℕ
  pub matrix_a : ℕ
  pub matrix_b : ℕ
  pub estimated : Bool
  pub computed : Bool
  pub rows : ℤ
  pub nnz_a : ℤ
  pub max_row_work : ℤ
  pub max_row_nnz : ℤ
  pub host_indptr : List ℤ

-- What `new T()` makes, by the member initialisers.
abbrev pub new_context : Context
new_context = record {
  stream = 0;
  pointer_mode = host_mode;
  device_index = 0;
  device_arch = "";
  last_error = "";
}

abbrev pub new_spmat : SpMatDescr
new_spmat = record {
  format = csr;
  rows = pos 0;
  cols = pos 0;
  nnz = pos 0;
  offsets = 0;
  indices = 0;
  row_ind = 0;
  values = 0;
  offsets_type = index_32i;
  indices_type = index_32i;
  idx_base = base_zero;
  value_type = r_32f;
  row_block_dim = pos 0;
  col_block_dim = pos 0;
  ell_block_size = pos 0;
  ell_cols = pos 0;
  slice_size = pos 0;
  order = order_row;
  max_row_nnz = negsuc 0;
  coo_offsets_buffer = 0;
  sddmm_row_ids_buffer = 0;
  fill_mode = lower;
  diag_type = non_unit;
  fill_mode_set = false;
}

abbrev pub new_dnmat : DnMatDescr
new_dnmat = record {
  rows = pos 0;
  cols = pos 0;
  ld = pos 0;
  values = 0;
  value_type = r_32f;
  order = order_col;
}

abbrev pub new_dnvec : DnVecDescr
new_dnvec = record { size = pos 0; values = 0; value_type = r_32f }

abbrev pub new_spvec : SpVecDescr
new_spvec = record {
  size = pos 0;
  nnz = pos 0;
  indices = 0;
  values = 0;
  idx_type = index_32i;
  idx_base = base_zero;
  value_type = r_32f;
}

abbrev pub new_spsv : SpSvDescr
new_spsv = record {
  buffer = 0;
  analysed_matrix = 0;
  analysed_op = non_transpose;
  analysed_alg = spsv_default;
  analysed = false;
}

abbrev pub new_spsm : SpSmDescr
new_spsm = record { buffer = 0; analysed_matrix = 0; analysed = false }

abbrev pub new_spgemm : SpGemmDescr
new_spgemm = record {
  buffer1 = 0;
  buffer2 = 0;
  matrix_a = 0;
  matrix_b = 0;
  estimated = false;
  computed = false;
  rows = pos 0;
  nnz_a = pos 0;
  max_row_work = pos 0;
  max_row_nnz = pos 0;
  host_indptr = [];
}

-- ===== src/Create/Dense.antt =====
-- The dense matrix, dense vector and sparse vector descriptors of src/api/descriptors.cpp.
use cwapper.Base.{ℕ, ℤ, pos, not, ◌&&◌, ◌||◌, none, some, ◌==◌, lt_ℤ, if◌then◌else◌}
use cwapper.Types.{
  invalid_value, not_supported, alloc_failed, IndexType, IndexBase, DataType, Order, dtype_size,
  is_col_major, is_known_order,
}
use cwapper.Descr.{new_dnmat, new_dnvec, new_spvec}
use cwapper.Exec.{modify, refuse, ◌>>◌}
use cwapper.Machine.{set_cell, update}
use cwapper.Create.{Call, check_common, check_index}

-- The fastest-varying extent, which the leading dimension must span.
abbrev pub fastest_extent : Order → ℤ → ℤ → ℤ
fastest_extent order rows cols = if is_col_major order then rows else cols

module _ {Mem : Type 0} where
  unfoldable pub create_dnvec : ℕ → ℤ → ℕ → DataType → ℕ → Call Mem
  create_dnvec descr size values vtype p = do
    refuse (descr == 0) invalid_value
    modify (set_cell descr 0)
    refuse (lt_ℤ size (pos 0)) invalid_value
    refuse (dtype_size vtype == 0) not_supported
    refuse (lt_ℤ (pos 0) size && values == 0) invalid_value
    refuse (p == 0) alloc_failed
    let d = record new_dnvec { size = size; values = values; value_type = vtype }
    modify (λ s. record s { dnvecs = update s.dnvecs p (some d) })
    modify (set_cell descr p)

  unfoldable pub destroy_dnvec : ℕ → Call Mem
  destroy_dnvec descr = do
    refuse (descr == 0) invalid_value
    modify (λ s. record s { dnvecs = update s.dnvecs descr none })

  unfoldable pub create_dnmat : ℕ → ℤ → ℤ → ℤ → ℕ → DataType → Order → ℕ → Call Mem
  create_dnmat descr rows cols ld values vtype order p = do
    refuse (descr == 0) invalid_value
    modify (set_cell descr 0)
    refuse (lt_ℤ rows (pos 0) || lt_ℤ cols (pos 0)) invalid_value
    refuse (dtype_size vtype == 0) not_supported
    refuse (not (is_known_order order)) invalid_value
    refuse (lt_ℤ ld (fastest_extent order rows cols)) invalid_value
    refuse (lt_ℤ (pos 0) rows && lt_ℤ (pos 0) cols && values == 0) invalid_value
    refuse (p == 0) alloc_failed
    let d = record new_dnmat {
      rows = rows;
      cols = cols;
      ld = ld;
      values = values;
      value_type = vtype;
      order = order;
    }
    modify (λ s. record s { dnmats = update s.dnmats p (some d) })
    modify (set_cell descr p)

  unfoldable pub destroy_dnmat : ℕ → Call Mem
  destroy_dnmat descr = do
    refuse (descr == 0) invalid_value
    modify (λ s. record s { dnmats = update s.dnmats descr none })

  unfoldable pub create_spvec : ℕ → ℤ → ℤ → ℕ → ℕ → IndexType → IndexBase → DataType → ℕ → Call Mem
  create_spvec descr size nnz indices values idx_type base vtype p = do
    refuse (descr == 0) invalid_value
    modify (set_cell descr 0)
    refuse (lt_ℤ size (pos 0) || lt_ℤ nnz (pos 0) || lt_ℤ size nnz) invalid_value
    check_common size (pos 1) nnz base vtype
    check_index idx_type idx_type
    refuse (lt_ℤ (pos 0) nnz && (indices == 0 || values == 0)) invalid_value
    refuse (p == 0) alloc_failed
    let d = record new_spvec {
      size = size;
      nnz = nnz;
      indices = indices;
      values = values;
      idx_type = idx_type;
      idx_base = base;
      value_type = vtype;
    }
    modify (λ s. record s { spvecs = update s.spvecs p (some d) })
    modify (set_cell descr p)

  unfoldable pub destroy_spvec : ℕ → Call Mem
  destroy_spvec descr = do
    refuse (descr == 0) invalid_value
    modify (λ s. record s { spvecs = update s.spvecs descr none })

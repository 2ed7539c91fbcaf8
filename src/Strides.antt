-- ===== src/Strides.antt =====
-- strides_of of src/ops/spmm.cpp, src/ops/sddmm.cpp and src/ops/spsm.cpp: how a dense operand is
-- walked, in elements of its type.
pub mod Address
use cwapper.Base.{ℕ, ℤ, pos, ◌*ℤ◌, if◌then◌else◌}
use cwapper.Types.{Operation, transposes, is_row_major}
use cwapper.Descr.{DnMatDescr}

pub record DenseStrides : Type 0 where
  pub row : ℤ
  pub col : ℤ

unfoldable pub strides_of : DnMatDescr → DenseStrides
strides_of d =
    if is_row_major d.order
    then record { row = d.ld; col = pos 1 }
    else record { row = pos 1; col = d.ld }

-- The strides of op(M): a transposition is a choice of which stride is which.
unfoldable pub op_strides : Operation → DnMatDescr → DenseStrides
unfolding strides_of
op_strides op d =
    if transposes op
    then record { row = (strides_of d).col; col = (strides_of d).row }
    else strides_of d

-- The same strides counted in components of the elements.
unfoldable pub in_units : ℤ → DenseStrides → DenseStrides
in_units unit t = record { row = t.row *ℤ unit; col = t.col *ℤ unit }

-- The extents of op(M).
unfoldable pub op_rows : Operation → DnMatDescr → ℤ
op_rows op d = if transposes op then d.cols else d.rows

unfoldable pub op_cols : Operation → DnMatDescr → ℤ
op_cols op d = if transposes op then d.rows else d.cols

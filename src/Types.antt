-- ===== src/Types.antt =====
-- The enumerations of include/flagsparse.h and the functions of src/core/dtype.cpp on them.
-- A C enumeration holds any integer; `other n` stands for a value that the header does not list.
pub mod Sizes
use mathlib.Core.Logic.{dite}
use cwapper.Base.{ℕ, ◌≡◌, ◌⊎◌, Bool, true, false, not, String, ℕ_discrete, ◌==◌, same}

-- flagsparseStatus_t
pub data Status : Type 0 where
  success not_initialized alloc_failed invalid_value arch_mismatch mapping_error : Status
  execution_failed internal_error matrix_type_not_supported zero_pivot : Status
  not_supported insufficient_resources : Status
  unlisted : ℕ → Status

pub data PointerMode : Type 0 where
  host_mode device_mode : PointerMode
  other : ℕ → PointerMode

pub data Operation : Type 0 where
  non_transpose transpose conjugate_transpose : Operation
  other : ℕ → Operation

pub data FillMode : Type 0 where
  lower upper : FillMode
  other : ℕ → FillMode

pub data DiagType : Type 0 where
  non_unit unit : DiagType
  other : ℕ → DiagType

pub data IndexBase : Type 0 where
  base_zero base_one : IndexBase
  other : ℕ → IndexBase

pub data IndexType : Type 0 where
  index_16u index_32i index_64i : IndexType
  other : ℕ → IndexType

pub data Order : Type 0 where
  order_col order_row : Order
  other : ℕ → Order

pub data DataType : Type 0 where
  r_16f r_32f r_64f c_32f c_64f r_16bf r_8i r_32i : DataType
  other : ℕ → DataType

pub data Format : Type 0 where
  csr csc coo bsr blocked_ell sliced_ell : Format

pub data SpMatAttribute : Type 0 where
  attribute_fill_mode attribute_diag_type : SpMatAttribute
  other : ℕ → SpMatAttribute

pub data SpMvAlg : Type 0 where
  spmv_default spmv_coo_alg1 spmv_csr_alg1 spmv_csr_alg2 spmv_coo_alg2 spmv_sell_alg1 : SpMvAlg
  other : ℕ → SpMvAlg

pub data SpSvAlg : Type 0 where
  spsv_default spsv_sell_alg1 spsv_sell_alg2 : SpSvAlg
  other : ℕ → SpSvAlg

pub data SpMmAlg : Type 0 where
  spmm_default spmm_coo_alg1 spmm_coo_alg2 spmm_csr_alg1 spmm_csr_alg2 spmm_csr_alg3 : SpMmAlg
  spmm_blocked_ell_alg1 : SpMmAlg
  other : ℕ → SpMmAlg

pub data SpSmAlg : Type 0 where
  spsm_default : SpSmAlg
  other : ℕ → SpSmAlg

pub data SpGemmAlg : Type 0 where
  spgemm_default : SpGemmAlg
  other : ℕ → SpGemmAlg

pub data SddmmAlg : Type 0 where
  sddmm_default : SddmmAlg
  other : ℕ → SddmmAlg

unfoldable pub DataType-discrete : Discrete DataType
DataType-discrete = hlevel ℕ_discrete

-- dtype.cpp: dtype_size
unfoldable pub dtype_size : DataType → ℕ
dtype_size r_8i = 1
dtype_size r_16f = 2
dtype_size r_16bf = 2
dtype_size r_32f = 4
dtype_size r_32i = 4
dtype_size r_64f = 8
dtype_size c_32f = 8
dtype_size c_64f = 16
dtype_size (DataType.other n) = 0

-- Triton's spellings of a scalar type; `unspelled` is the empty string.
pub data Scalar : Type 0 where
  fp16 bf16 fp32 fp64 i8 i32 i64 unspelled : Scalar

abbrev pub spelling : Scalar → String
spelling fp16 = "fp16"
spelling bf16 = "bf16"
spelling fp32 = "fp32"
spelling fp64 = "fp64"
spelling i8 = "i8"
spelling i32 = "i32"
spelling i64 = "i64"
spelling unspelled = ""

-- The test `s[0] == '\0'`.
abbrev pub is_unspelled : Scalar → Bool
is_unspelled unspelled = true
is_unspelled _ = false

-- dtype.cpp: triton_dtype
unfoldable pub triton_dtype : DataType → Scalar
triton_dtype r_16f = fp16
triton_dtype r_16bf = bf16
triton_dtype r_32f = fp32
triton_dtype r_64f = fp64
triton_dtype r_8i = i8
triton_dtype r_32i = i32
triton_dtype _ = unspelled

-- dtype.cpp: is_complex
unfoldable pub is_complex : DataType → Bool
is_complex c_32f = true
is_complex c_64f = true
is_complex _ = false

-- dtype.cpp: component_dtype
unfoldable pub component_dtype : DataType → DataType
component_dtype c_32f = r_32f
component_dtype c_64f = r_64f
component_dtype t = t

-- dtype.cpp: index_size
unfoldable pub index_size : IndexType → ℕ
index_size index_16u = 2
index_size index_32i = 4
index_size index_64i = 8
index_size (IndexType.other n) = 0

-- dtype.cpp: triton_index_dtype
unfoldable pub triton_index_dtype : IndexType → Scalar
triton_index_dtype index_32i = i32
triton_index_dtype index_64i = i64
triton_index_dtype _ = unspelled

-- Comparisons with a fixed value, as the code makes them.
abbrev pub is_host : PointerMode → Bool
is_host host_mode = true
is_host _ = false

abbrev pub is_base_zero : IndexBase → Bool
is_base_zero base_zero = true
is_base_zero _ = false

abbrev pub is_known_base : IndexBase → Bool
is_known_base base_zero = true
is_known_base base_one = true
is_known_base _ = false

abbrev pub is_known_order : Order → Bool
is_known_order order_col = true
is_known_order order_row = true
is_known_order _ = false

abbrev pub is_known_mode : PointerMode → Bool
is_known_mode host_mode = true
is_known_mode device_mode = true
is_known_mode _ = false

abbrev pub is_non_transpose : Operation → Bool
is_non_transpose non_transpose = true
is_non_transpose _ = false

abbrev pub transposes : Operation → Bool
transposes op = not (is_non_transpose op)

abbrev pub is_conjugate : Operation → Bool
is_conjugate conjugate_transpose = true
is_conjugate _ = false

abbrev pub is_transpose : Operation → Bool
is_transpose transpose = true
is_transpose _ = false

abbrev pub is_lower : FillMode → Bool
is_lower lower = true
is_lower _ = false

abbrev pub is_unit : DiagType → Bool
is_unit unit = true
is_unit _ = false

abbrev pub is_col_major : Order → Bool
is_col_major order_col = true
is_col_major _ = false

abbrev pub is_row_major : Order → Bool
is_row_major order_row = true
is_row_major _ = false

abbrev pub is_32i : IndexType → Bool
is_32i index_32i = true
is_32i _ = false

abbrev pub is_r_32f : DataType → Bool
is_r_32f r_32f = true
is_r_32f _ = false

abbrev pub is_r_64f : DataType → Bool
is_r_64f r_64f = true
is_r_64f _ = false

abbrev pub is_csr : Format → Bool
is_csr csr = true
is_csr _ = false

abbrev pub is_csc : Format → Bool
is_csc csc = true
is_csc _ = false

abbrev pub is_coo : Format → Bool
is_coo coo = true
is_coo _ = false

abbrev pub is_bsr : Format → Bool
is_bsr bsr = true
is_bsr _ = false

abbrev pub is_blocked_ell : Format → Bool
is_blocked_ell blocked_ell = true
is_blocked_ell _ = false

abbrev pub is_sliced_ell : Format → Bool
is_sliced_ell sliced_ell = true
is_sliced_ell _ = false

abbrev pub is_spsm_default : SpSmAlg → Bool
is_spsm_default spsm_default = true
is_spsm_default _ = false

abbrev pub is_spgemm_default : SpGemmAlg → Bool
is_spgemm_default spgemm_default = true
is_spgemm_default _ = false

abbrev pub is_sddmm_default : SddmmAlg → Bool
is_sddmm_default sddmm_default = true
is_sddmm_default _ = false

abbrev pub same_dtype : DataType → DataType → Bool
same_dtype = same DataType-discrete

-- The component types that the operators compute in.
abbrev pub IsReal : DataType → Type 0
IsReal t = (t ≡ r_32f) ⊎ (t ≡ r_64f)

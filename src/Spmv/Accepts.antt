-- ===== src/Spmv/Accepts.antt =====
-- What validate of src/ops/spmv.cpp lets through.
use cwapper.Base.{
  ℕ, ℤ, pos, ◌≤ℤ◌, ◌≡◌, ◌≢◌, refl, arith, Bool, true, false, not, eq_ℤ, lt_ℤ, le_ℤ, ◌==◌, ◌||◌,
  ◌&&◌, int32_max,
}
use cwapper.Types.{
  Operation, DataType, SpMvAlg, Format, csr, csc, coo, bsr, component_dtype, same_dtype, is_r_32f,
  is_r_64f, is_csr, is_csc, is_bsr, is_coo, is_row_major, is_unspelled, triton_index_dtype,
  is_base_zero,
}
use cwapper.Descr.{SpMatDescr, DnVecDescr}
use cwapper.Exec.{ok}
use cwapper.Exec.Keeps.{Keeps, keeps_rules}
use cwapper.Exec.Accepts.{Accepts, Accepts-now, Accepts-last, Accepts-refuse, accepts_rules}
use cwapper.Machine.{Machine, State, mat_at, dnvec_at}
use cwapper.Types.{transposes}
use cwapper.Spmv.Checks.{validate, check_objects, check_format, alg_supported, operand_extents}
use cwapper.Types.{IsReal}

-- The switch on the format: the transposed kernels exist for CSC and BSR, a COO matrix has nonzeros
-- in the range of int32, and the blocks of a BSR matrix are square, not empty and row-major.
pub record IsSupported (f : Format) (d : SpMatDescr) (op : Operation) : Type 0 where
  pub known : (is_csr f || is_coo f || is_csc f || is_bsr f) ≡ true
  pub transposed : transposes op ≡ true → (is_csc f || is_bsr f) ≡ true
  pub coo_nnz : is_coo f ≡ true → d.nnz ≤ℤ pos int32_max
  pub bsr_square : is_bsr f ≡ true → d.row_block_dim ≡ d.col_block_dim
  pub bsr_blocks : is_bsr f ≡ true → pos 1 ≤ℤ d.row_block_dim
  pub bsr_order : is_bsr f ≡ true → is_row_major d.order ≡ true

-- What the kernels rely on: one type for the matrix, the vectors and the computation, whose
-- components are float or double; indices from zero, of a type that the kernels have; an algorithm
-- of the format; and vectors of the extents that the operation needs.
pub record IsAccepted (d : SpMatDescr) (x y : DnVecDescr) (op : Operation) (compute_type : DataType)
    (alg : SpMvAlg) : Type 0 where
  pub matrix_type : d.value_type ≡ compute_type
  pub x_type : x.value_type ≡ compute_type
  pub y_type : y.value_type ≡ compute_type
  pub base : is_base_zero d.idx_base ≡ true
  pub algorithm : alg_supported d.format alg ≡ true
  pub x_size : x.size ≡ (operand_extents d op).0
  pub y_size : y.size ≡ (operand_extents d op).1
  pub real : IsReal (component_dtype compute_type)
  pub indices : is_unspelled (triton_index_dtype d.indices_type) ≡ false
  pub offsets : is_unspelled (triton_index_dtype d.offsets_type) ≡ false
  pub supported : IsSupported d.format d op

three_types :
    (t u v w : DataType)
    → (not (same_dtype t w) || not (same_dtype u w) || not (same_dtype v w)) ≡ false
    → (t ≡ w) × (u ≡ w) × (v ≡ w)
three_types t u v w h = ground arith

real_of : (t : DataType) → (not (is_r_32f t) && not (is_r_64f t)) ≡ false → IsReal t
real_of t h = ground arith

two_sizes : (a b c d : ℤ) → (not (eq_ℤ a b) || not (eq_ℤ c d)) ≡ false → (a ≡ b) × (c ≡ d)
two_sizes a b c d h = ground arith

of_not : (b : Bool) → not b ≡ false → b ≡ true
of_not b h = ground arith

neither : (a b : Bool) → (a || b) ≡ false → (a ≡ false) × (b ≡ false)
neither a b h = ground arith

assemble :
    (d : SpMatDescr) (x y : DnVecDescr) (op : Operation) (t : DataType) (alg : SpMvAlg)
    → (not (same_dtype d.value_type t)
        || not (same_dtype x.value_type t)
        || not (same_dtype y.value_type t))
      ≡ false
    → not (is_base_zero d.idx_base) ≡ false
    → not (alg_supported d.format alg) ≡ false
    → (not (eq_ℤ x.size (operand_extents d op).0) || not (eq_ℤ y.size (operand_extents d op).1))
      ≡ false
    → (not (is_r_32f (component_dtype t)) && not (is_r_64f (component_dtype t))) ≡ false
    → (is_unspelled (triton_index_dtype d.indices_type)
        || is_unspelled (triton_index_dtype d.offsets_type))
      ≡ false
    → IsSupported d.format d op
    → IsAccepted d x y op t alg
assemble d x y op t alg types base algorithm sizes real indices supported =
    let same = three_types d.value_type x.value_type y.value_type t types in
    let extents = two_sizes x.size (operand_extents d op).0 y.size (operand_extents d op).1 sizes in
    let spelled = neither _ _ indices in
    record {
      matrix_type = same.0;
      x_type = same.1;
      y_type = same.2;
      base = of_not _ base;
      algorithm = of_not _ algorithm;
      x_size = extents.0;
      y_size = extents.1;
      real = real_of (component_dtype t) real;
      indices = spelled.0;
      offsets = spelled.1;
      supported = supported;
    }

module _ (m : Machine) where
  check_format-Keeps :
      (P : State m.Mem → Type 0) (f : Format) (d : SpMatDescr) (op : Operation)
      → Keeps P (check_format m f d op)
  unfolding check_format
  check_format-Keeps P csr d op = search keeps_rules depth 12
  check_format-Keeps P coo d op = search keeps_rules depth 12
  check_format-Keeps P csc d op = search keeps_rules depth 12
  check_format-Keeps P bsr d op = search keeps_rules depth 12
  check_format-Keeps P _ d op = search keeps_rules depth 12

  check_objects-Keeps :
      (P : State m.Mem → Type 0) (d : SpMatDescr) (x y : DnVecDescr) (op : Operation) (t : DataType)
      (alg : SpMvAlg)
      → Keeps P (check_objects m d x y op t alg)
  unfolding check_objects
  check_objects-Keeps P d x y op t alg = search (keeps_rules, check_format-Keeps) depth 12

  check_format-IsSupported :
      (f : Format) (d : SpMatDescr) (op : Operation) (s : State m.Mem)
      → Accepts (IsSupported f d op) (check_format m f d op) s
  unfolding check_format
  check_format-IsSupported csr d op s = Accepts-last (transposes op) _ _ (λ h. ground arith)
  check_format-IsSupported coo d op s =
      Accepts-refuse (transposes op) _ _ _
        (λ h. Accepts-last (lt_ℤ (pos int32_max) d.nnz) _ _ (λ k. ground arith))
  check_format-IsSupported csc d op s = Accepts-now _ _ (ground arith)
  check_format-IsSupported bsr d op s =
      Accepts-refuse (not (eq_ℤ d.row_block_dim d.col_block_dim)) _ _ _ (λ h.
        Accepts-refuse (le_ℤ d.row_block_dim (pos 0)) _ _ _
          (λ i. Accepts-last (not (is_row_major d.order)) _ _ (λ j. ground arith)))
  check_format-IsSupported _ d op s = record { at = λ a h. cc }

  Accepts-check_format :
      (Q : Type 0) (f : Format) (d : SpMatDescr) (op : Operation) (s : State m.Mem)
      → (IsSupported f d op → Q)
      → Accepts Q (check_format m f d op) s
  Accepts-check_format Q f d op s k = record {
    at = λ a h. k ((check_format-IsSupported f d op s).at a h);
  }

  -- All the checks on the objects.
  Accepts-check_objects :
      (Q : Type 0) (d : SpMatDescr) (x y : DnVecDescr) (op : Operation) (t : DataType)
      (alg : SpMvAlg) (s : State m.Mem)
      → (IsAccepted d x y op t alg → Q)
      → Accepts Q (check_objects m d x y op t alg) s
  unfolding check_objects
  Accepts-check_objects Q d x y op t alg s k =
      search (accepts_rules, Accepts-check_format, k, assemble) depth 12

  refuse_null : (n : ℕ) → (n == 0) ≡ false → n ≢ 0
  refuse_null n h = ground arith

  no_nulls : (a b c : ℕ) → (a == 0 || b == 0 || c == 0) ≡ false → (a ≢ 0) × (b ≢ 0) × (c ≢ 0)
  no_nulls a b c h = ground arith

  module _ (handle : ℕ) (op : Operation) (a vec_x vec_y : ℕ) (t : DataType) (alg : SpMvAlg) where
    pub validate-Keeps :
        (P : State m.Mem → Type 0) → Keeps P (validate m handle op a vec_x vec_y t alg)
    unfolding validate
    validate-Keeps P = search (keeps_rules, check_objects-Keeps) depth 12

    validate-handle :
        (s : State m.Mem)
        → Accepts ((handle == 0) ≡ false) (validate m handle op a vec_x vec_y t alg) s
    unfolding validate
    validate-handle s = search (Accepts-now, accepts_rules) depth 12

    validate-objects :
        (s : State m.Mem)
        → Accepts
            (IsAccepted (mat_at s a) (dnvec_at s vec_x) (dnvec_at s vec_y) op t alg)
            (validate m handle op a vec_x vec_y t alg)
            s
    unfolding validate
    validate-objects s = search (accepts_rules, Accepts-check_objects) depth 12

    pub validate-unchanged : (s : State m.Mem) → (validate m handle op a vec_x vec_y t alg s).1 ≡ s
    validate-unchanged s = (validate-Keeps (λ u. u ≡ s)).at s refl

    validate-pointers :
        (s : State m.Mem)
        → Accepts
            ((a == 0 || vec_x == 0 || vec_y == 0) ≡ false)
            (validate m handle op a vec_x vec_y t alg)
            s
    unfolding validate
    validate-pointers s = search (Accepts-now, accepts_rules) depth 12

    -- validate changes nothing. If it passes, the handle and the three descriptors are not null and
    -- the objects are such as the kernels rely on (IsAccepted).
    pub validate-IsAccepted :
        (s : State m.Mem)
        → (validate m handle op a vec_x vec_y t alg s).0 ≡ ok tt
        → ((validate m handle op a vec_x vec_y t alg s).1 ≡ s)
          × (handle ≢ 0)
          × (a ≢ 0)
          × (vec_x ≢ 0)
          × (vec_y ≢ 0)
          × IsAccepted (mat_at s a) (dnvec_at s vec_x) (dnvec_at s vec_y) op t alg
    validate-IsAccepted s h =
        let pointers = no_nulls a vec_x vec_y ((validate-pointers s).at tt h) in
        (
          validate-unchanged s,
          refuse_null handle ((validate-handle s).at tt h),
          pointers.0,
          pointers.1,
          pointers.2,
          (validate-objects s).at tt h,
        )

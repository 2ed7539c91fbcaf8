-- ===== src/Spmv/Passes.antt =====
-- validate of src/ops/spmv.cpp on objects that the kernels can work on.
use cwapper.Base.{
  ℕ, ℤ, pos, ◌≡◌, ◌≢◌, refl, arith, false, not, eq_ℤ, lt_ℤ, le_ℤ, ◌==◌, ◌||◌, ◌&&◌, int32_max,
}
use cwapper.Types.{
  Operation, DataType, SpMvAlg, Format, csr, csc, coo, bsr, component_dtype, same_dtype, is_r_32f,
  is_r_64f, triton_index_dtype, is_unspelled, is_row_major,
}
use cwapper.Descr.{SpMatDescr, DnVecDescr}
use cwapper.Exec.{ok}
use cwapper.Machine.{Machine, State, mat_at, dnvec_at}
use cwapper.Spmv.Accepts.{IsAccepted, IsSupported}
use cwapper.Types.{transposes}
use cwapper.Spmv.Checks.{validate, check_objects, check_format, operand_extents}
use cwapper.Types.{IsReal}

types_pass :
    (t u v w : DataType)
    → t ≡ w
    → u ≡ w
    → v ≡ w
    → (not (same_dtype t w) || not (same_dtype u w) || not (same_dtype v w)) ≡ false
types_pass t u v w h i j = ground arith

sizes_pass : (a b c d : ℤ) → a ≡ b → c ≡ d → (not (eq_ℤ a b) || not (eq_ℤ c d)) ≡ false
sizes_pass a b c d h i = ground arith

real_passes : (t : DataType) → IsReal t → (not (is_r_32f t) && not (is_r_64f t)) ≡ false
real_passes t h = ground arith

module _ (m : Machine) where
  check_format_passes :
      (f : Format) (d : SpMatDescr) (op : Operation) (s : State m.Mem)
      → IsSupported f d op
      → check_format m f d op s ≡ (ok tt, s)
  unfolding check_format
  check_format_passes csr d op s h =
      let t : transposes op ≡ false = let k = h.transposed in ground arith in rw (t) refl
  check_format_passes coo d op s h =
      let t : transposes op ≡ false = let k = h.transposed in ground arith in
      let n : lt_ℤ (pos int32_max) d.nnz ≡ false = let k = h.coo_nnz in ground arith in
      rw (t, n) refl
  check_format_passes csc d op s h = refl
  check_format_passes bsr d op s h =
      let t : not (eq_ℤ d.row_block_dim d.col_block_dim) ≡ false =
        let k = h.bsr_square in ground arith in
      let n : le_ℤ d.row_block_dim (pos 0) ≡ false = let k = h.bsr_blocks in ground arith in
      let o : not (is_row_major d.order) ≡ false = let k = h.bsr_order in ground arith in
      rw (t, n, o) refl
  check_format_passes _ d op s h = let k = h.known in cc

  check_objects_passes :
      (d : SpMatDescr) (x y : DnVecDescr) (op : Operation) (t : DataType) (alg : SpMvAlg)
      (s : State m.Mem)
      → IsAccepted d x y op t alg
      → check_objects m d x y op t alg s ≡ (ok tt, s)
  unfolding check_objects
  check_objects_passes d x y op t alg s h =
      let types =
        types_pass d.value_type x.value_type y.value_type t h.matrix_type h.x_type h.y_type in
      let sizes =
        sizes_pass x.size (operand_extents d op).0 y.size (operand_extents d op).1 h.x_size
          h.y_size in
      let real = real_passes (component_dtype t) h.real in
      let indices : (is_unspelled (triton_index_dtype d.indices_type)
            || is_unspelled (triton_index_dtype d.offsets_type))
          ≡ false =
        let i = h.indices in let j = h.offsets in ground arith in
      rw (types, h.base, h.algorithm, sizes, real, indices)
        (check_format_passes d.format d op s h.supported)

  -- validate refuses nothing that the kernels can work on: with a handle and descriptors that are
  -- not null, and objects such as the kernels rely on (IsAccepted), it succeeds.
  pub validate_accepted :
      (handle : ℕ) (op : Operation) (a vec_x vec_y : ℕ) (t : DataType) (alg : SpMvAlg)
      (s : State m.Mem)
      → handle ≢ 0
      → a ≢ 0
      → vec_x ≢ 0
      → vec_y ≢ 0
      → IsAccepted (mat_at s a) (dnvec_at s vec_x) (dnvec_at s vec_y) op t alg
      → validate m handle op a vec_x vec_y t alg s ≡ (ok tt, s)
  unfolding validate
  validate_accepted handle op a vec_x vec_y t alg s h i j k accepted =
      let live : (handle == 0) ≡ false = ground arith in
      let given : (a == 0 || vec_x == 0 || vec_y == 0) ≡ false = ground arith in
      rw (live, given)
        (check_objects_passes (mat_at s a) (dnvec_at s vec_x) (dnvec_at s vec_y) op t alg s
          accepted)

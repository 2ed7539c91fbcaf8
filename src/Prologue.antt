-- ===== src/Prologue.antt =====
-- src/core/prologue.cpp: the dense kernels that run before an accumulating route.
use cwapper.Base.{ℕ, ℤ, pos, Bool, ◌||◌, [], ◌∷◌, ◌==◌, le_ℤ, tiles, to_i32, if◌then◌else◌}
use cwapper.Types.{
  DataType, triton_dtype, is_unspelled, is_r_64f, invalid_value, not_supported, i32, i64,
}
use cwapper.Launch.{
  device_ptr, arg_i32, arg_i64, arg_f32, arg_f64, pointer, scalar, number, flag, Launch,
}
use cwapper.Exec.{pure, gets, refuse, ◌>>=◌, ◌>>◌}
use cwapper.Machine.{Machine, Op, context_at}
use cwapper.Jit.{codegen_module, run_launch}
use cwapper.Scalars.{is_nonzero}

abbrev pub block_n : ℕ
block_n = 256

-- A strided block of a dense operand; a vector has one row and row stride 0.
pub record Block : Type 0 where
  pub values : ℕ
  pub component_type : DataType
  pub complex_op : Bool
  pub n_rows : ℤ
  pub n_cols : ℤ
  pub stride_m : ℤ
  pub stride_n : ℤ

module _ (m : Machine) where
  unfoldable pub scale_request : ℕ → Block → ℕ → ℕ → Launch
  scale_request stream b beta_re beta_im =
      let vt = triton_dtype b.component_type in
      let scalar_arg =
        λ (v : ℕ). if is_r_64f b.component_type then arg_f64 v else arg_f32 (m.narrow v) in
      record {
        module_path = codegen_module m "_dense.py";
        kernel_name = "_dense_scale_kernel";
        signature =
            pointer vt
            ∷ scalar vt
            ∷ scalar vt
            ∷ scalar i32
            ∷ scalar i32
            ∷ scalar i64
            ∷ scalar i64
            ∷ scalar i64
            ∷ number (pos block_n)
            ∷ flag b.complex_op
            ∷ flag (is_nonzero beta_re || is_nonzero beta_im)
            ∷ [];
        stream = stream;
        grid_x = b.n_rows;
        grid_y = tiles b.n_cols block_n;
        grid_z = pos 1;
        num_warps = 4;
        num_stages = 1;
        args =
            device_ptr b.values
            ∷ scalar_arg beta_re
            ∷ scalar_arg beta_im
            ∷ arg_i32 (to_i32 b.n_rows)
            ∷ arg_i32 (to_i32 b.n_cols)
            ∷ arg_i64 b.stride_m
            ∷ arg_i64 b.stride_n
            ∷ arg_i64 (pos 1)
            ∷ [];
      }

  -- out = beta * out over the block.
  unfoldable pub scale_dense : ℕ → Block → ℕ → ℕ → Op m (Unit {0})
  scale_dense handle b beta_re beta_im = do
    refuse (b.values == 0) invalid_value
    if le_ℤ b.n_rows (pos 0) || le_ℤ b.n_cols (pos 0) then pure tt else do
      refuse (is_unspelled (triton_dtype b.component_type)) not_supported
      c ← gets (λ s. context_at s handle)
      run_launch m handle (scale_request c.stream b beta_re beta_im)

  unfoldable pub copy_request : ℕ → ℕ → Block → ℤ → ℤ → Launch
  copy_request stream src dst src_stride_m src_stride_n =
      let vt = triton_dtype dst.component_type in
      record {
        module_path = codegen_module m "_dense.py";
        kernel_name = "_dense_copy_kernel";
        signature =
            pointer vt
            ∷ pointer vt
            ∷ scalar i32
            ∷ scalar i32
            ∷ scalar i64
            ∷ scalar i64
            ∷ scalar i64
            ∷ scalar i64
            ∷ scalar i64
            ∷ scalar i64
            ∷ number (pos block_n)
            ∷ flag dst.complex_op
            ∷ [];
        stream = stream;
        grid_x = dst.n_rows;
        grid_y = tiles dst.n_cols block_n;
        grid_z = pos 1;
        num_warps = 4;
        num_stages = 1;
        args =
            device_ptr src
            ∷ device_ptr dst.values
            ∷ arg_i32 (to_i32 dst.n_rows)
            ∷ arg_i32 (to_i32 dst.n_cols)
            ∷ arg_i64 src_stride_m
            ∷ arg_i64 src_stride_n
            ∷ arg_i64 (pos 1)
            ∷ arg_i64 dst.stride_m
            ∷ arg_i64 dst.stride_n
            ∷ arg_i64 (pos 1)
            ∷ [];
      }

  -- dst = src over a block of the extents of dst.
  unfoldable pub copy_dense : ℕ → ℕ → Block → ℤ → ℤ → Op m (Unit {0})
  copy_dense handle src dst src_stride_m src_stride_n = do
    refuse (src == 0 || dst.values == 0) invalid_value
    if le_ℤ dst.n_rows (pos 0) || le_ℤ dst.n_cols (pos 0) then pure tt else do
      refuse (is_unspelled (triton_dtype dst.component_type)) not_supported
      c ← gets (λ s. context_at s handle)
      run_launch m handle (copy_request c.stream src dst src_stride_m src_stride_n)

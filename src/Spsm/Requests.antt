-- ===== src/Spsm/Requests.antt =====
-- The two launches of src/ops/spsm.cpp.
use cwapper.Base.{ℕ, ℤ, pos, [], ◌∷◌, only_if, to_i32, if◌then◌else◌}
use cwapper.Types.{
  DataType, i32, i64, is_lower, is_unit, is_r_64f, is_complex, component_dtype, triton_dtype,
  triton_index_dtype,
}
use cwapper.Descr.{SpMatDescr}
use cwapper.Launch.{
  Arg, device_ptr, arg_i32, arg_i64, arg_f32, arg_f64, pointer, scalar, number, flag, Launch,
}
use cwapper.Machine.{Machine}
use cwapper.Jit.{codegen_module}
use cwapper.Spsm.Layout.{rhs_tile_for, rhs_tiles, num_warps_for}

module _ (m : Machine) where
  -- extract_diag, up to the launch.
  unfoldable pub diag_request : ℕ → SpMatDescr → ℕ → DataType → Launch
  diag_request stream a diag compute_type =
      let component = component_dtype compute_type in
      let vt = triton_dtype component in
      record {
        module_path = codegen_module m "spsm.py";
        kernel_name =
            if is_complex compute_type
            then "_spsm_extract_diag_kernel_complex"
            else "_spsm_extract_diag_kernel_real";
        signature =
            pointer vt
            ∷ pointer (triton_index_dtype a.indices_type)
            ∷ pointer (triton_index_dtype a.offsets_type)
            ∷ pointer vt
            ∷ scalar i32
            ∷ flag (is_unit a.diag_type)
            ∷ flag (is_r_64f component)
            ∷ [];
        stream = stream;
        grid_x = a.rows;
        grid_y = pos 1;
        grid_z = pos 1;
        num_warps = 1;
        num_stages = 1;
        args =
            device_ptr a.values
            ∷ device_ptr a.indices
            ∷ device_ptr a.offsets
            ∷ device_ptr diag
            ∷ arg_i32 (to_i32 a.rows)
            ∷ [];
      }

  abbrev pub scalar_arg : DataType → ℕ → Arg
  scalar_arg compute_type v =
      if is_r_64f (component_dtype compute_type) then arg_f64 v else arg_f32 (m.narrow v)

  -- The polling kernel of `solve`: `work`, `done` and `diag` are addresses in the scratch.
  unfoldable pub polling_request : ℕ → SpMatDescr → ℤ → ℕ → ℕ → ℕ → DataType → ℕ × ℕ → Launch
  polling_request stream a n_rhs work done diag compute_type alpha =
      let component = component_dtype compute_type in
      let vt = triton_dtype component in
      let complex_op = is_complex compute_type in
      let block_rhs = rhs_tile_for n_rhs in
      record {
        module_path = codegen_module m "spsm.py";
        kernel_name =
            if complex_op
            then "_spsm_csr_polling_kernel_complex"
            else "_spsm_csr_polling_kernel_real";
        signature =
            pointer vt
            ∷ pointer (triton_index_dtype a.indices_type)
            ∷ pointer (triton_index_dtype a.offsets_type)
            ∷ pointer vt
            ∷ pointer vt
            ∷ pointer i32
            ∷ scalar i32
            ∷ scalar i32
            ∷ scalar i64
            ∷ scalar vt
            ∷ only_if complex_op (scalar vt) (
                number (pos block_rhs)
                ∷ flag (is_r_64f component)
                ∷ flag (is_lower a.fill_mode)
                ∷ flag (is_unit a.diag_type)
                ∷ []);
        stream = stream;
        grid_x = a.rows;
        grid_y = rhs_tiles n_rhs;
        grid_z = pos 1;
        num_warps = num_warps_for block_rhs;
        num_stages = 1;
        args =
            device_ptr a.values
            ∷ device_ptr a.indices
            ∷ device_ptr a.offsets
            ∷ device_ptr diag
            ∷ device_ptr work
            ∷ device_ptr done
            ∷ arg_i32 (to_i32 a.rows)
            ∷ arg_i32 (to_i32 n_rhs)
            ∷ arg_i64 n_rhs
            ∷ scalar_arg compute_type alpha.0
            ∷ only_if complex_op (scalar_arg compute_type alpha.1) [];
      }

-- ===== src/Spsv/Routes.antt =====
-- The launches of src/ops/spsv.cpp.
use cwapper.Base.{
  ℕ, zero, suc, ◌+◌, ◌*◌, ℤ, pos, ◌*ℤ◌, Bool, true, false, not, [], ◌∷◌, only_if, ltb, max_ℤ, min_ℤ,
  quot_ℤ, tiles, pos_part, to_i32, if◌then◌else◌,
}
use cwapper.Types.{
  DataType, SpSvAlg, spsv_sell_alg2, is_complex, component_dtype, is_r_64f, triton_dtype,
  triton_index_dtype, is_lower, is_unit, i32,
}
use cwapper.Descr.{SpMatDescr, DnVecDescr}
use cwapper.Launch.{
  Arg, device_ptr, arg_i32, arg_f32, arg_f64, pointer, scalar, number, flag, text, Launch,
}
use cwapper.Exec.{pure, ◌>>=◌}
use cwapper.Machine.{Machine, Op}
use cwapper.Adaptor.{multiprocessor_count, max_threads_per_multiprocessor, warp_size}
use cwapper.Jit.{codegen_module}

abbrev pub max_workers : ℕ
max_workers = 2048

-- while (block_rows < slice_size) block_rows <<= 1, on fuel.
unfoldable pub double_up : ℕ → ℕ → ℕ → ℕ
double_up zero b n = b
double_up (suc f) b n = let rest = double_up f (b * 2) n in if ltb b n then rest else b

-- The loop starts at 1, and each round adds 1 at least: n rounds reach n.
unfoldable pub block_rows : ℤ → ℕ
unfolding double_up
block_rows slice_size = double_up (pos_part slice_size) 1 (pos_part slice_size)

unfoldable pub uses_alg2 : SpSvAlg → Bool
uses_alg2 spsv_sell_alg2 = true
uses_alg2 _ = false

-- (n + slice_size - 1) / slice_size
unfoldable pub n_slices : SpMatDescr → ℤ
n_slices d = tiles d.rows (pos_part d.slice_size)

-- What one worker takes at a time: a slice under ALG2, a row otherwise.
unfoldable pub sell_units : SpMatDescr → SpSvAlg → ℤ
sell_units d alg = if uses_alg2 alg then n_slices d else d.rows

-- The arithmetic of resolve_worker_count.
unfoldable pub worker_count : ℤ → ℤ → ℤ → ℤ → ℤ
worker_count n warp threads_per_mp mp_count =
    let per_mp = max_ℤ (pos 1) (quot_ℤ threads_per_mp (pos_part (max_ℤ (pos 1) warp))) in
    let device_max = max_ℤ (pos 1) (mp_count *ℤ per_mp) in
    max_ℤ (pos 1) (min_ℤ n (min_ℤ device_max (pos max_workers)))

module _ (m : Machine) where
  unfoldable pub resolve_worker_count : ℤ → Op m ℤ
  resolve_worker_count n = do
    warp ← warp_size m
    threads ← max_threads_per_multiprocessor m
    count ← multiprocessor_count m
    pure (worker_count n warp threads count)

  abbrev scalar_arg : DataType → ℕ → Arg
  scalar_arg compute_type v =
      if is_r_64f (component_dtype compute_type) then arg_f64 v else arg_f32 (m.narrow v)

  -- solve_sell, up to the launch. The flags stand at `flags`, the row counter behind them.
  unfoldable pub sell_request :
      ℕ → SpMatDescr → DnVecDescr → DnVecDescr → DataType → SpSvAlg → ℕ → ℕ × ℕ → ℤ → Launch
  sell_request stream d x y compute_type alg flags alpha workers =
      let vt = triton_dtype (component_dtype compute_type) in
      let cplx = is_complex compute_type in
      let alg2 = uses_alg2 alg in
      record {
        module_path = codegen_module m "spsv.py";
        kernel_name =
            if alg2
            then (if cplx
                then "_spsv_sell_slice_kernel_alg2_complex"
                else "_spsv_sell_slice_kernel_alg2")
            else (if cplx
                then "_spsv_sell_cw_kernel_alg1_complex"
                else "_spsv_sell_cw_kernel_alg1");
        signature =
            pointer vt
            ∷ pointer i32
            ∷ pointer i32
            ∷ pointer vt
            ∷ pointer vt
            ∷ pointer i32
            ∷ pointer i32
            ∷ scalar vt
            ∷ only_if cplx (scalar vt) (
                scalar i32
                ∷ only_if alg2 (scalar i32) (
                    number d.slice_size
                    ∷ only_if alg2 (number (pos (block_rows d.slice_size))) (
                        flag (is_unit d.diag_type)
                        ∷ flag (is_r_64f (component_dtype compute_type))
                        ∷ [])));
        stream = stream;
        grid_x = workers;
        grid_y = pos 1;
        grid_z = pos 1;
        num_warps = 1;
        num_stages = 1;
        args =
            device_ptr d.values
            ∷ device_ptr d.indices
            ∷ device_ptr d.offsets
            ∷ device_ptr x.values
            ∷ device_ptr y.values
            ∷ device_ptr flags
            ∷ device_ptr (flags + pos_part d.rows * 4)
            ∷ scalar_arg compute_type alpha.0
            ∷ only_if cplx (scalar_arg compute_type alpha.1)
                (arg_i32 (to_i32 d.rows) ∷ only_if alg2 (arg_i32 (to_i32 (n_slices d))) []);
      }

  -- The CSR kernel, for a CSR matrix or the CSR view of a COO one.
  unfoldable pub csr_request :
      ℕ → SpMatDescr → DnVecDescr → DnVecDescr → DataType → ℕ → ℕ × ℕ → ℤ → Launch
  csr_request stream d x y compute_type flags alpha workers =
      let vt = triton_dtype (component_dtype compute_type) in
      let cplx = is_complex compute_type in
      let fp64_acc = is_r_64f (component_dtype compute_type) in
      let low = is_lower d.fill_mode in
      record {
        module_path = codegen_module m "spsv.py";
        kernel_name = if cplx then "_spsv_csr_cw_kernel_complex" else "_spsv_csr_cw_kernel";
        signature =
            pointer vt
            ∷ pointer (triton_index_dtype d.indices_type)
            ∷ pointer (triton_index_dtype d.offsets_type)
            ∷ pointer vt
            ∷ pointer vt
            ∷ pointer i32
            ∷ pointer i32
            ∷ scalar vt
            ∷ only_if cplx (scalar vt) (
                scalar i32
                ∷ flag low
                ∷ flag (not low)
                ∷ flag (is_unit d.diag_type)
                ∷ flag fp64_acc
                ∷ text (if fp64_acc then "1e-12" else "1e-6")
                ∷ flag false
                ∷ flag (not low)
                ∷ []);
        stream = stream;
        grid_x = workers;
        grid_y = pos 1;
        grid_z = pos 1;
        num_warps = 1;
        num_stages = 1;
        args =
            device_ptr d.values
            ∷ device_ptr d.indices
            ∷ device_ptr d.offsets
            ∷ device_ptr x.values
            ∷ device_ptr y.values
            ∷ device_ptr flags
            ∷ device_ptr (flags + pos_part d.rows * 4)
            ∷ scalar_arg compute_type alpha.0
            ∷ only_if cplx (scalar_arg compute_type alpha.1) (arg_i32 (to_i32 d.rows) ∷ []);
      }

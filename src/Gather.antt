-- ===== src/Gather.antt =====
-- src/ops/gather_scatter.cpp: between a sparse vector and a dense one.
pub mod Agreement
pub mod Grid
use cwapper.Base.{
  ℕ, zero, ℤ, pos, ◌*ℤ◌, Bool, not, ◌&&◌, ◌||◌, String, List, [], ◌∷◌, ◌==◌, eq_ℤ, lt_ℤ, le_ℤ,
  max_ℤ, min_ℤ, quot_ℤ, pos_part, tiles, to_i32, if◌then◌else◌,
}
use cwapper.Types.{
  not_initialized, invalid_value, not_supported, DataType, IndexType, is_base_zero, same_dtype,
  is_complex, component_dtype, triton_dtype, triton_index_dtype, is_unspelled, i32,
}
use cwapper.Descr.{SpVecDescr, DnVecDescr}
use cwapper.Launch.{device_ptr, arg_i32, SigItem, pointer, scalar, number, Launch}
use cwapper.Exec.{pure, gets, refuse, ◌>>=◌, ◌>>◌}
use cwapper.Machine.{Machine, State, Op, context_at, dnvec_at, spvec_at}
use cwapper.Adaptor.{multiprocessor_count, max_threads_per_multiprocessor, warp_size}
use cwapper.Jit.{codegen_module, run_launch}

abbrev pub block_size : ℕ
block_size = 256

-- The arithmetic of gather_max_programs, from the three properties of the device.
unfoldable pub max_programs : ℤ → ℤ → ℤ → ℤ
max_programs sm threads_per_sm warp =
    if le_ℤ sm (pos 0)
    then pos 1024
    else let block_threads =
        max_ℤ (pos 1) (pos 8 *ℤ (if lt_ℤ (pos 0) warp then warp else pos 32)) in
      let blocks_per_sm =
        if lt_ℤ (pos 0) threads_per_sm
        then max_ℤ (pos 1) (quot_ℤ threads_per_sm (pos_part block_threads))
        else pos 1 in
      max_ℤ (pos 1) (sm *ℤ blocks_per_sm)

unfoldable pub build_signature : DataType → IndexType → List SigItem
build_signature value_type idx_type =
    pointer (triton_dtype (component_dtype value_type))
    ∷ pointer (triton_dtype (component_dtype value_type))
    ∷ pointer (triton_index_dtype idx_type)
    ∷ scalar i32
    ∷ number (pos block_size)
    ∷ []

-- std::min of the tiles and the cap.
unfoldable pub gather_grid : ℤ → ℤ → ℤ
gather_grid nnz programs = min_ℤ (tiles nnz block_size) programs

module _ (m : Machine) where
  unfoldable pub gather_max_programs : Op m ℤ
  gather_max_programs = do
    sm ← multiprocessor_count m
    threads_per_sm ← max_threads_per_multiprocessor m
    warp ← warp_size m
    pure (max_programs sm threads_per_sm warp)

  unfoldable pub check_objects : SpVecDescr → DnVecDescr → Op m (Unit {0})
  check_objects sp dn = do
    refuse (not (same_dtype sp.value_type dn.value_type)) not_supported
    refuse (not (is_base_zero sp.idx_base)) not_supported
    refuse (not (eq_ℤ sp.size dn.size)) invalid_value
    refuse (lt_ℤ sp.nnz (pos 0) || lt_ℤ sp.size sp.nnz) invalid_value
    refuse (is_unspelled (triton_dtype (component_dtype sp.value_type))) not_supported
    refuse (is_unspelled (triton_index_dtype sp.idx_type)) not_supported

  unfoldable pub validate : ℕ → ℕ → ℕ → Op m (Unit {0})
  validate handle sp dn = do
    refuse (handle == 0) not_initialized
    refuse (sp == 0 || dn == 0) invalid_value
    x ← gets (λ s. spvec_at s sp)
    y ← gets (λ s. dnvec_at s dn)
    check_objects x y

  -- The request of `run`: the destination, then the source.
  unfoldable pub request : ℕ → String → ℕ → ℕ → SpVecDescr → ℤ → Launch
  request stream kernel dst src x grid = record {
    module_path = codegen_module m "gather_scatter.py";
    kernel_name = kernel;
    signature = build_signature x.value_type x.idx_type;
    stream = stream;
    grid_x = grid;
    grid_y = pos 1;
    grid_z = pos 1;
    num_warps = 8;
    num_stages = 2;
    args = device_ptr dst ∷ device_ptr src ∷ device_ptr x.indices ∷ arg_i32 (to_i32 x.nnz) ∷ [];
  }

  -- flagsparseGather: X_values[i] = Y[X_indices[i]], in a grid-stride loop.
  unfoldable pub gather : ℕ → ℕ → ℕ → Op m (Unit {0})
  gather handle vec_y vec_x = do
    validate handle vec_x vec_y
    x ← gets (λ s. spvec_at s vec_x)
    y ← gets (λ s. dnvec_at s vec_y)
    if eq_ℤ x.nnz (pos 0) then pure tt else do
      programs ← gather_max_programs
      c ← gets (λ s. context_at s handle)
      let kernel : String =
          if is_complex x.value_type then "_gather_complex_kernel" else "_gather_real_kernel"
      run_launch m handle (request c.stream kernel x.values y.values x (gather_grid x.nnz programs))

  -- flagsparseScatter: Y[X_indices[i]] = X_values[i], one tile to a program.
  unfoldable pub scatter : ℕ → ℕ → ℕ → Op m (Unit {0})
  scatter handle vec_x vec_y = do
    validate handle vec_x vec_y
    x ← gets (λ s. spvec_at s vec_x)
    y ← gets (λ s. dnvec_at s vec_y)
    if eq_ℤ x.nnz (pos 0) then pure tt else do
      c ← gets (λ s. context_at s handle)
      let kernel : String =
          if is_complex x.value_type then "_scatter_complex_kernel" else "_scatter_real_kernel"
      run_launch m handle (request c.stream kernel y.values x.values x (tiles x.nnz block_size))

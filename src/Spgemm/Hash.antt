-- ===== src/Spgemm/Hash.antt =====
-- launch_hash of src/ops/spgemm.cpp: one request for the count kernel and for the fill kernels.
use cwapper.Base.{ℕ, pos, Bool, String, [], ◌∷◌, only_if, to_i32}
use cwapper.Types.{DataType, Scalar, i32, triton_dtype, triton_index_dtype}
use cwapper.Descr.{SpMatDescr}
use cwapper.Launch.{device_ptr, arg_i32, pointer, scalar, number, flag, Launch}
use cwapper.Machine.{Machine}
use cwapper.Jit.{codegen_module}
use cwapper.Spgemm.Plan.{Bucket}

-- The pointers that a launch is given.
pub record HashPointers : Type 0 where
  pub rw : ℕ
  pub a_pref : ℕ
  pub row_nnz : ℕ
  pub ovf : ℕ
  pub c_indptr : ℕ
  pub c_ind : ℕ
  pub c_data : ℕ

module _ (m : Machine) where
  unfoldable pub hash_request :
      ℕ
      → String
      → SpMatDescr
      → SpMatDescr
      → HashPointers
      → Scalar
      → Bucket
      → Bool
      → Bool
      → DataType
      → Launch
  hash_request stream kernel a b p c_offsets_type bucket report fill compute_type =
      let vt = triton_dtype compute_type in
      record {
        module_path = codegen_module m "spgemm_csr.py";
        kernel_name = kernel;
        signature = only_if fill (pointer vt) (
            pointer (triton_index_dtype a.indices_type)
            ∷ pointer (triton_index_dtype a.offsets_type)
            ∷ pointer i32
            ∷ only_if fill (pointer vt) (
                pointer (triton_index_dtype b.indices_type)
                ∷ pointer (triton_index_dtype b.offsets_type)
                ∷ pointer i32
                ∷ scalar i32
                ∷ pointer i32
                ∷ only_if fill (pointer c_offsets_type) (
                    only_if fill (pointer i32) (
                      only_if fill (pointer vt) (
                        pointer i32
                        ∷ pointer i32
                        ∷ number (pos bucket.cap)
                        ∷ number (pos bucket.block)
                        ∷ flag Bool.false
                        ∷ only_if fill (flag report) [])))));
        stream = stream;
        grid_x = a.rows;
        grid_y = pos 1;
        grid_z = pos 1;
        num_warps = bucket.warps;
        num_stages = 1;
        args = only_if fill (device_ptr a.values) (
            device_ptr a.indices
            ∷ device_ptr a.offsets
            ∷ device_ptr p.a_pref
            ∷ only_if fill (device_ptr b.values) (
                device_ptr b.indices
                ∷ device_ptr b.offsets
                ∷ device_ptr p.rw
                ∷ arg_i32 (to_i32 a.rows)
                ∷ device_ptr p.rw
                ∷ only_if fill (device_ptr p.c_indptr) (
                    only_if fill (device_ptr p.c_ind) (
                      only_if fill (device_ptr p.c_data)
                        (device_ptr p.row_nnz ∷ device_ptr p.ovf ∷ [])))));
      }

-- ===== src/Frame.antt =====
-- Invariants that the shared parts of the library keep: the copies of src/adaptor, the launches of
-- src/core/jit.cpp, the metadata of src/core/csr_meta.cpp and the kernels of src/core/prologue.cpp.
use cwapper.Base.{
  ℕ, ℤ, String, Bool, true, false, not, ◌&&◌, All, if◌then◌else◌, if◌then◌else◌, List, ◌∷◌, ◌≡◌,
  refl, arith, Option, none, some,
}
use cwapper.Types.{Status, success, IsReal, is_r_32f, is_r_64f, fp32, fp64, triton_dtype, DataType}
use cwapper.Descr.{SpMatDescr}
use cwapper.Launch.{Launch, Agrees, agrees}
use cwapper.Exec.{modify}
use cwapper.Exec.Keeps.{Keeps, Keeps-modify, Keeps-gets-bind, keeps_rules}
use cwapper.Machine.{Machine, State, Attribute, refuse_with, set_mem, set_error}
use cwapper.Adaptor.{
  discover, init_once, device_attribute, multiprocessor_count, max_threads_per_multiprocessor,
  warp_size, synchronize, memcpy_d2h, memcpy_h2d, memset_device, set_or_fail,
}
use cwapper.Jit.{handed, launch, report, run_launch}
use cwapper.Meta.{
  read_longest, ensure_max_row_nnz, coo_offsets, build_coo_row_offsets, check_csr_columns_sorted,
  set_max_row_nnz, set_coo_offsets_buffer,
}
use cwapper.Prologue.{Block, scale_request, scale_dense, copy_request, copy_dense}
use cwapper.Scalars.{scalar_at, read_scalar}

-- A property of the state that survives what the shared parts write: the memory of the device, the
-- cached facts of the matrix at `p`, an error text, the adaptor's statics, and a launch whose
-- arguments agree with its signature.
pub record IsFrame (m : Machine) (p : ℕ) (P : State m.Mem → Type 0) : Type 0 where
  pub memory : (v : m.Mem) (s : State m.Mem) → P s → P (set_mem v s)
  pub longest : (v : ℤ) (s : State m.Mem) → P s → P (set_max_row_nnz m p v s)
  pub offsets : (b : ℕ) (s : State m.Mem) → P s → P (set_coo_offsets_buffer m p b s)
  pub failure : (h : ℕ) (text : String) (s : State m.Mem) → P s → P (set_error h text s)
  pub discovery : (s : State m.Mem) → P s → P (init_once m s)
  pub launched :
      (r : Launch)
      → Agrees r
      → (s : State m.Mem) → P s
      → P (record s { mem = m.executed (handed m r) s.mem; launches = handed m r ∷ s.launches })

module _ (m : Machine) (p : ℕ) (P : State m.Mem → Type 0) (frame : IsFrame m p P) where
  pub init-Keeps : Keeps P (modify (init_once m))
  init-Keeps = Keeps-modify (init_once m) frame.discovery

  pub set_max_row_nnz-Keeps : (v : ℤ) → Keeps P (modify (set_max_row_nnz m p v))
  set_max_row_nnz-Keeps v = Keeps-modify (set_max_row_nnz m p v) (frame.longest v)

  pub set_coo_offsets_buffer-Keeps : (b : ℕ) → Keeps P (modify (set_coo_offsets_buffer m p b))
  set_coo_offsets_buffer-Keeps b = Keeps-modify (set_coo_offsets_buffer m p b) (frame.offsets b)

  pub refuse_with-Keeps :
      (handle : ℕ) (b : Bool) (text : String) (e : Status) → Keeps P (refuse_with handle b text e)
  refuse_with-Keeps handle true text e = record { at = frame.failure handle text }
  refuse_with-Keeps handle false text e = record { at = λ s h. h }

  pub memcpy_d2h-Keeps : (src n : ℕ) → Keeps P (memcpy_d2h m src n)
  unfolding memcpy_d2h
  memcpy_d2h-Keeps src n = record { at = λ s h. ground arith }

  set_or_fail-Keeps : (o : Option m.Mem) → Keeps P (set_or_fail m o)
  set_or_fail-Keeps none = record { at = λ s h. h }
  set_or_fail-Keeps (some v) = Keeps-modify (set_mem v) (frame.memory v)

  pub memcpy_h2d-Keeps : (dst : ℕ) (bytes : List ℕ) → Keeps P (memcpy_h2d m dst bytes)
  unfolding memcpy_h2d
  memcpy_h2d-Keeps dst bytes = search (keeps_rules, set_or_fail-Keeps) depth 9

  pub memset_device-Keeps : (dst value n : ℕ) → Keeps P (memset_device m dst value n)
  unfolding memset_device
  memset_device-Keeps dst value n = search (keeps_rules, set_or_fail-Keeps) depth 9

  launch-Keeps : (r : Launch) → Agrees r → Keeps P (launch m r)
  unfolding launch
  launch-Keeps r a = record { at = λ s h. let made = frame.launched r a s h in ground arith }

  report-Keeps : (handle : ℕ) (result : Status × String) → Keeps P (report m handle result)
  report-Keeps handle (success, text) = record { at = λ s h. h }
  report-Keeps handle (st, text) = record { at = λ s h. frame.failure handle text s h }

  pub run_launch-Keeps : (handle : ℕ) (r : Launch) → Agrees r → Keeps P (run_launch m handle r)
  unfolding run_launch
  run_launch-Keeps handle r a = search (keeps_rules, launch-Keeps, report-Keeps, a) depth 9

  pub ruleset frame_steps = (
    keeps_rules, memcpy_d2h-Keeps, memcpy_h2d-Keeps, set_max_row_nnz-Keeps,
    set_coo_offsets_buffer-Keeps, refuse_with-Keeps, init-Keeps,
  )

  device_attribute-Keeps : (attr : Attribute) → Keeps P (device_attribute m attr)
  unfolding device_attribute
  device_attribute-Keeps attr = search frame_steps depth 9

  pub warp_size-Keeps : Keeps P (warp_size m)
  unfolding warp_size
  warp_size-Keeps = search (frame_steps, device_attribute-Keeps) depth 9

  pub max_threads-Keeps : Keeps P (max_threads_per_multiprocessor m)
  unfolding max_threads_per_multiprocessor
  max_threads-Keeps = device_attribute-Keeps _

  pub multiprocessor_count-Keeps : Keeps P (multiprocessor_count m)
  unfolding multiprocessor_count
  multiprocessor_count-Keeps = device_attribute-Keeps _

  pub synchronize-Keeps : Keeps P (synchronize m)
  unfolding synchronize
  synchronize-Keeps = init-Keeps

  read_longest-Keeps : (d : SpMatDescr) → Keeps P (read_longest m p d)
  unfolding read_longest
  read_longest-Keeps d = search frame_steps depth 12

  pub ensure_max_row_nnz-Keeps : Keeps P (ensure_max_row_nnz m p)
  unfolding ensure_max_row_nnz
  ensure_max_row_nnz-Keeps = search (frame_steps, read_longest-Keeps) depth 9

  coo_offsets-Keeps : (d : SpMatDescr) → Keeps P (coo_offsets m p d)
  unfolding coo_offsets
  coo_offsets-Keeps d = search frame_steps depth 12

  pub build_coo_row_offsets-Keeps : (b : ℕ) → Keeps P (build_coo_row_offsets m p b)
  unfolding build_coo_row_offsets
  build_coo_row_offsets-Keeps b = search (frame_steps, coo_offsets-Keeps) depth 9

  pub check_csr_columns_sorted-Keeps : (d : SpMatDescr) → Keeps P (check_csr_columns_sorted m d)
  unfolding check_csr_columns_sorted
  check_csr_columns_sorted-Keeps d = search frame_steps depth 12

  scalar_at-Keeps : (t : DataType) (q : ℕ) → Keeps P (scalar_at m t q)
  unfolding scalar_at
  scalar_at-Keeps t q = record { at = λ s h. ground arith }

  pub read_scalar-Keeps : (handle q : ℕ) (t : DataType) → Keeps P (read_scalar m handle q t)
  unfolding read_scalar
  read_scalar-Keeps handle q t = search (frame_steps, scalar_at-Keeps) depth 9

  pub scale_request-Agrees :
      (stream : ℕ) (b : Block) (re im : ℕ)
      → IsReal b.component_type
      → Agrees (scale_request m stream b re im)
  unfolding scale_request agrees triton_dtype
  scale_request-Agrees stream b re im real = ground arith

  pub scale_dense-Keeps :
      (handle : ℕ) (b : Block) (re im : ℕ)
      → IsReal b.component_type
      → Keeps P (scale_dense m handle b re im)
  unfolding scale_dense
  scale_dense-Keeps handle b re im real =
      search (frame_steps, run_launch-Keeps, scale_request-Agrees, real) depth 9

  copy_request-Agrees :
      (stream src : ℕ) (b : Block) (sm sn : ℤ) → Agrees (copy_request m stream src b sm sn)
  unfolding copy_request agrees
  copy_request-Agrees stream src b sm sn = refl

  pub copy_dense-Keeps :
      (handle src : ℕ) (b : Block) (sm sn : ℤ) → Keeps P (copy_dense m handle src b sm sn)
  unfolding copy_dense
  copy_dense-Keeps handle src b sm sn =
      search (frame_steps, run_launch-Keeps, copy_request-Agrees) depth 9

-- What `component != R_32F && component != R_64F` refuses.
pub real_of : (t : DataType) → (not (is_r_32f t) && not (is_r_64f t)) ≡ false → IsReal t
real_of t h = ground arith

-- Every launch so far has arguments that agree with its signature.
abbrev pub AllAgree : {Mem : Type 0} → State Mem → Type 0
AllAgree s = All Agrees s.launches

discovered : (m : Machine) (s : State m.Mem) → AllAgree s → AllAgree (init_once m s)
unfolding init_once discover
discovered m s h = ground arith

pub AllAgree-IsFrame : (m : Machine) (p : ℕ) → IsFrame m p AllAgree
unfolding handed
AllAgree-IsFrame m p = record {
  memory = λ v s h. h;
  longest = λ v s h. h;
  offsets = λ b s h. h;
  failure = λ handle text s h. h;
  discovery = discovered m;
  launched = λ r a s h. (a, h);
}

-- The spelling of a component type is that of the width that the accumulator flag says.
pub spelled_by_width :
    (t : DataType) → IsReal t → triton_dtype t ≡ (if is_r_64f t then fp64 else fp32)
unfolding triton_dtype
spelled_by_width t real = ground arith

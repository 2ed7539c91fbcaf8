-- ===== src/Machine.antt =====
-- What the program runs on, and the state of the program.
-- The vendor's driver API, libtriton_jit with its kernels, the file system and the floating-point
-- conversions are not this repository's code: they are the fields of `Machine`.
pub mod Memory
pub mod Steps
use cwapper.Base.{ℕ, ℤ, Bool, true, false, String, List, Option, none, some, ◌==◌, if◌then◌else◌}
use cwapper.Types.{Status}
use cwapper.Descr.{
  Context, SpMatDescr, DnMatDescr, DnVecDescr, SpVecDescr, SpSvDescr, SpSmDescr, SpGemmDescr,
  new_context, new_spmat, new_dnmat, new_dnvec, new_spvec, new_spsv, new_spsm, new_spgemm,
}
use cwapper.Launch.{Launch}
use cwapper.Exec.{Exec, ok, err}

pub data Attribute : Type 0 where
  sm_count max_threads_per_sm warp_size : Attribute

pub record Machine : Type 1 where
  -- The memory of the device, and the driver's calls on it; `none` is a code other than success.
  pub Mem : Type 0
  pub copy_in : ℕ → List ℕ → Mem → Option Mem
  pub copy_out : ℕ → ℕ → Mem → Option (List ℕ)
  pub fill : ℕ → ℕ → ℕ → Mem → Option Mem
  -- MemAlloc of so many bytes: the address, and MemFree.
  pub allocate : ℕ → Mem → Option (ℕ × Mem)
  pub release : ℕ → Mem → Mem
  -- Init, DeviceGetCount, DeviceGet of device 0, DevicePrimaryCtxRetain and CtxSetCurrent.
  pub init_ok : Bool
  pub device_count : Option ℤ
  pub device_get_ok : Bool
  pub architecture : String
  pub retain_ok : Bool
  pub set_current_ok : Bool
  -- DeviceGetAttribute
  pub attribute : Attribute → Option ℤ
  -- get_instance and launch_with_raw_args: the text of an exception, or `none`.
  pub execute : Launch → Mem → Option String
  pub executed : Launch → Mem → Mem
  pub file_exists : String → Bool
  pub join_path : String → String → String
  -- getenv("FLAGSPARSE_CODEGEN_PATH") and the macro FLAGSPARSE_CODEGEN_DIR.
  pub env_codegen_path : Option String
  pub baked_codegen_dir : String
  -- static_cast<const float*>(p)[i] and the same for double, in the memory of the host.
  pub float_at : ℕ → ℕ → ℕ
  pub double_at : ℕ → ℕ → ℕ
  -- float to double, and double to float.
  pub widen : ℕ → ℕ
  pub narrow : ℕ → ℕ

-- The objects at their addresses, the words that out parameters point at, the device's memory, the
-- statics of the backend's adaptor, and the launches made so far, the last one first.
pub record State (Mem : Type 0) : Type 0 where
  pub contexts : ℕ → Option Context
  pub mats : ℕ → Option SpMatDescr
  pub dnmats : ℕ → Option DnMatDescr
  pub dnvecs : ℕ → Option DnVecDescr
  pub spvecs : ℕ → Option SpVecDescr
  pub spsvs : ℕ → Option SpSvDescr
  pub spsms : ℕ → Option SpSmDescr
  pub spgemms : ℕ → Option SpGemmDescr
  pub cells : ℕ → ℕ
  pub mem : Mem
  pub init_done : Bool
  pub device_ready : Bool
  pub device_arch : String
  pub launches : List Launch

abbrev pub update {ℓ} : {A : Type ℓ} → (ℕ → A) → ℕ → A → ℕ → A
update f p v q = if p == q then v else f q

abbrev pub or_default {ℓ} : {A : Type ℓ} → A → Option A → A
or_default d none = d
or_default d (some a) = a

module _ {Mem : Type 0} where
  -- The object at a pointer. Only live objects are looked at: a null or dangling pointer that the
  -- code follows is the caller's mistake and outside the model.
  abbrev pub context_at : State Mem → ℕ → Context
  context_at s p = or_default new_context (s.contexts p)

  abbrev pub mat_at : State Mem → ℕ → SpMatDescr
  mat_at s p = or_default new_spmat (s.mats p)

  abbrev pub dnmat_at : State Mem → ℕ → DnMatDescr
  dnmat_at s p = or_default new_dnmat (s.dnmats p)

  abbrev pub dnvec_at : State Mem → ℕ → DnVecDescr
  dnvec_at s p = or_default new_dnvec (s.dnvecs p)

  abbrev pub spvec_at : State Mem → ℕ → SpVecDescr
  spvec_at s p = or_default new_spvec (s.spvecs p)

  abbrev pub spsv_at : State Mem → ℕ → SpSvDescr
  spsv_at s p = or_default new_spsv (s.spsvs p)

  abbrev pub spsm_at : State Mem → ℕ → SpSmDescr
  spsm_at s p = or_default new_spsm (s.spsms p)

  abbrev pub spgemm_at : State Mem → ℕ → SpGemmDescr
  spgemm_at s p = or_default new_spgemm (s.spgemms p)

  -- Writes through a pointer.
  abbrev pub set_context : ℕ → Context → State Mem → State Mem
  set_context p c s = record s { contexts = update s.contexts p (some c) }

  abbrev pub set_mat : ℕ → SpMatDescr → State Mem → State Mem
  set_mat p d s = record s { mats = update s.mats p (some d) }

  abbrev pub set_spsv : ℕ → SpSvDescr → State Mem → State Mem
  set_spsv p d s = record s { spsvs = update s.spsvs p (some d) }

  abbrev pub set_spsm : ℕ → SpSmDescr → State Mem → State Mem
  set_spsm p d s = record s { spsms = update s.spsms p (some d) }

  abbrev pub set_spgemm : ℕ → SpGemmDescr → State Mem → State Mem
  set_spgemm p d s = record s { spgemms = update s.spgemms p (some d) }

  abbrev pub set_cell : ℕ → ℕ → State Mem → State Mem
  set_cell p v s = record s { cells = update s.cells p v }

  abbrev pub set_mem : Mem → State Mem → State Mem
  set_mem v s = record s { mem = v }

  -- ctx(handle)->last_error = text
  abbrev pub set_error : ℕ → String → State Mem → State Mem
  set_error h text s = set_context h (record (context_at s h) { last_error = text }) s

-- A function of the library that returns a status, on a machine.
abbrev pub Op : Machine → Type 0 → Type 0
Op m A = Exec (State m.Mem) A

-- if (b) { ctx(handle)->last_error = text; return e; }
abbrev pub refuse_with : {Mem : Type 0} → ℕ → Bool → String → Status → Exec (State Mem) (Unit {0})
refuse_with handle true text e s = (err e, set_error handle text s)
refuse_with handle false text e s = (ok tt, s)

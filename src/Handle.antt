-- ===== src/Handle.antt =====
-- src/api/context.cpp: the handle, its settings, and the texts of the status codes.
-- An out parameter is its address; what is written there is returned or goes to its cell.
pub mod Names
pub mod Settings
use cwapper.Base.{ℕ, zero, suc, String, Bool, not, none, some, Option, ◌==◌}
use cwapper.Types.{
  Status, success, not_initialized, alloc_failed, invalid_value, arch_mismatch, mapping_error,
  execution_failed, internal_error, matrix_type_not_supported, zero_pivot, not_supported,
  insufficient_resources, unlisted, PointerMode, is_known_mode,
}
use cwapper.Descr.{new_context}
use cwapper.Exec.{Exec, pure, gets, modify, refuse, ◌>>=◌, ◌>>◌}
use cwapper.Machine.{Machine, State, Op, context_at, set_context, set_cell, update}
use cwapper.Adaptor.{ensure_device}

-- The header's FLAGSPARSE_VERSION.
abbrev pub version : ℕ
version = 1000

module _ (m : Machine) where
  -- `p` is what operator new returns, 0 when it fails.
  unfoldable pub create : ℕ → ℕ → Op m (Unit {0})
  create handle p = do
    refuse (handle == 0) invalid_value
    modify (set_cell handle 0)
    refuse (p == 0) alloc_failed
    (index, arch) ← ensure_device m
    modify (set_context p (record new_context { device_index = index; device_arch = arch }))
    modify (set_cell handle p)

module _ {Mem : Type 0} where
  unfoldable pub destroy : ℕ → Exec (State Mem) (Unit {0})
  destroy handle = do
    refuse (handle == 0) invalid_value
    modify (λ s. record s { contexts = update s.contexts handle none })

  unfoldable pub set_stream : ℕ → ℕ → Exec (State Mem) (Unit {0})
  set_stream handle stream = do
    refuse (handle == 0) not_initialized
    c ← gets (λ s. context_at s handle)
    modify (set_context handle (record c { stream = stream }))

  unfoldable pub get_stream : ℕ → ℕ → Exec (State Mem) ℕ
  get_stream handle stream = do
    refuse (handle == 0) not_initialized
    refuse (stream == 0) invalid_value
    c ← gets (λ s. context_at s handle)
    pure c.stream

  unfoldable pub set_pointer_mode : ℕ → PointerMode → Exec (State Mem) (Unit {0})
  set_pointer_mode handle mode = do
    refuse (handle == 0) not_initialized
    refuse (not (is_known_mode mode)) invalid_value
    c ← gets (λ s. context_at s handle)
    modify (set_context handle (record c { pointer_mode = mode }))

  unfoldable pub get_pointer_mode : ℕ → ℕ → Exec (State Mem) PointerMode
  get_pointer_mode handle mode = do
    refuse (handle == 0) not_initialized
    refuse (mode == 0) invalid_value
    c ← gets (λ s. context_at s handle)
    pure c.pointer_mode

  unfoldable pub get_version : ℕ → ℕ → Exec (State Mem) ℕ
  get_version handle out = do
    refuse (handle == 0) not_initialized
    refuse (out == 0) invalid_value
    pure version

  unfoldable pub get_last_error_string : ℕ → ℕ → Exec (State Mem) String
  get_last_error_string handle str = do
    refuse (handle == 0) not_initialized
    refuse (str == 0) invalid_value
    c ← gets (λ s. context_at s handle)
    pure c.last_error

-- The status that is returned, and what *str is set to, if it is.
unfoldable pub get_error_name : Status → ℕ → Status × Option String
get_error_name st zero = (invalid_value, none)
get_error_name success (suc p) = (success, some "FLAGSPARSE_STATUS_SUCCESS")
get_error_name not_initialized (suc p) = (success, some "FLAGSPARSE_STATUS_NOT_INITIALIZED")
get_error_name alloc_failed (suc p) = (success, some "FLAGSPARSE_STATUS_ALLOC_FAILED")
get_error_name invalid_value (suc p) = (success, some "FLAGSPARSE_STATUS_INVALID_VALUE")
get_error_name arch_mismatch (suc p) = (success, some "FLAGSPARSE_STATUS_ARCH_MISMATCH")
get_error_name mapping_error (suc p) = (success, some "FLAGSPARSE_STATUS_MAPPING_ERROR")
get_error_name execution_failed (suc p) = (success, some "FLAGSPARSE_STATUS_EXECUTION_FAILED")
get_error_name internal_error (suc p) = (success, some "FLAGSPARSE_STATUS_INTERNAL_ERROR")
get_error_name matrix_type_not_supported (suc p) =
    (success, some "FLAGSPARSE_STATUS_MATRIX_TYPE_NOT_SUPPORTED")
get_error_name zero_pivot (suc p) = (success, some "FLAGSPARSE_STATUS_ZERO_PIVOT")
get_error_name not_supported (suc p) = (success, some "FLAGSPARSE_STATUS_NOT_SUPPORTED")
get_error_name insufficient_resources (suc p) =
    (success, some "FLAGSPARSE_STATUS_INSUFFICIENT_RESOURCES")
get_error_name (unlisted n) (suc p) = (invalid_value, some "FLAGSPARSE_STATUS_UNKNOWN")

unfoldable pub get_error_string : Status → ℕ → Status × Option String
get_error_string st zero = (invalid_value, none)
get_error_string success (suc p) = (success, some "the operation completed successfully")
get_error_string not_initialized (suc p) =
    (success, some "the handle was not created with flagsparseCreate")
get_error_string alloc_failed (suc p) = (success, some "resource allocation failed")
get_error_string invalid_value (suc p) = (success, some "an argument had an invalid value")
get_error_string arch_mismatch (suc p) =
    (success, some "the device architecture is not supported by this build")
get_error_string mapping_error (suc p) = (success, some "a memory mapping operation failed")
get_error_string execution_failed (suc p) = (success, some "the kernel launch failed")
get_error_string internal_error (suc p) = (success, some "an internal error occurred")
get_error_string matrix_type_not_supported (suc p) =
    (success, some "the matrix type is not supported by this routine")
get_error_string zero_pivot (suc p) = (success, some "a zero pivot was encountered")
get_error_string not_supported (suc p) =
    (success, some "the operation is not supported on this backend or build")
get_error_string insufficient_resources (suc p) =
    (success, some "insufficient resources for the requested operation")
get_error_string (unlisted n) (suc p) = (invalid_value, some "unknown status")
